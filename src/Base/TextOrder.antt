-- ===== src/Base/TextOrder.antt =====
-- The order of texts is strict and total.
use Prim.Native.Char.{code}
use Prim.Native.String.{String}
use text.Mathlib.TextEquality.{Char-path}
use mathlib.Core.Path.{◌≡◌, refl}
use mathlib.Core.Bool.{true, false}
use native.Mathlib.Omega.{arith}
use zpinit.Base.Texts.{text_ltb}

-- a < b and b ≤ c give a < c
pub text_ltb_trans :
    (a b c : String) → text_ltb a b ≡ true → text_ltb c b ≡ false → text_ltb a c ≡ true
unfolding text_ltb
text_ltb_trans String.[] String.[] c h k = cc
text_ltb_trans String.[] (String.◌∷◌ y b) String.[] h k = cc
text_ltb_trans String.[] (String.◌∷◌ y b) (String.◌∷◌ z c) h k = refl
text_ltb_trans (String.◌∷◌ x a) String.[] c h k = cc
text_ltb_trans (String.◌∷◌ x a) (String.◌∷◌ y b) String.[] h k = cc
text_ltb_trans (String.◌∷◌ x a) (String.◌∷◌ y b) (String.◌∷◌ z c) h k =
    ground (arith, text_ltb_trans a b c)

pub text_ltb_asym : (a b : String) → text_ltb a b ≡ true → text_ltb b a ≡ false
unfolding text_ltb
text_ltb_asym String.[] String.[] h = cc
text_ltb_asym String.[] (String.◌∷◌ y b) h = refl
text_ltb_asym (String.◌∷◌ x a) String.[] h = cc
text_ltb_asym (String.◌∷◌ x a) (String.◌∷◌ y b) h = ground (arith, text_ltb_asym a b)

pub text_ltb_total : (a b : String) → text_ltb a b ≡ false → text_ltb b a ≡ false → a ≡ b
unfolding text_ltb
text_ltb_total String.[] String.[] h k = refl
text_ltb_total String.[] (String.◌∷◌ y b) h k = cc
text_ltb_total (String.◌∷◌ x a) String.[] h k = cc
text_ltb_total (String.◌∷◌ x a) (String.◌∷◌ y b) h k =
    let e : code x ≡ code y = ground arith in
    let rest : a ≡ b = text_ltb_total a b (ground arith) (ground arith) in
    cc (Char-path x y e, rest)
