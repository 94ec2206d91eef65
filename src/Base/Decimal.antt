-- ===== src/Base/Decimal.antt =====
-- strconv.Itoa of a number that is not negative, as code points and as a text.
use zpinit.Base.Tests.{if◌then◌else◌, ltb, ◌==◌}
use Prim.Native.Nat.{ℕ, zero, suc, ◌+◌, ◌/◌, ◌%◌}
use Prim.Native.Char.{Char}
use Prim.Native.String.{String}
use mathlib.Core.List.{List, [], ◌∷◌}

-- With more fuel than digits the loop ends by its test; a number has no more digits than itself
-- plus one.
unfoldable pub digits_onto : ℕ → ℕ → List ℕ → List ℕ
digits_onto zero n acc = acc
digits_onto (suc fuel) n acc =
    let rest = digits_onto fuel (n / 10) ((48 + n % 10) ∷ acc) in
    if ltb n 10 then (48 + n) ∷ acc else rest

unfoldable pub decimal : ℕ → List ℕ
unfolding digits_onto
decimal n = digits_onto (suc n) n []

unfoldable pub digit_char : ℕ → Char
digit_char d =
    if d == 48
    then "0"
    else if d == 49
    then "1"
    else if d == 50
    then "2"
    else if d == 51
    then "3"
    else if d == 52
    then "4"
    else if d == 53
    then "5"
    else if d == 54
    then "6"
    else if d == 55
    then "7"
    else if d == 56
    then "8"
    else "9"

unfoldable pub digit_text : List ℕ → String
unfolding digit_char
digit_text [] = String.[]
digit_text (d ∷ rest) = String.◌∷◌ (digit_char d) (digit_text rest)

unfoldable pub itoa : ℕ → String
unfolding decimal digit_text
itoa n = digit_text (decimal n)
