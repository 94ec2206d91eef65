-- ===== src/Base/Number.antt =====
-- strconv.Atoi and strconv.ParseUint on code points, and how they read what Itoa writes.
use Prim.Native.Char.{code}
use zpinit.Base.{
  ℕ, zero, suc, ◌+◌, ◌-◌, ◌*◌, ◌/◌, ◌%◌, ◌^◌, ◌<◌, String, ◌≡◌, refl, ap, Bool, true, false, ◌&&◌,
  Option, none, some, List, [], ◌∷◌, ◌++◌, arith, ltb, leb, ◌==◌, if◌then◌else◌, Bool-cases, lt→ltb,
  inl, inr,
}
use zpinit.Base.Int.{ℤ, pos, negsuc}
use zpinit.Base.Cuts.{lacks}
use zpinit.Base.Texts.{codes, cat}
use zpinit.Base.Decimal.{digits_onto, decimal, digit_char, digit_text, itoa}

abbrev pub is_digit : ℕ → Bool
is_digit c = leb b'0' c && leb c b'9'

-- the digits after a value that is read already
unfoldable pub digits_from : ℕ → List ℕ → Option ℕ
digits_from n [] = some n
digits_from n (c ∷ rest) =
    let more = digits_from (n * 10 + (c - 48)) rest in if is_digit c then more else none

-- one digit at least
unfoldable pub parse_digits : List ℕ → Option ℕ
unfolding digits_from
parse_digits [] = none
parse_digits (c ∷ rest) = digits_from 0 (c ∷ rest)

abbrev below : ℕ → Option ℕ → Option ℕ
below limit none = none
below limit (some n) = if ltb n limit then some n else none

-- ParseUint(s, 10, bits): no sign
unfoldable pub parse_uint : ℕ → List ℕ → Option ℕ
unfolding parse_digits
parse_uint bits s = below (2 ^ bits) (parse_digits s)

abbrev as_positive : Option ℕ → Option ℤ
as_positive none = none
as_positive (some n) = if ltb n (2 ^ 63) then some (pos n) else none

abbrev as_negative : Option ℕ → Option ℤ
as_negative none = none
as_negative (some zero) = some (pos 0)
as_negative (some (suc n)) = if ltb n (2 ^ 63) then some (negsuc n) else none

-- Atoi: an optional sign, and a range error where int64 ends
unfoldable pub atoi : List ℕ → Option ℤ
unfolding parse_digits
atoi [] = none
atoi (c ∷ rest) =
    if c == b'-'
    then as_negative (parse_digits rest)
    else if c == b'+'
    then as_positive (parse_digits rest)
    else as_positive (parse_digits (c ∷ rest))

digits_from-digits_onto :
    (fuel n : ℕ) (acc : List ℕ)
    → n < fuel
    → digits_from 0 (digits_onto fuel n acc) ≡ digits_from n acc
unfolding digits_from digits_onto
digits_from-digits_onto zero n acc h = elim h [ ]
digits_from-digits_onto (suc fuel) n acc h =
    ground (arith, digits_from-digits_onto fuel (n / 10) ((48 + n % 10) ∷ acc))

-- a list of digits
unfoldable pub are_digits : List ℕ → Bool
are_digits [] = true
are_digits (c ∷ rest) = is_digit c && are_digits rest

digits_onto-digits :
    (fuel n : ℕ) (acc : List ℕ) → are_digits acc ≡ true → are_digits (digits_onto fuel n acc) ≡ true
unfolding are_digits digits_onto
digits_onto-digits zero n acc h = h
digits_onto-digits (suc fuel) n acc h =
    ground (arith, digits_onto-digits fuel (n / 10) ((48 + n % 10) ∷ acc))

digits_onto-length :
    (fuel n : ℕ) (acc : List ℕ)
    → n < fuel
    → (c : ℕ) × (rest : List ℕ) × (digits_onto fuel n acc ≡ c ∷ rest)
unfolding digits_onto
digits_onto-length zero n acc h = elim h [ ]
digits_onto-length (suc fuel) n acc h = elim (Bool-cases (ltb n 10)) [
  | inl e ↦ (48 + n, acc, rw e refl)
  | inr e ↦ rw e (digits_onto-length fuel (n / 10) ((48 + n % 10) ∷ acc) (ground arith))
]

pub parse_digits-decimal : (n : ℕ) → parse_digits (decimal n) ≡ some n
unfolding parse_digits decimal
parse_digits-decimal n =
    let (c, rest, e) = digits_onto-length (suc n) n [] (omega arith) in
    let q = digits_from-digits_onto (suc n) n [] (omega arith) in rw e (rw e at q)

pub are_digits-decimal : (n : ℕ) → are_digits (decimal n) ≡ true
unfolding decimal are_digits
are_digits-decimal n = digits_onto-digits (suc n) n [] refl

pub lacks-digits :
    (sep : ℕ) (l : List ℕ) → is_digit sep ≡ false → are_digits l ≡ true → lacks sep l ≡ true
unfolding lacks are_digits
lacks-digits sep [] h k = refl
lacks-digits sep (c ∷ l) h k = ground (arith, lacks-digits sep l h)

unsigned :
    (c : ℕ) (rest : List ℕ) (n : ℕ)
    → n < 2 ^ 63
    → parse_digits (c ∷ rest) ≡ some n
    → is_digit c ≡ true
    → atoi (c ∷ rest) ≡ some (pos n)
unfolding atoi
unsigned c rest n h q d =
    let (minus, plus) = not_sign c d in rw (minus, plus, ap as_positive q, lt→ltb n (2 ^ 63) h)
  where
    not_sign : (c : ℕ) → is_digit c ≡ true → ((c == b'-') ≡ false) × ((c == b'+') ≡ false)
    not_sign c d = (ground arith, ground arith)

-- What Itoa writes, Atoi reads.
pub atoi-decimal : (n : ℕ) → n < 2 ^ 63 → atoi (decimal n) ≡ some (pos n)
unfolding atoi
atoi-decimal n h =
    let (c, rest, e) = digits_onto-length (suc n) n [] (omega arith) in
    let d : decimal n ≡ c ∷ rest = unfold decimal in e in
    let q : parse_digits (c ∷ rest) ≡ some n = rw d at (parse_digits-decimal n) in
    let digits : are_digits (c ∷ rest) ≡ true = rw d at (are_digits-decimal n) in
    rw d (unsigned c rest n h q (unfold are_digits in ground (arith, digits)))

all_below : ℕ → (ℕ → Bool) → Bool
all_below zero p = true
all_below (suc n) p = p n && all_below n p

all_below-lt : (n : ℕ) (p : ℕ → Bool) (x : ℕ) → all_below n p ≡ true → x < n → p x ≡ true
unfolding all_below
all_below-lt zero p x h lt = absurd (omega arith)
all_below-lt (suc n) p x h lt = ground (arith, all_below-lt n p x)

-- every digit is read back, by evaluation
digits_table : all_below 58 (λ d. if is_digit d then code (digit_char d) == d else true) ≡ true
unfolding all_below digit_char
digits_table = refl

code-digit_char : (d : ℕ) → is_digit d ≡ true → code (digit_char d) ≡ d
code-digit_char d h =
    let row =
      all_below-lt 58 (λ d. if is_digit d then code (digit_char d) == d else true) d digits_table
        (ground arith) in
    ground (arith, row)

codes-digit_text : (l : List ℕ) → are_digits l ≡ true → codes (digit_text l) ≡ l
unfolding digit_text are_digits
codes-digit_text [] h = refl
codes-digit_text (d ∷ l) h = ground (arith, code-digit_char d, codes-digit_text l)

pub codes-itoa : (n : ℕ) → codes (itoa n) ≡ decimal n
unfolding itoa
codes-itoa n = codes-digit_text (decimal n) (are_digits-decimal n)

pub codes-cat : (a b : String) → codes (cat a b) ≡ codes a ++ codes b
unfolding cat
codes-cat String.[] b = refl
codes-cat (String.◌∷◌ c a) b = ap (λ l. code c ∷ l) (codes-cat a b)

pub lacks-decimal : (sep n : ℕ) → is_digit sep ≡ false → lacks sep (decimal n) ≡ true
lacks-decimal sep n h = lacks-digits sep (decimal n) h (are_digits-decimal n)

pub parse_uint-decimal : (bits n : ℕ) → n < 2 ^ bits → parse_uint bits (decimal n) ≡ some n
unfolding parse_uint
parse_uint-decimal bits n h = rw (parse_digits-decimal n, lt→ltb n (2 ^ bits) h) refl
