-- ===== src/Config/Signal/Names.antt =====
-- What signal names parse to: in any case, with or without the prefix, and back again.
use zpinit.Base.{
  ℕ, zero, suc, ◌≤◌, ◌≡◌, refl, ap, Bool, true, false, ◌&&◌, Option, none, some, List, [], ◌∷◌,
  ◌++◌, inl, inr, arith, ◌==◌, ==_iff, Bool-cases,
}
use zpinit.Base.Texts.{codes}
use zpinit.Config.Signal.{
  parse_signal, signal_name, map_upper, trim_sig, to_upper, find_number, all_signals, eq_codes,
}

is_number : ℕ → Option ℕ → Bool
is_number s none = false
is_number s (some t) = t == s

number_of : (s : ℕ) (o : Option ℕ) → is_number s o ≡ true → o ≡ some s
unfolding is_number
number_of s none h = cc
number_of s (some t) h = ap some ((==_iff t s).0 h)

parses_back : ℕ → Bool
parses_back zero = true
parses_back (suc s) = is_number (suc s) (parse_signal (signal_name (suc s))) && parses_back s

parses_back_sound :
    (n s : ℕ) → parses_back n ≡ true → 1 ≤ s → s ≤ n → parse_signal (signal_name s) ≡ some s
unfolding parses_back
parses_back_sound zero s h low up = absurd (omega arith)
parses_back_sound (suc n) s h low up = elim (Bool-cases (s == suc n)) [
  | inl e ↦
      rw ((==_iff s (suc n)).0 e)
        (number_of (suc n) (parse_signal (signal_name (suc n))) (ground arith))
  | inr e ↦ parses_back_sound n s (ground arith) low (ground arith)
]

parses_back_table : parses_back 31 ≡ true
unfolding parses_back is_number parse_signal signal_name
parses_back_table = refl

-- The conventional name of each of the standard signals 1 to 31 parses to that signal.
pub parse_signal-signal_name : (s : ℕ) → 1 ≤ s → s ≤ 31 → parse_signal (signal_name s) ≡ some s
parse_signal-signal_name s low up = parses_back_sound 31 s parses_back_table low up

to_upper_idem : (c : ℕ) → to_upper (to_upper c) ≡ to_upper c
unfolding to_upper
to_upper_idem c = ground arith

map_upper-append : (a b : List ℕ) → map_upper (a ++ b) ≡ map_upper a ++ map_upper b
unfolding map_upper
map_upper-append [] b = refl
map_upper-append (x ∷ a) b = ap (λ r. to_upper x ∷ r) (map_upper-append a b)

map_upper_idem : (n : List ℕ) → map_upper (map_upper n) ≡ map_upper n
unfolding map_upper
map_upper_idem [] = refl
map_upper_idem (c ∷ n) = cc (to_upper_idem c, map_upper_idem n)

trim_sig-prefix : (n : List ℕ) → trim_sig (codes "SIG" ++ n) ≡ n
unfolding trim_sig
trim_sig-prefix n = refl

-- A name parses as it does in upper case, and a prefix "SIG" in any case changes nothing, unless
-- the name itself begins with one.
pub parse_signal_prefix_case :
    (p n : List ℕ)
    → map_upper p ≡ codes "SIG"
    → trim_sig (map_upper n) ≡ map_upper n
    → (parse_signal (map_upper n) ≡ parse_signal n) × (parse_signal (p ++ n) ≡ parse_signal n)
unfolding parse_signal
parse_signal_prefix_case p n hp hn =
    (rw (map_upper_idem n), rw (map_upper-append p n, hp, trim_sig-prefix (map_upper n), hn))

eq_codes-eq : (a b : List ℕ) → eq_codes a b ≡ true → a ≡ b
unfolding eq_codes
eq_codes-eq [] [] h = refl
eq_codes-eq (x ∷ a) (y ∷ b) h = ground (arith, eq_codes-eq a b)
eq_codes-eq [] (y ∷ b) h = cc
eq_codes-eq (x ∷ a) [] h = cc

-- each entry is what the reverse table holds for its number
abbrev Agree : List (List ℕ × ℕ) → Type 0
Agree [] = Unit
Agree ((name, sig) ∷ rest) = (signal_name sig ≡ codes "SIG" ++ name) × Agree rest

all_signals-Agree : Agree all_signals
unfolding signal_name
all_signals-Agree = (
  refl,
  (
    refl,
    (
      refl,
      (
        refl,
        (
          refl,
          (
            refl,
            (
              refl,
              (
                refl,
                (
                  refl,
                  (
                    refl,
                    (
                      refl,
                      (
                        refl,
                        (
                          refl,
                          (
                            refl,
                            (
                              refl,
                              (
                                refl,
                                (
                                  refl,
                                  (
                                    refl,
                                    (
                                      refl,
                                      (
                                        refl,
                                        (
                                          refl,
                                          (
                                            refl,
                                            (
                                              refl,
                                              (
                                                refl,
                                                (
                                                  refl,
                                                  (
                                                    refl,
                                                    (refl, (refl, (refl, (refl, (refl, tt))))),
                                                  ),
                                                ),
                                              ),
                                            ),
                                          ),
                                        ),
                                      ),
                                    ),
                                  ),
                                ),
                              ),
                            ),
                          ),
                        ),
                      ),
                    ),
                  ),
                ),
              ),
            ),
          ),
        ),
      ),
    ),
  ),
)

find_number-name :
    (l : List (List ℕ × ℕ)) (n : List ℕ) (s : ℕ)
    → Agree l
    → find_number l n ≡ some s
    → signal_name s ≡ codes "SIG" ++ n
unfolding find_number
find_number-name [] n s ok h = cc
find_number-name ((name, sig) ∷ l) n s ok h = elim (Bool-cases (eq_codes name n)) [
  | inl e ↦
      let h' : some sig ≡ some s = rw e at h in
      let same : name ≡ n = eq_codes-eq name n e in cc (ok.0)
  | inr e ↦ find_number-name l n s ok.1 (rw e at h)
]

-- Whatever parses is a spelling of the conventional name: in upper case and behind one "SIG" it is
-- the name of the signal that it parses to.
pub parse_signal_sound :
    (n : List ℕ) (s : ℕ)
    → parse_signal n ≡ some s
    → signal_name s ≡ codes "SIG" ++ trim_sig (map_upper n)
unfolding parse_signal
parse_signal_sound n s h =
    find_number-name all_signals (trim_sig (map_upper n)) s all_signals-Agree h
