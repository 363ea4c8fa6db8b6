-- ===== src/Prelude/Digits.antt =====
-- Decimal digits read back what they print, and what the program uses of strings.Index and
-- strings.LastIndex on one byte.
use polymarket_go.Prelude.Words.{ℤ, pos, negsuc}
use polymarket_go.Prelude.Strings.{
  parse_int, parse_digits_from, parse_digits, negate, decimal_int, decimal_from, decimal,
}
use polymarket_go.Prelude.{
  is_empty, if◌then◌else◌, ◌≤◌, ◌≡◌, ◌∷◌, ◌∙◌, ◌==◌, ◌<◌, ◌/◌, ◌+◌, ◌++◌, ◌*◌, ◌%◌, ℕ, zero, true,
  sym, suc, subst, some, refl, none, ltb, inr, inl, false, arith, ap, [], Option, Bool-cases, Bool,
  All, Text,
}

-- A text starts with a decimal digit.
abbrev pub HasDigit : Text → Type 0
HasDigit t = (c : ℕ) × (s : Text) × (t ≡ c ∷ s) × (48 ≤ c) × (c ≤ 57)

decimal_from-HasDigit : (f n : ℕ) (acc : Text) → n < f → HasDigit (decimal_from f n acc)
unfolding decimal_from
decimal_from-HasDigit zero n acc h = absurd (omega arith)
decimal_from-HasDigit (suc zero) n acc h =
    (48 + n % 10, acc, ground arith, omega arith, omega arith)
decimal_from-HasDigit (suc (suc f)) n acc h = elim (Bool-cases (ltb n 10)) [
  | inl t ↦ (48 + n % 10, acc, rw t refl, omega arith, omega arith)
  | inr t ↦ rw t (decimal_from-HasDigit (suc f) (n / 10) ((48 + n % 10) ∷ acc) (ground arith))
]

digit_step :
    (acc d : ℕ) (s : Text)
    → d < 10
    → parse_digits_from acc ((48 + d) ∷ s) ≡ parse_digits_from (acc * 10 + d) s
unfolding parse_digits_from
digit_step acc d s h = ground arith

parse_digits_from-decimal_from :
    (f n : ℕ) (acc : Text)
    → n < f
    → parse_digits_from 0 (decimal_from f n acc) ≡ parse_digits_from n acc
unfolding decimal_from
parse_digits_from-decimal_from zero n acc h = absurd (omega arith)
parse_digits_from-decimal_from (suc f) n acc h = elim (Bool-cases (ltb n 10)) [
  | inl t ↦
      rw t
        (digit_step 0 (n % 10) acc (omega arith) ∙ ap (λ k. parse_digits_from k acc) (ground arith))
  | inr t ↦ rw t (
      parse_digits_from-decimal_from f (n / 10) ((48 + n % 10) ∷ acc) (ground arith)
      ∙ (digit_step (n / 10) (n % 10) acc (omega arith)
          ∙ ap (λ k. parse_digits_from k acc) (omega arith)))
]

-- Reading a printed number gives it back.
pub parse_digits-decimal : (n : ℕ) → parse_digits (decimal n) ≡ some n
unfolding parse_digits decimal
parse_digits-decimal n =
    let (c, s, e, lo, hi) = decimal_from-HasDigit (suc n) n [] (omega arith) in
    rw e
      (sym (ap (parse_digits_from 0) e) ∙ parse_digits_from-decimal_from (suc n) n [] (omega arith))

parse_int-digits :
    (c : ℕ) (s : Text) (n : ℕ)
    → 48 ≤ c
    → parse_digits (c ∷ s) ≡ some n
    → parse_int (c ∷ s) ≡ some (pos n)
unfolding parse_int
parse_int-digits c s n lo h =
    let m : (c == b'-') ≡ false = ground arith in
    let p : (c == b'+') ≡ false = ground arith in rw (m, p, h) refl

pub parse_int-decimal_int : (n : ℤ) → parse_int (decimal_int n) ≡ some n
unfolding parse_int decimal_int decimal negate
parse_int-decimal_int (pos n) =
    let (c, s, e, lo, hi) = decimal_from-HasDigit (suc n) n [] (omega arith) in
    rw e
      (parse_int-digits c s n lo (subst (λ t. parse_digits t ≡ some n) e (parse_digits-decimal n)))
parse_int-decimal_int (negsuc n) = rw (parse_digits-decimal (suc n)) refl

-- The texts from the first byte c on, and up to the last one.
unfoldable pub from_byte : ℕ → Text → Option Text
from_byte c [] = none
from_byte c (x ∷ s) = let rest = from_byte c s in if x == c then some (x ∷ s) else rest

abbrev pub cons_or : ℕ → Bool → Option Text → Option Text
cons_or x is_c (some p) = some (x ∷ p)
cons_or x true none = some (x ∷ [])
cons_or x false none = none

unfoldable pub to_byte : ℕ → Text → Option Text
to_byte c [] = none
to_byte c (x ∷ s) = cons_or x (x == c) (to_byte c s)

abbrev pub Lacks : ℕ → Text → Type 0
Lacks c t = All (λ x. (x == c) ≡ false) t

pub from_byte-append :
    (c : ℕ) (pre s : Text) → Lacks c pre → from_byte c (pre ++ c ∷ s) ≡ some (c ∷ s)
unfolding from_byte
from_byte-append c [] s h = ground arith
from_byte-append c (x ∷ pre) s h = rw h.0 (from_byte-append c pre s h.1)

to_byte-Lacks : (c : ℕ) (t : Text) → Lacks c t → to_byte c t ≡ none
unfolding to_byte
to_byte-Lacks c [] h = refl
to_byte-Lacks c (x ∷ t) h = rw (to_byte-Lacks c t h.1, h.0) refl

pub to_byte-append :
    (c : ℕ) (pre post : Text) → Lacks c post → to_byte c (pre ++ c ∷ post) ≡ some (pre ++ c ∷ [])
unfolding to_byte
to_byte-append c [] post h = rw (to_byte-Lacks c post h) (ground arith)
to_byte-append c (x ∷ pre) post h = rw (to_byte-append c pre post h) refl

pub decimal-ne-nil : (n : ℕ) → is_empty (decimal n) ≡ false
unfolding decimal
decimal-ne-nil n =
    let (c, s, e, lo, hi) = decimal_from-HasDigit (suc n) n [] (omega arith) in ap is_empty e
