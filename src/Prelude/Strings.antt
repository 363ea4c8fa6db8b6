-- ===== src/Prelude/Strings.antt =====
-- Go strings as lists of bytes, with what the program uses of the packages strings, strconv and
-- math/big. Letters are those of ASCII.
use Prim.Native.Char.{code}
use Prim.Native.Nat.{ℕ, zero, suc, ◌+◌, ◌-◌, ◌*◌, ◌/◌, ◌%◌}
use Prim.Native.String.{String}
use mathlib.Core.Path.{◌≡◌, refl}
use mathlib.Core.Logic.{◌↔◌, ◌≢◌}
use mathlib.Core.Bool.{Bool, true, false, ◌&&◌, ◌||◌}
use mathlib.Core.List.{List, [], ◌∷◌, map}
use mathlib.Core.Option.{Option, none, some}
use native.Mathlib.Omega.{arith}
use polymarket_go.Prelude.Tests.{ltb, leb, ◌==◌, if◌then◌else◌}
use polymarket_go.Prelude.Words.{ℤ, pos, negsuc}

abbrev pub Text : Type 0
Text = List ℕ

-- The bytes of an ASCII literal.
abbrev pub lit : String → Text
lit String.[] = []
lit (String.◌∷◌ c s) = code c ∷ lit s

unfoldable pub text_eq : Text → Text → Bool
text_eq [] [] = true
text_eq [] (d ∷ t) = false
text_eq (c ∷ s) [] = false
text_eq (c ∷ s) (d ∷ t) = c == d && text_eq s t

pub text_eq_iff : (s t : Text) → (text_eq s t ≡ true) ↔ (s ≡ t)
unfolding text_eq
text_eq_iff [] [] = ground arith
text_eq_iff [] (d ∷ t) = ground arith
text_eq_iff (c ∷ s) [] = ground arith
text_eq_iff (c ∷ s) (d ∷ t) = ground (arith, text_eq_iff s t)

pub text_eq_refl : (s : Text) → text_eq s s ≡ true
text_eq_refl s = (text_eq_iff s s).1 refl

pub text_eq-ne : (s t : Text) → s ≢ t → text_eq s t ≡ false
text_eq-ne s t h = ground (arith, text_eq_iff s t)

abbrev pub is_empty {ℓ} : {A : Type ℓ} → List A → Bool
is_empty [] = true
is_empty (c ∷ s) = false

unfoldable pub starts_with : Text → Text → Bool
starts_with [] t = true
starts_with (c ∷ s) [] = false
starts_with (c ∷ s) (d ∷ t) = c == d && starts_with s t

-- `strings.Contains(t, s)`.
unfoldable pub contains : Text → Text → Bool
unfolding starts_with
contains [] s = is_empty s
contains (d ∷ t) s = starts_with s (d ∷ t) || contains t s

unfoldable pub drop_prefix : Text → Text → Option Text
drop_prefix [] t = some t
drop_prefix (c ∷ s) [] = none
drop_prefix (c ∷ s) (d ∷ t) = if c == d then drop_prefix s t else none

-- `strings.TrimPrefix(t, s)`.
unfoldable pub trim_prefix : Text → Text → Text
unfolding drop_prefix
trim_prefix t s = elim (drop_prefix s t) [ none ↦ t | some r ↦ r ]

unfoldable pub lower_byte : ℕ → ℕ
lower_byte c = if leb b'A' c && leb c b'Z' then c + 32 else c

unfoldable pub upper_byte : ℕ → ℕ
upper_byte c = if leb b'a' c && leb c b'z' then c - 32 else c

unfoldable pub to_lower : Text → Text
unfolding lower_byte
to_lower s = map lower_byte s

unfoldable pub to_upper : Text → Text
unfolding upper_byte
to_upper s = map upper_byte s

-- Decimal digits, least significant last; the number itself is enough fuel.
unfoldable pub decimal_from : ℕ → ℕ → Text → Text
decimal_from zero n acc = acc
decimal_from (suc f) n acc =
    let acc' = (48 + n % 10) ∷ acc in
    let rest = decimal_from f (n / 10) acc' in if ltb n 10 then acc' else rest

-- `%d` of a number that is not negative.
unfoldable pub decimal : ℕ → Text
unfolding decimal_from
decimal n = decimal_from (suc n) n []

unfoldable pub decimal_int : ℤ → Text
unfolding decimal
decimal_int (pos n) = decimal n
decimal_int (negsuc n) = b'-' ∷ decimal (suc n)

abbrev pub is_digit : ℕ → Bool
is_digit c = leb b'0' c && leb c b'9'

unfoldable pub parse_digits_from : ℕ → Text → Option ℕ
parse_digits_from acc [] = some acc
parse_digits_from acc (c ∷ s) =
    let rest = parse_digits_from (acc * 10 + (c - 48)) s in if is_digit c then rest else none

-- At least one digit, and digits only.
unfoldable pub parse_digits : Text → Option ℕ
unfolding parse_digits_from
parse_digits [] = none
parse_digits (c ∷ s) = parse_digits_from 0 (c ∷ s)

unfoldable pub negate : ℕ → ℤ
negate zero = pos 0
negate (suc n) = negsuc n

-- `SetString(s, 10)` of math/big: an optional sign and digits.
unfoldable pub parse_int : Text → Option ℤ
unfolding parse_digits negate
parse_int [] = none
parse_int (c ∷ s) =
    if c == b'-'
    then elim (parse_digits s) [ none ↦ none | some n ↦ some (negate n) ]
    else elim (parse_digits (if c == b'+' then s else c ∷ s)) [
      | none ↦ none
      | some n ↦ some (pos n)
    ]

-- One hexadecimal digit, and `hex.EncodeToString`.
abbrev pub hex_digit : ℕ → ℕ
hex_digit n = if ltb n 10 then n + 48 else n + 87

unfoldable pub hex : Text → Text
hex [] = []
hex (b ∷ bs) = hex_digit (b / 16) ∷ hex_digit (b % 16) ∷ hex bs

-- `strings.TrimRight(s, cutset)` for a cutset of one byte.
unfoldable pub trim_right : ℕ → Text → Text
trim_right c [] = []
trim_right c (x ∷ s) = let rest = trim_right c s in if is_empty rest && x == c then [] else x ∷ rest

-- The value of a hexadecimal digit.
unfoldable pub hex_value : ℕ → Option ℕ
hex_value c =
    if is_digit c
    then some (c - 48)
    else if leb b'a' c && leb c b'f'
    then some (c - 87)
    else if leb b'A' c && leb c b'F'
    then some (c - 55)
    else none

unfoldable pub parse_hex_from : ℕ → Text → Option ℕ
parse_hex_from acc [] = some acc
parse_hex_from acc (c ∷ s) = elim (hex_value c) [
  | none ↦ none
  | some v ↦ parse_hex_from (acc * 16 + v) s
]

unfoldable pub parse_hex_digits : Text → Option ℕ
unfolding parse_hex_from hex_value
parse_hex_digits [] = none
parse_hex_digits (c ∷ s) = parse_hex_from 0 (c ∷ s)

-- `SetString(s, 16)` of math/big: an optional sign and digits.
unfoldable pub parse_hex : Text → Option ℤ
unfolding parse_hex_digits negate
parse_hex [] = none
parse_hex (c ∷ s) =
    if c == b'-'
    then elim (parse_hex_digits s) [ none ↦ none | some n ↦ some (negate n) ]
    else elim (parse_hex_digits (if c == b'+' then s else c ∷ s)) [
      | none ↦ none
      | some n ↦ some (pos n)
    ]
