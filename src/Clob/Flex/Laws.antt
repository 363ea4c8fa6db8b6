-- ===== src/Clob/Flex/Laws.antt =====
-- What the flexible decoders give back (clob/flex.go).
use polymarket_go.Prelude.Words.{ℤ, pos, negsuc}
use polymarket_go.Prelude.Strings.{decimal_int}
use polymarket_go.Prelude.Digits.{parse_int-decimal_int, decimal-ne-nil}
use polymarket_go.Prelude.{text_eq, ◌≡◌, ◌∷◌, ◌++◌, true, refl, ok, is_empty, false, []}
use polymarket_go.Clob.Floats.{Floats}
use polymarket_go.Clob.Flex.{parse_int64, flex_value, flex_int64, fits_int64, FlexLibrary}

parse_int64-decimal_int : (n : ℤ) → fits_int64 n ≡ true → parse_int64 (decimal_int n) ≡ ok n
unfolding parse_int64
parse_int64-decimal_int n h = rw (parse_int-decimal_int n, h) refl

-- A printed number is not empty.
decimal_int-ne-nil : (n : ℤ) → is_empty (decimal_int n) ≡ false
unfolding decimal_int
decimal_int-ne-nil (pos n) = decimal-ne-nil n
decimal_int-ne-nil (negsuc n) = refl

-- A whole number in the range of int64 that is printed in decimal and put in quotes is decoded as
-- itself, whatever the value was before, if the JSON library reads a quoted text of digits as that
-- text.
pub flex_int64-decimal_int :
    (f : Floats) (l : FlexLibrary f) (old n : ℤ)
    → fits_int64 n ≡ true
    → l.unquote (b'"' ∷ (decimal_int n ++ b'"' ∷ [])) ≡ ok (decimal_int n)
    → flex_int64 f l old (b'"' ∷ (decimal_int n ++ b'"' ∷ [])) ≡ ok n
unfolding flex_int64 flex_value text_eq
flex_int64-decimal_int f l old n h u = rw (u, decimal_int-ne-nil n) (parse_int64-decimal_int n h)
