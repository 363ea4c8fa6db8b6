-- ===== src/Clob/Flex.antt =====
-- clob/flex.go: JSON values that arrive as a number or as a text. A decoder is given the value so far,
-- which it keeps for null and for nothing.
use polymarket_go.Prelude.Strings.{parse_int}
use polymarket_go.Prelude.Words.{ℤ, to_int64, pos, negsuc}
use polymarket_go.Clob.Errors.{failed, GoError}
use polymarket_go.Clob.Floats.{Floats}
use polymarket_go.Prelude.{
  Option, if◌then◌else◌, ◌∷◌, ◌||◌, ◌==◌, text_eq, some, ok, none, ltb, lit, is_empty, false, err,
  [], Text, Result, Bool,
}
pub mod Laws
use polymarket_go.Prelude.{◌>>=◌}

-- `json.Unmarshal` into a string and into a float64, and strconv.
pub record FlexLibrary (f : Floats) : Type 0 where
  pub unquote : Text → Result GoError Text
  pub number : Text → Result GoError f.F
  pub parse_float : Text → Result GoError f.F
  pub format_float : f.F → Text

abbrev pub is_null : Text → Bool
is_null b = is_empty b || text_eq b (lit "null")

abbrev pub is_quoted : Text → Bool
is_quoted [] = false
is_quoted (c ∷ b) = c == b'"'

-- The range of int64.
abbrev pub fits_int64 : ℤ → Bool
fits_int64 (pos n) = ltb n 9223372036854775808
fits_int64 (negsuc n) = ltb n 9223372036854775808

-- `strconv.ParseInt(s, 10, 64)` and, on 64 bits, `strconv.Atoi`.
abbrev pub in_int64 : Option ℤ → Result GoError ℤ
in_int64 none = err (failed (lit "strconv: invalid syntax"))
in_int64 (some n) = if fits_int64 n then ok n else err (failed (lit "strconv: value out of range"))

unfoldable pub parse_int64 : Text → Result GoError ℤ
parse_int64 s = in_int64 (parse_int s)

-- The common shape: what a text gives, unless it is empty, and what a number gives.
module _ {A : Type 0} (of_text of_number : Text → Result GoError A) where
  abbrev pub text_value : A → Result GoError Text → Result GoError A
  text_value old (err e) = err e
  text_value old (ok s) = if is_empty s then ok old else of_text s

  unfoldable pub flex_value : (Text → Result GoError Text) → A → Text → Result GoError A
  flex_value unquote old b =
      if is_null b then ok old else if is_quoted b then text_value old (unquote b) else of_number b

module _ (f : Floats) (l : FlexLibrary f) where
  unfoldable pub flex_int64 : ℤ → Text → Result GoError ℤ
  unfolding flex_value parse_int64
  flex_int64 =
      flex_value parse_int64 (λ b. l.number b >>= λ n. ok (to_int64 (f.to_word n))) l.unquote

  unfoldable pub flex_float64 : f.F → Text → Result GoError f.F
  unfolding flex_value
  flex_float64 = flex_value l.parse_float l.number l.unquote

  -- A text is taken as it is, an empty one too.
  unfoldable pub flex_string : Text → Text → Result GoError Text
  flex_string old b =
      if is_null b
      then ok old
      else if is_quoted b
      then l.unquote b
      else l.number b >>= λ n. ok (l.format_float n)
