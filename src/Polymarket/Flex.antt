-- ===== src/Polymarket/Flex.antt =====
-- polymarket/flex.go: the decoders of the feeds and of the scanner. They have the shape of those of
-- clob/flex.go.
use polymarket_go.Prelude.Words.{ℤ, to_int64}
use polymarket_go.Clob.Errors.{GoError}
use polymarket_go.Clob.Floats.{Floats}
use polymarket_go.Clob.Flex.{is_quoted, is_null, parse_int64, flex_value, FlexLibrary}
use polymarket_go.Prelude.{if◌then◌else◌, ok, Text, Result, ◌>>=◌}

module _ (f : Floats) (l : FlexLibrary f) where
  unfoldable pub flex_float : f.F → Text → Result GoError f.F
  unfolding flex_value
  flex_float = flex_value l.parse_float l.number l.unquote

  unfoldable pub flex_int : ℤ → Text → Result GoError ℤ
  unfolding flex_value parse_int64
  flex_int = flex_value parse_int64 (λ b. l.number b >>= λ n. ok (to_int64 (f.to_word n))) l.unquote

  -- A text is taken as it is, an empty one too.
  unfoldable pub flex_string : Text → Text → Result GoError Text
  flex_string old b =
      if is_null b
      then ok old
      else if is_quoted b
      then l.unquote b
      else l.number b >>= λ n. ok (l.format_float n)
