-- ===== src/Polymarket/Scanner/Index.antt =====
-- `DeriveQuestionIndex` of polymarket/scanner.go.
use polymarket_go.Prelude.Words.{ℤ, pos, negsuc}
use polymarket_go.Prelude.Strings.{trim_prefix, to_lower, parse_hex, hex}
use polymarket_go.Clob.Auth.Bytes.{fill_bytes}
use polymarket_go.Clob.Errors.{GoError}
use polymarket_go.Clob.Deps.{Deps}
use polymarket_go.Prelude.{
  if◌then◌else◌, ◌-◌, ◌+◌, ◌++◌, ℕ, zero, text_eq, suc, some, ok, none, ltb, lit, Text, Result,
  ◌>>=◌,
}

module _ {W : Type 0} (d : Deps W) where
  -- The bytes hashed for a question: the oracle, its id and the number of outcomes, two.
  unfoldable pub condition_bytes : ℤ → Result GoError Text
  condition_bytes question = do
    q ← fill_bytes 32 question
    slots ← fill_bytes 32 (pos 2)
    ok (d.from_hex (lit "d91E80cF2E7be2e162c6513ceD06f1dD0dA35296") ++ (q ++ slots))

  abbrev pub add_index : ℤ → ℕ → ℤ
  add_index (pos n) i = pos (n + i)
  add_index (negsuc n) i = if ltb n i then pos (i - suc n) else negsuc (n - i)

  -- The condition of question number i, in hexadecimal.
  unfoldable pub condition_id : ℤ → ℕ → Result GoError Text
  unfolding condition_bytes
  condition_id market_id i =
      condition_bytes (add_index market_id i) >>= λ bytes. ok (hex (d.keccak256 bytes))

  -- The loop, with the questions left; negsuc 0 is -1.
  unfoldable pub search_index : ℤ → Text → ℕ → ℕ → Result GoError ℤ
  unfolding condition_id
  search_index market_id target zero i = ok (negsuc 0)
  search_index market_id target (suc left) i =
      let rest = search_index market_id target left (suc i) in
      condition_id market_id i >>= λ id. if text_eq id target then ok (pos i) else rest

  -- `undefined` is what `SetString` leaves of a text that is no number; math/big does not say.
  unfoldable pub market_number : (Text → ℤ) → Text → ℤ
  market_number undefined market_id = elim (parse_hex (trim_prefix market_id (lit "0x"))) [
    | none ↦ undefined market_id
    | some n ↦ n
  ]

  unfoldable pub target_text : Text → Text
  target_text target_condition_id = trim_prefix (to_lower target_condition_id) (lit "0x")

  unfoldable pub derive_question_index : (Text → ℤ) → Text → Text → Result GoError ℤ
  unfolding search_index market_number target_text
  derive_question_index undefined market_id target_condition_id =
      search_index (market_number undefined market_id) (target_text target_condition_id) 256 0
