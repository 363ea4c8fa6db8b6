-- ===== src/Clob/AccountWitnesses.antt =====
-- The theorems of the account calls, of the prefetch of fee rates and of the flexible decoders at concrete
-- inputs.
use polymarket_go.Clob.Http.{send_signed}
use polymarket_go.Clob.Account.HeartbeatLaws.{names_id}
use polymarket_go.Clob.Market.FeeRateLaws.{prefetch_fee_rates-Perm}
use polymarket_go.Clob.Market.FeeRates.{prefetch_fee_rates}
use polymarket_go.Clob.Market.{get_fee_rate}
use mathlib.Core.List.{Perm, Permᴰ, filter_map}
use mathlib.Core.Option.{Option-elim}
use polymarket_go.Prelude.Digits.{Lacks}
use polymarket_go.Clob.Account.HeartbeatLaws.{post_heartbeat_failed}
use polymarket_go.Clob.Auth.{build_hmac_signature}
use polymarket_go.Clob.Account.Queries.{heartbeat_body, post_heartbeat}
use polymarket_go.Clob.Http.{
  sign_path, check_status, read_response, exchange, l2_headers, do_request,
}
use polymarket_go.Clob.Json.{Json}
use polymarket_go.Clob.Deps.{Deps}
use polymarket_go.Clob.Errors.{failed, message, GoError}
use polymarket_go.Clob.Flex.Laws.{flex_int64-decimal_int}
use polymarket_go.Prelude.Words.{pos, negsuc}
use polymarket_go.Clob.Account.InventoryLaws.{get_inventory-PositionPages, PositionPages}
use polymarket_go.Prelude.{
  length, arith, ◌&&◌, not, true, Bool, text_eq, err, suc, false, List, lit, Result, refl, ◌++◌,
  ◌≤◌, ℕ, ◌↔◌, some, ◌≡◌, ◌==◌, [], ok, if◌then◌else◌, ◌∷◌,
}
use polymarket_go.Clob.Fixture.{shapes, trader, fixed_point, libraries}
use polymarket_go.Prelude.Strings.{decimal, Text, decimal_int}
use polymarket_go.Clob.Flex.{flex_int64, FlexLibrary}
use polymarket_go.Clob.Account.Inventory.{get_inventory}

abbrev one_position : Text → Result GoError (List ℕ)
one_position t = ok (7 ∷ [])

get_inventory-PositionPages_example :
    (get_inventory libraries trader one_position 3 0 ≡ some (ok (7 ∷ []), 1))
    ↔ ((n : ℕ) × (n ≤ 3) × PositionPages libraries trader one_position n 0 0 (7 ∷ []) 1)
get_inventory-PositionPages_example =
    get_inventory-PositionPages libraries trader one_position 3 0 1 (7 ∷ [])

-- Every byte but the quotes.
abbrev strip : Text → Text
strip [] = []
strip (c ∷ s) = let rest = strip s in if c == b'"' then rest else c ∷ rest

abbrev decoders : FlexLibrary fixed_point
decoders = record {
  unquote = λ t. ok (strip t);
  number = λ t. ok 0;
  parse_float = λ t. ok 0;
  format_float = λ n. [];
}

unquoted :
    decoders.unquote (b'"' ∷ (decimal_int (negsuc 41) ++ b'"' ∷ [])) ≡ ok (decimal_int (negsuc 41))
unfolding decimal_int decimal
unquoted = refl

flex_int64-decimal_int_example :
    flex_int64 fixed_point decoders (pos 9) (b'"' ∷ (decimal_int (negsuc 41) ++ b'"' ∷ []))
    ≡ ok (negsuc 41)
flex_int64-decimal_int_example =
    flex_int64-decimal_int fixed_point decoders (pos 9) (negsuc 41) refl unquoted

abbrev lacks : ℕ → Text → Bool
lacks c [] = true
lacks c (x ∷ t) = not (x == c) && lacks c t

lacks-Lacks : (c : ℕ) (t : Text) → lacks c t ≡ true → Lacks c t
lacks-Lacks c [] h = tt
lacks-Lacks c (x ∷ t) h = (ground arith, lacks-Lacks c t (ground arith))

-- A server that refuses a heartbeat and names its id.
abbrev refusing : Deps ℕ
refusing = record libraries {
  http_do = λ r w. (ok (record { status = 400; body = ok (lit "{id}"); gzipped = false }), suc w);
}

abbrev reads_id : Json
reads_id = record shapes { decode_heartbeat = λ t. ok (lit "id") }

abbrev refusal : Text
refusal = lit "CLOB POST /v1/heartbeats returned 400: "

refused :
    do_request refusing trader
      (lit "POST")
      (lit "/v1/heartbeats")
      (heartbeat_body refusing reads_id trader [])
      0
    ≡ (err (failed (refusal ++ lit "{id}")), 2)
unfolding do_request send_signed l2_headers build_hmac_signature exchange read_response check_status
    sign_path text_eq decimal
refused = refl

brace_id : message (failed (refusal ++ lit "{id}")) ≡ refusal ++ b'{' ∷ (lit "id" ++ b'}' ∷ [])
unfolding message
brace_id = refl

post_heartbeat_failed_example : post_heartbeat refusing reads_id trader [] 0 ≡ (ok (lit "id"), 2)
post_heartbeat_failed_example =
    post_heartbeat_failed refusing reads_id trader [] 0 2 (failed (refusal ++ lit "{id}")) refusal
      (lit "id") [] (some (lit "id")) refused brace_id (lacks-Lacks b'{' refusal refl) tt
      (names_id refl (λ e. ground arith))

-- Every token has the rate 0, whatever was asked before.
steady_rates :
    (token : Text) (w : ℕ) → (get_fee_rate libraries shapes trader token w).0 ≡ ok (pos 0)
unfolding get_fee_rate do_request send_signed l2_headers build_hmac_signature exchange read_response
    check_status sign_path text_eq decimal
steady_rates token w = refl

prefetch_fee_rates-Perm_example :
    Perm
      (prefetch_fee_rates libraries shapes trader (lit "a" ∷ lit "b" ∷ []) 0).stored
      (prefetch_fee_rates libraries shapes trader (lit "b" ∷ lit "a" ∷ []) 0).stored
    × ((prefetch_fee_rates libraries shapes trader (lit "a" ∷ lit "b" ∷ []) 0).stored
        ≡ (lit "a", pos 0) ∷ (lit "b", pos 0) ∷ [])
    × ((prefetch_fee_rates libraries shapes trader (lit "a" ∷ lit "b" ∷ []) 0).fetched_count
        ≡ length (prefetch_fee_rates libraries shapes trader (lit "a" ∷ lit "b" ∷ []) 0).stored)
unfolding filter_map Option-elim
prefetch_fee_rates-Perm_example =
    prefetch_fee_rates-Perm libraries shapes trader (λ t. ok (pos 0)) steady_rates
      (lit "a" ∷ lit "b" ∷ []) (lit "b" ∷ lit "a" ∷ []) 0 0 ∣ Permᴰ.swap refl refl ∣₁
