-- ===== src/Polymarket/MarketWitnesses.antt =====
-- The theorems of the market model, the scanner, the deadman timer and the connection at concrete inputs.
use polymarket_go.Polymarket.Market.FeeLaws.{fee_per_share_direct, in_table, direct_fee}
use polymarket_go.Polymarket.Market.Fees.{
  key_of, fee_per_share, price_of, new_fee_params, fee_per_share_key,
}
use polymarket_go.Polymarket.Scanner.Http.{http_get}
use polymarket_go.Prelude.Words.{pos}
use polymarket_go.Clob.Errors.{failed}
use polymarket_go.Polymarket.Ws.Subscribe.{
  subscribe_messages, batches_from, batch_strings, run_messages, batch_message,
}
use polymarket_go.Clob.Auth.Bytes.{fill_bytes}
use polymarket_go.Prelude.Strings.{to_lower, trim_prefix, parse_hex, hex}
use polymarket_go.Clob.Fixture.{fixed_point, libraries}
use polymarket_go.Polymarket.Ws.ConnectionLaws.{Reachable-InOrder, HasConnWhenConnected, InOrder}
use polymarket_go.Polymarket.Ws.Connection.{
  tokens_sent, conn_set, written, dialled, started, stepped, Reachable, set_conn, send_tokens,
  opening, new_feed, dial, Feed,
}
use polymarket_go.Prelude.{
  if◌then◌else◌, ok, text_eq, replicate, refl, arith, false, ◌≡◌, true, ◌++◌, [], lit, ◌∷◌, Text,
  List,
}
use polymarket_go.Polymarket.Ws.Deadman.{
  ws_deadman_closes, returned, context_done, closed_at, touches, ws_deadman,
}
use polymarket_go.Polymarket.Scanner.IndexLaws.{derive_question_index-IsIndex, IsIndex}
use polymarket_go.Polymarket.Scanner.Index.{
  target_text, market_number, condition_bytes, condition_id, search_index, derive_question_index,
}
use polymarket_go.Polymarket.Scanner.HttpLaws.{http_get-Ending, Ending}

fee_per_share_direct_example :
    (fee_per_share_key fixed_point (new_fee_params fixed_point 720 0) (pos 5000)
      ≡ direct_fee fixed_point 720 0 (price_of fixed_point (pos 5000)))
    × (fee_per_share fixed_point (new_fee_params fixed_point 720 0) 3000 ≡ (
        if in_table fixed_point (key_of fixed_point 3000)
        then direct_fee fixed_point 720 0 (price_of fixed_point (key_of fixed_point 3000))
        else direct_fee fixed_point 720 0 3000))
fee_per_share_direct_example = fee_per_share_direct fixed_point 720 0 (pos 5000) 3000

http_get-Ending_example :
    Ending libraries
      (lit "https://host")
      3
      1
      (failed [])
      0
      (http_get libraries (lit "https://host") 0)
http_get-Ending_example = http_get-Ending libraries (lit "https://host") 0

-- Every question has the same condition, so the first index is found.
abbrev target : Text
target = hex (replicate 32 1)

found : derive_question_index libraries (λ t. pos 0) (lit "0x05") target ≡ ok (pos 0)
unfolding derive_question_index search_index condition_id condition_bytes market_number target_text
    fill_bytes hex parse_hex trim_prefix to_lower text_eq
found = refl

derive_question_index-IsIndex_example :
    IsIndex libraries
      (market_number libraries (λ t. pos 0) (lit "0x05"))
      (target_text libraries target)
      0
      256
      (pos 0)
derive_question_index-IsIndex_example =
    derive_question_index-IsIndex libraries (λ t. pos 0) (lit "0x05") target (pos 0) found

ws_deadman_closes_example :
    (ws_deadman 30 (touches (1000 ∷ 2000 ∷ []) ++ []) ≡ closed_at 30000003000)
    × (ws_deadman 30 (
          touches (1000 ∷ 2000 ∷ [])
          ++ record { gap = 5; kind = context_done; before_timer = false } ∷ [])
        ≡ returned)
ws_deadman_closes_example =
    ws_deadman_closes 30 (1000 ∷ 2000 ∷ []) [] []
      (record { gap = 5; kind = context_done; before_timer = false }) (omega arith)
      (omega arith, (omega arith, tt)) tt (omega arith) refl

abbrev ids : List Text
ids = lit "a" ∷ []

-- A feed that is dialled, subscribed and set, and to which another token is added before it is
-- said to be connected.
abbrev dialled_feed : Feed
dialled_feed = dial ids new_feed

abbrev written_feed : Feed
written_feed = record dialled_feed {
  phase = opening [];
  sent = dialled_feed.sent ++ batch_message [] ids ∷ [];
}

abbrev added_feed : Feed
added_feed = send_tokens (lit "subscribe") (lit "b" ∷ []) true (set_conn written_feed)

added : Reachable ids added_feed
unfolding dial new_feed run_messages batch_strings batches_from subscribe_messages
added =
    stepped _ _
      (stepped _ _
        (stepped _ _ (stepped _ _ started (dialled new_feed refl))
          (written dialled_feed (batch_message [] ids) [] refl))
        (conn_set written_feed refl))
      (tokens_sent (set_conn written_feed) (lit "subscribe") (lit "b" ∷ []) true)

Reachable-InOrder_example :
    InOrder (run_messages ids) added_feed.has_conn added_feed.sent
    × HasConnWhenConnected added_feed.phase added_feed.has_conn added_feed.connected
Reachable-InOrder_example = Reachable-InOrder ids added_feed added
