-- ===== src/Polymarket/Witnesses.antt =====
-- The theorems of the package polymarket at concrete inputs.
use polymarket_go.Clob.Errors.{failed}
use polymarket_go.Polymarket.Ws.DispatchLaws.{
  frame_items, delivered_raws-dispatch, delivered_raws, decodable,
}
use polymarket_go.Polymarket.Ws.Events.{market_ws_event_from_item, WsItem}
use polymarket_go.Polymarket.Ws.Loop.{
  ws_loop, stop_in_wait, start, dropped, dial_failed, again, Session, Next,
}
use polymarket_go.Polymarket.Ws.Dispatch.{dispatch, MarketWs}
use polymarket_go.Polymarket.Ws.Subscribe.{run_messages_cover, run_messages, ids_of, IsMessage}
use polymarket_go.Polymarket.Ws.EventLaws.{market_ws_event_from_item-IsEventOf, IsEventOf}
use polymarket_go.Polymarket.Ws.LoopLaws.{
  ws_loop_doubles, ws_loop-IsOrderly, waits, failures, doubling, IsOrderly, IsBackoff,
}
use polymarket_go.Polymarket.UserWs.{
  fills, dispatch_raw-NoneOrOne, dispatch_raw, UserWs, NoneOrOne, Fill,
}
use polymarket_go.Prelude.{
  if◌then◌else◌, lit, ◌≡◌, ◌∷◌, ◌==◌, true, refl, ok, none, false, err, arith, [], List, All,
}

abbrev last_trade : WsItem
last_trade = record {
  event_type = lit "last_trade_price";
  asset_id = lit "a";
  bids = [];
  asks = [];
  price_changes = [];
  best_bid = [];
  best_ask = [];
  side = lit "BUY";
  price = lit "0.5";
  size = lit "3";
  transaction_hash = [];
  tick_size = [];
  minimum_tick_size = [];
  new_tick_size = [];
  old_tick_size = [];
  market = [];
  condition_id = [];
  condition_id_alt = [];
  slug = [];
  group_item_title = [];
  line = [];
  order_price_min_tick_size = [];
  assets_ids = [];
  asset_ids = [];
  clob_token_ids = [];
  winning_asset_id = [];
  winning_outcome = [];
}

-- Frames are one array of two items, of which the second does not decode.
abbrev feed : MarketWs
feed = record {
  has_events = true;
  has_on_market_event = true;
  filter = none;
  decode_items = λ t. ok (lit "{1}" ∷ lit "2" ∷ []);
  decode_item = λ t. elim t [
    | [] ↦ err (failed [])
    | c ∷ s ↦ if c == b'{' then ok last_trade else err (failed [])
  ];
}

delivered_raws-dispatch_example :
    delivered_raws (dispatch feed 7 (lit " [x]")) ≡ decodable feed (frame_items feed (lit " [x]"))
delivered_raws-dispatch_example = delivered_raws-dispatch feed 7 (lit " [x]") refl

market_ws_event_from_item-IsEventOf_example :
    IsEventOf last_trade (lit "{1}") (market_ws_event_from_item last_trade (lit "{1}"))
market_ws_event_from_item-IsEventOf_example =
    market_ws_event_from_item-IsEventOf last_trade (lit "{1}")

run_messages_cover_example :
    (ids_of (run_messages (lit "a" ∷ lit "b" ∷ [])) ≡ lit "a" ∷ lit "b" ∷ [])
    × All IsMessage (run_messages (lit "a" ∷ lit "b" ∷ []))
run_messages_cover_example = run_messages_cover (lit "a" ∷ lit "b" ∷ [])

abbrev rounds : List (Session × Next)
rounds = (dial_failed, again) ∷ (dropped (lit "PONG" ∷ lit "x" ∷ []), stop_in_wait) ∷ []

start-IsBackoff : IsBackoff start
unfolding start
start-IsBackoff = (omega arith, omega arith)

ws_loop-IsOrderly_example : IsOrderly false (ws_loop rounds start)
ws_loop-IsOrderly_example = ws_loop-IsOrderly rounds start start-IsBackoff

ws_loop_doubles_example : waits (ws_loop (failures 3) start) ≡ doubling 0 3
ws_loop_doubles_example = ws_loop_doubles 3

abbrev matched_fill : Fill
matched_fill = record {
  id = lit "f";
  taker_order_id = [];
  market = [];
  asset_id = [];
  side = lit "BUY";
  size = lit "1";
  price = lit "0.4";
  fee_rate_bps = [];
  status = lit "MATCHED";
  outcome = [];
  trader_side = [];
  transaction_hash = [];
  timestamp = [];
  maker_orders = [];
}

abbrev user_feed : UserWs
user_feed = record {
  has_events = true;
  has_on_fill = true;
  has_on_order = false;
  filter = none;
  decode_event_type = λ t. ok (lit "trade");
  decode_fill = λ t. ok matched_fill;
  decode_order = λ t. err (failed []);
}

dispatch_raw-NoneOrOne_example :
    NoneOrOne user_feed (lit "x") (fills (dispatch_raw user_feed 7 (lit "x")))
dispatch_raw-NoneOrOne_example = dispatch_raw-NoneOrOne user_feed 7 (lit "x")
