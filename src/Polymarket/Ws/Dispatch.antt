-- ===== src/Polymarket/Ws/Dispatch.antt =====
-- `dispatch` and `dispatchOne` of `MarketWS` (polymarket/ws.go). What the callbacks are called with is
-- the result, in order.
use polymarket_go.Prelude.{
  ℕ, Bool, true, List, [], ◌∷◌, ◌++◌, Text, lit, Result, ok, err, Option, none, some, if◌then◌else◌,
  ◌==◌, ◌||◌,
}
use polymarket_go.Clob.Errors.{GoError}
use polymarket_go.Polymarket.Ws.Events.{MarketWsEvent, WsItem, market_ws_event_from_item}

-- `LogWSEvent` of the event log, and the handler of market events.
pub data Output : Type 0 where
  logged : ℕ → Text → Text → Text → Output
  delivered : MarketWsEvent → Output

-- The callbacks that are installed, and the JSON library.
pub record MarketWs : Type 0 where
  pub has_events : Bool
  pub has_on_market_event : Bool
  pub filter : Option (Text → Bool)
  pub decode_items : Text → Result GoError (List Text)
  pub decode_item : Text → Result GoError WsItem

abbrev pub is_space : ℕ → Bool
is_space c = c == b' ' || c == 9 || c == 10 || c == 13

unfoldable pub first_non_space : Text → ℕ
first_non_space [] = 0
first_non_space (c ∷ s) = if is_space c then first_non_space s else c

-- A filter that is not installed keeps every frame.
abbrev pub keeps : Option (Text → Bool) → Text → Bool
keeps none raw = true
keeps (some f) raw = f raw

unfoldable pub log_item : MarketWs → ℕ → WsItem → Text → List Output
log_item ws ts it raw =
    if ws.has_events then logged ts (lit "market") it.event_type raw ∷ [] else []

unfoldable pub deliver_item : MarketWs → WsItem → Text → List Output
unfolding market_ws_event_from_item
deliver_item ws it raw =
    if ws.has_on_market_event then delivered (market_ws_event_from_item it raw) ∷ [] else []

unfoldable pub emit_item : MarketWs → ℕ → Text → Result GoError WsItem → List Output
unfolding log_item deliver_item
emit_item ws ts raw (err e) = []
emit_item ws ts raw (ok it) = log_item ws ts it raw ++ deliver_item ws it raw

unfoldable pub dispatch_one : MarketWs → ℕ → Text → List Output
unfolding emit_item
dispatch_one ws ts raw = emit_item ws ts raw (ws.decode_item raw)

unfoldable pub dispatch_all : MarketWs → ℕ → List Text → List Output
unfolding dispatch_one
dispatch_all ws ts [] = []
dispatch_all ws ts (item ∷ items) = dispatch_one ws ts item ++ dispatch_all ws ts items

unfoldable pub dispatch_array : MarketWs → ℕ → Result GoError (List Text) → List Output
unfolding dispatch_all
dispatch_array ws ts (err e) = []
dispatch_array ws ts (ok items) = dispatch_all ws ts items

unfoldable pub dispatch : MarketWs → ℕ → Text → List Output
unfolding first_non_space dispatch_one dispatch_array
dispatch ws ts raw =
    if keeps ws.filter raw
    then if first_non_space raw == b'['
      then dispatch_array ws ts (ws.decode_items raw)
      else dispatch_one ws ts raw
    else []
