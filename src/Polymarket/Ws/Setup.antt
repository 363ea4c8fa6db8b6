-- ===== src/Polymarket/Ws/Setup.antt =====
-- The construction of `MarketWS`, its options and its setters (polymarket/ws.go). A handler that is not
-- installed is none.
use polymarket_go.Prelude.Words.{pos, ℤ}
use polymarket_go.Prelude.{[], none, Bool, ◌∷◌, Text, Option, List}

-- The fields that stay as they were set; H are the handlers of the connection's state.
pub record MarketSettings (L E H : Type 0) : Type 0 where
  pub token_ids : List Text
  pub events : Option L
  pub on_market_event : Option E
  pub on_connect : Option H
  pub on_disconnect : Option H
  pub filter : Option (Text → Bool)
  pub deadman_sec : ℤ

-- `WSOption`, by its constructors.
pub data WsOption (L E H : Type 0) : Type 0 where
  with_deadman : ℤ → WsOption L E H
  with_on_market_event : Option E → WsOption L E H
  with_on_connect with_on_disconnect : Option H → WsOption L E H
  with_event_log : Option L → WsOption L E H

module _ {L E H : Type 0} where
  unfoldable pub apply_ws_option : WsOption L E H → MarketSettings L E H → MarketSettings L E H
  apply_ws_option (with_deadman sec) ws = record ws { deadman_sec = sec }
  apply_ws_option (with_on_market_event fn) ws = record ws { on_market_event = fn }
  apply_ws_option (with_on_connect fn) ws = record ws { on_connect = fn }
  apply_ws_option (with_on_disconnect fn) ws = record ws { on_disconnect = fn }
  apply_ws_option (with_event_log el) ws = record ws { events = el }

  unfoldable pub apply_ws_options :
      List (WsOption L E H) → MarketSettings L E H → MarketSettings L E H
  unfolding apply_ws_option
  apply_ws_options [] ws = ws
  apply_ws_options (opt ∷ opts) ws = apply_ws_options opts (apply_ws_option opt ws)

  unfoldable pub new_market_ws : List Text → List (WsOption L E H) → MarketSettings L E H
  unfolding apply_ws_options
  new_market_ws token_ids opts = apply_ws_options opts (record {
    token_ids = token_ids;
    events = none;
    on_market_event = none;
    on_connect = none;
    on_disconnect = none;
    filter = none;
    deadman_sec = pos 30;
  })

  -- The setters.
  unfoldable pub set_event_log : Option L → MarketSettings L E H → MarketSettings L E H
  set_event_log el ws = record ws { events = el }

  unfoldable pub set_on_market_event : Option E → MarketSettings L E H → MarketSettings L E H
  set_on_market_event fn ws = record ws { on_market_event = fn }

  unfoldable pub set_filter : Option (Text → Bool) → MarketSettings L E H → MarketSettings L E H
  set_filter fn ws = record ws { filter = fn }

  unfoldable pub set_on_connect : Option H → MarketSettings L E H → MarketSettings L E H
  set_on_connect fn ws = record ws { on_connect = fn }

  unfoldable pub set_on_disconnect : Option H → MarketSettings L E H → MarketSettings L E H
  set_on_disconnect fn ws = record ws { on_disconnect = fn }
