-- ===== src/Polymarket/Ws/Connection.antt =====
-- The connection of `MarketWS` (polymarket/ws.go) as a step relation. The loop of `Run` opens a connection,
-- registers it and takes it down, and between any two of its writes to the shared fields another goroutine
-- may subscribe or unsubscribe tokens.
use polymarket_go.Polymarket.Ws.Subscribe.{MarketSubscribe, token_message, run_messages}
use polymarket_go.Prelude.{◌∷◌, ◌++◌, ◌≡◌, if◌then◌else◌, Text, [], true, false, Bool, List}

-- Where the loop of `Run` stands: without a session; in `onConnect`, with the messages it has yet
-- to write; after it set `ws.conn`; reading frames; before `onDown`; and after `onDown` cleared `ws.conn`.
pub data Phase : Type 0 where
  away registered reading ending cleared : Phase
  opening : List MarketSubscribe → Phase

-- `ws.conn`, of which there is one at a time, `ws.connected`, and the messages that were written on
-- the connection that was opened last.
pub record Feed : Type 0 where
  pub phase : Phase
  pub has_conn : Bool
  pub connected : Bool
  pub sent : List MarketSubscribe

unfoldable pub new_feed : Feed
new_feed = record { phase = away; has_conn = false; connected = false; sent = [] }

unfoldable pub dial : List Text → Feed → Feed
unfolding run_messages
dial token_ids s = record s { phase = opening (run_messages token_ids); sent = [] }

-- `ws.conn = conn`, then `ws.connected.Store(true)`.
abbrev pub set_conn : Feed → Feed
set_conn s = record s { phase = registered; has_conn = true }

abbrev pub store_connected : Feed → Feed
store_connected s = record s { phase = reading; connected = true }

-- The first two steps of `onDown`.
abbrev pub clear_conn : Feed → Feed
clear_conn s = record s { phase = cleared; has_conn = false }

abbrev pub clear_connected : Feed → Feed
clear_connected s = record s { phase = away; connected = false }

-- `SubscribeTokens` and `UnsubscribeTokens`, by the operation, on a connection that takes the
-- message or fails, which they do not report.
unfoldable pub send_tokens : Text → List Text → Bool → Feed → Feed
unfolding token_message
send_tokens operation ids taken s =
    let messages = token_message s.has_conn operation ids in
    if taken then record s { sent = s.sent ++ messages } else s

-- One step of the feed for the tokens it was made with.
pub data Step (token_ids : List Text) : Feed → Feed → Type 0 where
  dial_failed : (s : Feed) → s.phase ≡ away → Step token_ids s (record s { phase = ending })
  dialled : (s : Feed) → s.phase ≡ away → Step token_ids s (dial token_ids s)
  written :
      (s : Feed) (m : MarketSubscribe) (ms : List MarketSubscribe)
      → s.phase ≡ opening (m ∷ ms)
      → Step token_ids s (record s { phase = opening ms; sent = s.sent ++ m ∷ [] })
  write_failed :
      (s : Feed) (m : MarketSubscribe) (ms : List MarketSubscribe)
      → s.phase ≡ opening (m ∷ ms)
      → Step token_ids s (record s { phase = ending })
  conn_set : (s : Feed) → s.phase ≡ opening [] → Step token_ids s (set_conn s)
  now_connected : (s : Feed) → s.phase ≡ registered → Step token_ids s (store_connected s)
  session_ended : (s : Feed) → s.phase ≡ reading → Step token_ids s (record s { phase = ending })
  conn_cleared : (s : Feed) → s.phase ≡ ending → Step token_ids s (clear_conn s)
  not_connected : (s : Feed) → s.phase ≡ cleared → Step token_ids s (clear_connected s)
  tokens_sent :
      (s : Feed) (operation : Text) (ids : List Text) (taken : Bool)
      → Step token_ids s (send_tokens operation ids taken s)

pub data Reachable (token_ids : List Text) : Feed → Type 0 where
  started : Reachable token_ids new_feed
  stepped : (s t : Feed) → Reachable token_ids s → Step token_ids s t → Reachable token_ids t
