-- ===== src/Polymarket/UserSetup.antt =====
-- The construction of `UserWS`, its setters and its connection flag (polymarket/userws.go). A handler that
-- is not installed is none.
use polymarket_go.Clob.Errors.{GoError}
use polymarket_go.Prelude.{true, ok, err, Result, none, Bool, Text, List, Option, false}
use polymarket_go.Polymarket.UserWs.{UserSubscribe, user_subscription}
use polymarket_go.Clob.Types.{ApiCreds}

-- `UserWS`, with the handlers of fills, of orders and of the connection's state.
pub record UserSettings (L F O H : Type 0) : Type 0 where
  pub creds : ApiCreds
  pub condition_ids : List Text
  pub events : Option L
  pub on_fill : Option F
  pub on_order : Option O
  pub on_reconnect : Option H
  pub on_connect : Option H
  pub on_disconnect : Option H
  pub filter : Option (Text → Bool)
  pub connected : Bool

module _ {L F O H : Type 0} where
  unfoldable pub new_user_ws : ApiCreds → List Text → Option F → UserSettings L F O H
  new_user_ws creds condition_ids on_fill = record {
    creds = creds;
    condition_ids = condition_ids;
    events = none;
    on_fill = on_fill;
    on_order = none;
    on_reconnect = none;
    on_connect = none;
    on_disconnect = none;
    filter = none;
    connected = false;
  }

  -- `onConnect` of `Run`, with what `WriteJSON` comes to, and the first step of `onDown`.
  unfoldable pub user_connected :
      {W : Type 0}
      → (UserSubscribe → W → Result GoError (Unit {0}) × W)
      → UserSettings L F O H
      → W
      → Result GoError (Unit {0}) × UserSettings L F O H × W
  unfolding user_subscription
  user_connected write u w =
      let (r, v) = write (user_subscription u.creds u.condition_ids) w in
      elim r [ err e ↦ (err e, u, v) | ok sent ↦ (ok sent, record u { connected = true }, v) ]

  unfoldable pub user_disconnected : UserSettings L F O H → UserSettings L F O H
  user_disconnected u = record u { connected = false }

  -- The setters.
  unfoldable pub set_on_order : Option O → UserSettings L F O H → UserSettings L F O H
  set_on_order fn u = record u { on_order = fn }

  unfoldable pub set_on_fill : Option F → UserSettings L F O H → UserSettings L F O H
  set_on_fill fn u = record u { on_fill = fn }

  unfoldable pub set_on_reconnect : Option H → UserSettings L F O H → UserSettings L F O H
  set_on_reconnect fn u = record u { on_reconnect = fn }

  unfoldable pub set_event_log : Option L → UserSettings L F O H → UserSettings L F O H
  set_event_log el u = record u { events = el }

  unfoldable pub set_filter : Option (Text → Bool) → UserSettings L F O H → UserSettings L F O H
  set_filter fn u = record u { filter = fn }

  unfoldable pub set_on_connect : Option H → UserSettings L F O H → UserSettings L F O H
  set_on_connect fn u = record u { on_connect = fn }

  unfoldable pub set_on_disconnect : Option H → UserSettings L F O H → UserSettings L F O H
  set_on_disconnect fn u = record u { on_disconnect = fn }
