-- ===== src/Polymarket/UserWs.antt =====
-- The user feed (polymarket/userws.go): what reaches the handlers of fills and of orders.
use polymarket_go.Prelude.{
  ap, refl, ◌∙◌, text_eq_iff, inr, inl, Result-cases, Bool-cases, ◌⊎◌, ℕ, ◌≡◌, Bool, true, List, [],
  ◌∷◌, ◌++◌, Text, lit, text_eq, Result, ok, err, Option, if◌then◌else◌,
}
use polymarket_go.Clob.Errors.{GoError}
use polymarket_go.Clob.Json.{MakerOrder}
use polymarket_go.Clob.Types.{ApiCreds}
use polymarket_go.Polymarket.Ws.Dispatch.{keeps}

pub record UserSubscribeAuth : Type 0 where
  pub api_key : Text
  pub secret : Text
  pub passphrase : Text

pub record UserSubscribe : Type 0 where
  pub auth : UserSubscribeAuth
  pub markets : List Text
  pub type : Text

pub record OrderEvent : Type 0 where
  pub id : Text
  pub owner : Text
  pub market : Text
  pub token_id : Text
  pub side : Text
  pub order_owner : Text
  pub original_size : Text
  pub size_matched : Text
  pub price : Text
  pub associate_trades : List Text
  pub outcome : Text
  pub type : Text
  pub created_at : Text
  pub expiration : Text
  pub order_type : Text
  pub status : Text
  pub maker_address : Text
  pub timestamp : Text

pub record Fill : Type 0 where
  pub id : Text
  pub taker_order_id : Text
  pub market : Text
  pub asset_id : Text
  pub side : Text
  pub size : Text
  pub price : Text
  pub fee_rate_bps : Text
  pub status : Text
  pub outcome : Text
  pub trader_side : Text
  pub transaction_hash : Text
  pub timestamp : Text
  pub maker_orders : List MakerOrder

-- The callbacks that are installed, and the JSON library.
pub record UserWs : Type 0 where
  pub has_events : Bool
  pub has_on_fill : Bool
  pub has_on_order : Bool
  pub filter : Option (Text → Bool)
  pub decode_event_type : Text → Result GoError Text
  pub decode_fill : Text → Result GoError Fill
  pub decode_order : Text → Result GoError OrderEvent

pub data UserOutput : Type 0 where
  user_logged : ℕ → Text → Text → Text → UserOutput
  on_fill : Fill → UserOutput
  on_order : OrderEvent → UserOutput

abbrev pub fill_status_matched : Text
fill_status_matched = lit "MATCHED"

-- The message that `Run` sends on a new connection.
unfoldable pub user_subscription : ApiCreds → List Text → UserSubscribe
user_subscription creds condition_ids = record {
  auth = record {
    api_key = creds.api_key;
    secret = creds.api_secret;
    passphrase = creds.api_passphrase;
  };
  markets = condition_ids;
  type = lit "user";
}

unfoldable pub deliver_fill : UserWs → Result GoError Fill → List UserOutput
deliver_fill u (err e) = []
deliver_fill u (ok fill) =
    if text_eq fill.status fill_status_matched
    then if u.has_on_fill then on_fill fill ∷ [] else []
    else []

unfoldable pub dispatch_trade : UserWs → Text → List UserOutput
unfolding deliver_fill
dispatch_trade u raw = deliver_fill u (u.decode_fill raw)

unfoldable pub deliver_order : UserWs → Result GoError OrderEvent → List UserOutput
deliver_order u (err e) = []
deliver_order u (ok ev) = if u.has_on_order then on_order ev ∷ [] else []

unfoldable pub dispatch_order : UserWs → Text → List UserOutput
unfolding deliver_order
dispatch_order u raw = deliver_order u (u.decode_order raw)

unfoldable pub dispatch_typed : UserWs → Text → Text → List UserOutput
unfolding dispatch_trade dispatch_order
dispatch_typed u event_type raw =
    if text_eq event_type (lit "trade")
    then dispatch_trade u raw
    else if text_eq event_type (lit "order")
    then dispatch_order u raw
    else []

unfoldable pub log_user : UserWs → ℕ → Text → Text → List UserOutput
log_user u ts event_type raw =
    if u.has_events then user_logged ts (lit "user") event_type raw ∷ [] else []

unfoldable pub dispatch_envelope : UserWs → ℕ → Text → Result GoError Text → List UserOutput
unfolding dispatch_typed log_user
dispatch_envelope u ts raw (err e) = []
dispatch_envelope u ts raw (ok event_type) =
    log_user u ts event_type raw ++ dispatch_typed u event_type raw

unfoldable pub dispatch_raw : UserWs → ℕ → Text → List UserOutput
unfolding dispatch_envelope
dispatch_raw u ts raw =
    if keeps u.filter raw then dispatch_envelope u ts raw (u.decode_event_type raw) else []

-- The fills and the orders that the handlers get.
abbrev pub fills : List UserOutput → List Fill
fills [] = []
fills (user_logged ts stream event raw ∷ os) = fills os
fills (on_fill f ∷ os) = f ∷ fills os
fills (on_order ev ∷ os) = fills os

abbrev pub orders : List UserOutput → List OrderEvent
orders [] = []
orders (user_logged ts stream event raw ∷ os) = orders os
orders (on_fill f ∷ os) = orders os
orders (on_order ev ∷ os) = ev ∷ orders os

-- One matched fill of a trade frame that the filter keeps.
pub record IsFillOf (u : UserWs) (raw : Text) (f : Fill) : Type 0 where
  pub kept : keeps u.filter raw ≡ true
  pub typed : u.decode_event_type raw ≡ ok (lit "trade")
  pub decoded : u.decode_fill raw ≡ ok f
  pub matched : f.status ≡ fill_status_matched
  pub installed : u.has_on_fill ≡ true

abbrev pub NoneOrOne : UserWs → Text → List Fill → Type 0
NoneOrOne u raw fs = (fs ≡ []) ⊎ ((f : Fill) × (fs ≡ f ∷ []) × IsFillOf u raw f)

fills-log_user :
    (u : UserWs) (ts : ℕ) (event_type raw : Text) (os : List UserOutput)
    → fills (log_user u ts event_type raw ++ os) ≡ fills os
unfolding log_user
fills-log_user u ts event_type raw os = elim (Bool-cases u.has_events) [
  | inl t ↦ rw t refl
  | inr f ↦ rw f refl
]

fills-dispatch_order : (u : UserWs) (raw : Text) → fills (dispatch_order u raw) ≡ []
unfolding dispatch_order deliver_order
fills-dispatch_order u raw = elim (Result-cases (u.decode_order raw)) [
  | inr (x, e) ↦ rw e refl
  | inl (ev, e) ↦ elim (Bool-cases u.has_on_order) [
    | inl t ↦ rw (e, t) refl
    | inr f ↦ rw (e, f) refl
  ]
]

dispatch_trade-NoneOrOne :
    (u : UserWs) (raw : Text)
    → keeps u.filter raw ≡ true
    → u.decode_event_type raw ≡ ok (lit "trade")
    → NoneOrOne u raw (fills (dispatch_trade u raw))
unfolding dispatch_trade deliver_fill
dispatch_trade-NoneOrOne u raw kept typed = elim (Result-cases (u.decode_fill raw)) [
  | inr (x, e) ↦ inl (rw e refl)
  | inl (f, e) ↦ elim (Bool-cases (text_eq f.status fill_status_matched)) [
    | inr n ↦ inl (rw (e, n) refl)
    | inl m ↦ elim (Bool-cases u.has_on_fill) [
      | inr n ↦ inl (rw (e, m, n) refl)
      | inl h ↦ inr (
        f,
        rw (e, m, h) refl,
        record {
          kept = kept;
          typed = typed;
          decoded = e;
          matched = (text_eq_iff f.status fill_status_matched).0 m;
          installed = h;
        },
      )
    ]
  ]
]

-- The fill handler gets nothing of a frame, or one fill: then the filter keeps the frame, its event
-- type is trade, and the fill is the one it decodes to, with the status MATCHED.
pub dispatch_raw-NoneOrOne :
    (u : UserWs) (ts : ℕ) (raw : Text) → NoneOrOne u raw (fills (dispatch_raw u ts raw))
unfolding dispatch_raw dispatch_envelope dispatch_typed
dispatch_raw-NoneOrOne u ts raw = elim (Bool-cases (keeps u.filter raw)) [
  | inr n ↦ inl (rw n refl)
  | inl kept ↦ elim (Result-cases (u.decode_event_type raw)) [
    | inr (x, e) ↦ inl (rw (kept, e) refl)
    | inl (t, e) ↦
        rw (kept, e, fills-log_user u ts t raw (dispatch_typed u t raw))
          (elim (Bool-cases (text_eq t (lit "trade"))) [
            | inl y ↦ rw y (
                dispatch_trade-NoneOrOne u raw kept (e ∙ ap ok ((text_eq_iff t (lit "trade")).0 y)))
            | inr n ↦ elim (Bool-cases (text_eq t (lit "order"))) [
              | inl o ↦ inl (rw (n, o) (fills-dispatch_order u raw))
              | inr q ↦ inl (rw (n, q) refl)
            ]
          ])
  ]
]
