-- ===== src/Polymarket/Ws/DispatchLaws.antt =====
-- Which items of a frame are delivered (polymarket/ws.go).
use polymarket_go.Prelude.{
  append-nil, ℕ, ◌≡◌, refl, sym, ◌∙◌, true, List, [], ◌∷◌, ◌++◌, Text, Result, ok, err,
  if◌then◌else◌, ◌==◌, Bool-cases, inl, inr, ap, Result-cases,
}
use polymarket_go.Clob.Errors.{GoError}
use polymarket_go.Polymarket.Ws.Events.{WsItem}
use polymarket_go.Polymarket.Ws.EventLaws.{market_ws_event_from_item-raw}
use polymarket_go.Polymarket.Ws.Dispatch.{
  emit_item, Output, logged, delivered, MarketWs, first_non_space, keeps, log_item, deliver_item,
  dispatch_one, dispatch_all, dispatch_array, dispatch,
}

-- The bytes of the events that the handler gets.
abbrev pub delivered_raws : List Output → List Text
delivered_raws [] = []
delivered_raws (logged ts stream event raw ∷ os) = delivered_raws os
delivered_raws (delivered ev ∷ os) = ev.raw ∷ delivered_raws os

-- The items of a frame, whether they decode or not.
abbrev pub items_of : Result GoError (List Text) → List Text
items_of (err e) = []
items_of (ok items) = items

abbrev pub frame_items : MarketWs → Text → List Text
frame_items ws raw =
    if keeps ws.filter raw
    then if first_non_space raw == b'[' then items_of (ws.decode_items raw) else raw ∷ []
    else []

abbrev pub keep_ok : Result GoError WsItem → Text → List Text
keep_ok (err e) raw = []
keep_ok (ok it) raw = raw ∷ []

abbrev pub decodable : MarketWs → List Text → List Text
decodable ws [] = []
decodable ws (raw ∷ raws) = keep_ok (ws.decode_item raw) raw ++ decodable ws raws

delivered_raws-append :
    (os ps : List Output) → delivered_raws (os ++ ps) ≡ delivered_raws os ++ delivered_raws ps
delivered_raws-append [] ps = refl
delivered_raws-append (logged ts stream event raw ∷ os) ps = delivered_raws-append os ps
delivered_raws-append (delivered ev ∷ os) ps = ap (λ l. ev.raw ∷ l) (delivered_raws-append os ps)

delivered_raws-log_item :
    (ws : MarketWs) (ts : ℕ) (it : WsItem) (raw : Text)
    → delivered_raws (log_item ws ts it raw) ≡ []
unfolding log_item
delivered_raws-log_item ws ts it raw = elim (Bool-cases ws.has_events) [
  | inl t ↦ rw t refl
  | inr f ↦ rw f refl
]

delivered_raws-deliver_item :
    (ws : MarketWs) (it : WsItem) (raw : Text)
    → ws.has_on_market_event ≡ true
    → delivered_raws (deliver_item ws it raw) ≡ raw ∷ []
unfolding deliver_item
delivered_raws-deliver_item ws it raw h =
    rw h (ap (λ r. r ∷ []) (market_ws_event_from_item-raw it raw))

delivered_raws-dispatch_one :
    (ws : MarketWs) (ts : ℕ) (raw : Text)
    → ws.has_on_market_event ≡ true
    → delivered_raws (dispatch_one ws ts raw) ≡ keep_ok (ws.decode_item raw) raw
unfolding dispatch_one emit_item
delivered_raws-dispatch_one ws ts raw h = elim (Result-cases (ws.decode_item raw)) [
  | inl (it, e) ↦ rw e (
      delivered_raws-append (log_item ws ts it raw) (deliver_item ws it raw)
      ∙ rw (delivered_raws-log_item ws ts it raw) (delivered_raws-deliver_item ws it raw h))
  | inr (x, e) ↦ rw e refl
]

delivered_raws-dispatch_all :
    (ws : MarketWs) (ts : ℕ) (items : List Text)
    → ws.has_on_market_event ≡ true
    → delivered_raws (dispatch_all ws ts items) ≡ decodable ws items
unfolding dispatch_all
delivered_raws-dispatch_all ws ts [] h = refl
delivered_raws-dispatch_all ws ts (raw ∷ items) h =
    delivered_raws-append (dispatch_one ws ts raw) (dispatch_all ws ts items)
    ∙ rw (delivered_raws-dispatch_one ws ts raw h, delivered_raws-dispatch_all ws ts items h)

-- With a handler installed, a frame delivers, in order and once each, those of its items that decode:
-- the elements of an array, or the frame itself; a frame that the filter drops delivers nothing.
pub delivered_raws-dispatch :
    (ws : MarketWs) (ts : ℕ) (raw : Text)
    → ws.has_on_market_event ≡ true
    → delivered_raws (dispatch ws ts raw) ≡ decodable ws (frame_items ws raw)
unfolding dispatch dispatch_array
delivered_raws-dispatch ws ts raw h = elim (Bool-cases (keeps ws.filter raw)) [
  | inr f ↦ rw f refl
  | inl t ↦ elim (Bool-cases (first_non_space raw == b'[')) [
    | inl a ↦ elim (Result-cases (ws.decode_items raw)) [
      | inl (items, e) ↦ rw (t, a, e) (delivered_raws-dispatch_all ws ts items h)
      | inr (x, e) ↦ rw (t, a, e) refl
    ]
    | inr b ↦ rw (t, b) (delivered_raws-dispatch_one ws ts raw h ∙ sym (append-nil _))
  ]
]
