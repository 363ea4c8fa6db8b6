-- ===== src/Polymarket/Ws/EventLaws.antt =====
-- What the events of the market feed hold (polymarket/ws.go).
use polymarket_go.Prelude.{
  true, ◌≡◌, ◌≢◌, ◌⊎◌, refl, List, [], ◌∷◌, Text, lit, text_eq, text_eq_iff, All, none, some, map,
  Bool-cases, inl, inr, is_empty, false, text_eq_refl, if◌then◌else◌,
}
use polymarket_go.Polymarket.Ws.Events.{
  MarketWsEvent, WsItem, WsBookLevel, MarketWsBookLevel, WsPriceChangeEntry, MarketWsPriceChange,
  Kind, is_book, is_price_change, is_best_bid_ask, is_last_trade_price, is_tick_size_change,
  is_new_market, is_resolved, is_unknown, kind_of, fill_event, bare_event, to_change,
  market_ws_event_from_item, to_book_levels, first_non_empty,
}

-- The levels of a book: those of the item that have both a price and a size, in its order.
pub data Levels : List WsBookLevel → List MarketWsBookLevel → Type 0 where
  no_more : Levels [] []
  kept :
      {e : WsBookLevel} {es : List WsBookLevel} {out : List MarketWsBookLevel}
      → e.price ≢ []
      → e.size ≢ []
      → Levels es out
      → Levels (e ∷ es) (record { price = e.price; size = e.size } ∷ out)
  no_price :
      {e : WsBookLevel} {es : List WsBookLevel} {out : List MarketWsBookLevel}
      → e.price ≡ []
      → Levels es out
      → Levels (e ∷ es) out
  no_size :
      {e : WsBookLevel} {es : List WsBookLevel} {out : List MarketWsBookLevel}
      → e.size ≡ []
      → Levels es out
      → Levels (e ∷ es) out

empty_cases : (t : Text) → ((t ≡ []) × (is_empty t ≡ true)) ⊎ ((t ≢ []) × (is_empty t ≡ false))
empty_cases [] = inl (refl, refl)
empty_cases (x ∷ xs) = inr (λ e. cc, refl)

to_book_levels-Levels : (es : List WsBookLevel) → Levels es (to_book_levels es)
unfolding to_book_levels
to_book_levels-Levels [] = no_more
to_book_levels-Levels (e ∷ es) = elim (empty_cases e.price) [
  | inl (p, x) ↦ rw x (no_price p (to_book_levels-Levels es))
  | inr (p, x) ↦ elim (empty_cases e.size) [
    | inl (q, y) ↦ rw (x, y) (no_size q (to_book_levels-Levels es))
    | inr (q, y) ↦ rw (x, y) (kept p q (to_book_levels-Levels es))
  ]
]

-- The changes of prices: each entry's, in the same order.
pub data Changes : List WsPriceChangeEntry → List MarketWsPriceChange → Type 0 where
  no_change : Changes [] []
  one_change :
      {c : WsPriceChangeEntry} {cs : List WsPriceChangeEntry} {m : MarketWsPriceChange}
      {ms : List MarketWsPriceChange}
      → m.asset_id ≡ c.asset_id
      → m.side ≡ c.side
      → m.price ≡ c.price
      → m.size ≡ c.size
      → Changes cs ms
      → Changes (c ∷ cs) (m ∷ ms)

map-Changes : (cs : List WsPriceChangeEntry) → Changes cs (map to_change cs)
unfolding to_change
map-Changes [] = no_change
map-Changes (c ∷ cs) = one_change refl refl refl refl (map-Changes cs)

-- The first list, or the second where the first is empty.
abbrev pub IsFirst : {A : Type 0} → List A → List A → List A → Type 0
IsFirst a b c = ((a ≢ []) × (c ≡ a)) ⊎ ((a ≡ []) × (c ≡ b))

first_non_empty-IsFirst : {A : Type 0} (a b : List A) → IsFirst a b (first_non_empty (a ∷ b ∷ []))
unfolding first_non_empty
first_non_empty-IsFirst [] [] = inr (refl, refl)
first_non_empty-IsFirst [] (y ∷ ys) = inr (refl, refl)
first_non_empty-IsFirst (x ∷ xs) b = inl (λ e. cc, refl)

or_else-IsFirst : (a b : Text) → IsFirst a b (if is_empty a then b else a)
or_else-IsFirst [] b = inr (refl, refl)
or_else-IsFirst (x ∷ xs) b = inl (λ e. cc, refl)

-- The names of the events that the feed knows.
abbrev pub names : List Text
names =
    lit "book"
    ∷ lit "price_change"
    ∷ lit "best_bid_ask"
    ∷ lit "last_trade_price"
    ∷ lit "tick_size_change"
    ∷ lit "new_market"
    ∷ lit "market_resolved"
    ∷ []

-- The event that has the item's type and bytes, and no payload.
abbrev pub no_payload : WsItem → Text → MarketWsEvent
no_payload it raw = record {
  type = it.event_type;
  raw = raw;
  book = none;
  price_change = none;
  best_bid_ask = none;
  last_trade_price = none;
  tick_size_change = none;
  new_market = none;
  resolved = none;
}

-- The event of an item, by the item's type: the one payload that goes with it, field by field.
pub data IsEventOf (it : WsItem) (raw : Text) : MarketWsEvent → Type 0 where
  book :
      {bids asks : List MarketWsBookLevel}
      → it.event_type ≡ lit "book"
      → Levels it.bids bids
      → Levels it.asks asks
      → IsEventOf it raw (record (no_payload it raw) {
        book = some (record { asset_id = it.asset_id; bids = bids; asks = asks });
      })
  price_change :
      {changes : List MarketWsPriceChange}
      → it.event_type ≡ lit "price_change"
      → Changes it.price_changes changes
      → IsEventOf it raw
          (record (no_payload it raw) { price_change = some (record { changes = changes }) })
  best_bid_ask :
      it.event_type ≡ lit "best_bid_ask"
      → IsEventOf it raw (record (no_payload it raw) {
        best_bid_ask =
            some
              (record { asset_id = it.asset_id; best_bid = it.best_bid; best_ask = it.best_ask });
      })
  last_trade_price :
      it.event_type ≡ lit "last_trade_price"
      → IsEventOf it raw (record (no_payload it raw) {
        last_trade_price = some (record {
          asset_id = it.asset_id;
          side = it.side;
          price = it.price;
          size = it.size;
          transaction_hash = it.transaction_hash;
        });
      })
  tick_size_change :
      {tick newer : Text}
      → it.event_type ≡ lit "tick_size_change"
      → IsFirst it.tick_size it.new_tick_size newer
      → IsFirst newer it.minimum_tick_size tick
      → IsEventOf it raw (record (no_payload it raw) {
        tick_size_change = some (record {
          asset_id = it.asset_id;
          old_tick_size = it.old_tick_size;
          new_tick_size = tick;
        });
      })
  new_market :
      {condition_id : Text} {asset_ids : List Text}
      → it.event_type ≡ lit "new_market"
      → IsFirst it.condition_id it.condition_id_alt condition_id
      → IsFirst it.assets_ids it.asset_ids asset_ids
      → IsEventOf it raw (record (no_payload it raw) {
        new_market = some (record {
          condition_id = condition_id;
          market = it.market;
          slug = it.slug;
          group_item_title = it.group_item_title;
          line = it.line;
          order_price_min_tick_size = it.order_price_min_tick_size;
          asset_ids = asset_ids;
          clob_token_ids = it.clob_token_ids;
        });
      })
  resolved :
      {condition_id : Text} {asset_ids : List Text}
      → it.event_type ≡ lit "market_resolved"
      → IsFirst it.condition_id it.condition_id_alt condition_id
      → IsFirst it.assets_ids it.asset_ids asset_ids
      → IsEventOf it raw (record (no_payload it raw) {
        resolved = some (record {
          condition_id = condition_id;
          market = it.market;
          winning_asset_id = it.winning_asset_id;
          winning_outcome = it.winning_outcome;
          asset_ids = asset_ids;
        });
      })
  other : All (λ n. it.event_type ≢ n) names → IsEventOf it raw (no_payload it raw)

-- What a kind says of the type.
abbrev Says : Kind → Text → Type 0
Says is_book t = t ≡ lit "book"
Says is_price_change t = t ≡ lit "price_change"
Says is_best_bid_ask t = t ≡ lit "best_bid_ask"
Says is_last_trade_price t = t ≡ lit "last_trade_price"
Says is_tick_size_change t = t ≡ lit "tick_size_change"
Says is_new_market t = t ≡ lit "new_market"
Says is_resolved t = t ≡ lit "market_resolved"
Says is_unknown t = All (λ n. t ≢ n) names

same_text : (t u : Text) → (t ≡ u) ⊎ ((text_eq t u ≡ false) × (t ≢ u))
same_text t u = elim (Bool-cases (text_eq t u)) [
  | inl y ↦ inl ((text_eq_iff t u).0 y)
  | inr n ↦ inr (n, λ e. absurd (cc (text_eq_refl t)))
]

kind_of-Says : (t : Text) → Says (kind_of t) t
unfolding kind_of text_eq
kind_of-Says t = elim (same_text t (lit "book")) [
  | inl e ↦ rw e refl
  | inr (b1, n1) ↦ elim (same_text t (lit "price_change")) [
    | inl e ↦ rw e refl
    | inr (b2, n2) ↦ elim (same_text t (lit "best_bid_ask")) [
      | inl e ↦ rw e refl
      | inr (b3, n3) ↦ elim (same_text t (lit "last_trade_price")) [
        | inl e ↦ rw e refl
        | inr (b4, n4) ↦ elim (same_text t (lit "tick_size_change")) [
          | inl e ↦ rw e refl
          | inr (b5, n5) ↦ elim (same_text t (lit "new_market")) [
            | inl e ↦ rw e refl
            | inr (b6, n6) ↦ elim (same_text t (lit "market_resolved")) [
              | inl e ↦ rw e refl
              | inr (b7, n7) ↦
                  let none_of : All (λ n. t ≢ n) names =
                    (n1, (n2, (n3, (n4, (n5, (n6, (n7, tt))))))) in
                  rw (b1, b2, b3, b4, b5, b6, b7) none_of
            ]
          ]
        ]
      ]
    ]
  ]
]

fill_event-IsEventOf :
    (k : Kind) (it : WsItem) (raw : Text)
    → Says k it.event_type
    → IsEventOf it raw (fill_event k it (bare_event it.event_type raw))
unfolding fill_event
fill_event-IsEventOf is_book it raw h =
    book h (to_book_levels-Levels it.bids) (to_book_levels-Levels it.asks)
fill_event-IsEventOf is_price_change it raw h = price_change h (map-Changes it.price_changes)
fill_event-IsEventOf is_best_bid_ask it raw h = best_bid_ask h
fill_event-IsEventOf is_last_trade_price it raw h = last_trade_price h
fill_event-IsEventOf is_tick_size_change it raw h =
    tick_size_change h (or_else-IsFirst it.tick_size it.new_tick_size) (or_else-IsFirst _ _)
fill_event-IsEventOf is_new_market it raw h =
    new_market h (first_non_empty-IsFirst it.condition_id it.condition_id_alt)
      (first_non_empty-IsFirst it.assets_ids it.asset_ids)
fill_event-IsEventOf is_resolved it raw h =
    resolved h (first_non_empty-IsFirst it.condition_id it.condition_id_alt)
      (first_non_empty-IsFirst it.assets_ids it.asset_ids)
fill_event-IsEventOf is_unknown it raw h = other h

-- An event has its item's type and bytes and exactly one payload, or none where the type is not one
-- of the seven names; the payload is the one that the type names, and each of its fields comes from
-- the item's: levels without a price or a size are left out, and a tick size, a condition or a list
-- of assets is the first of its alternatives that is not empty.
pub market_ws_event_from_item-IsEventOf :
    (it : WsItem) (raw : Text) → IsEventOf it raw (market_ws_event_from_item it raw)
unfolding market_ws_event_from_item
market_ws_event_from_item-IsEventOf it raw =
    fill_event-IsEventOf (kind_of it.event_type) it raw (kind_of-Says it.event_type)

IsEventOf-raw : {it : WsItem} {raw : Text} (ev : MarketWsEvent) → IsEventOf it raw ev → ev.raw ≡ raw
IsEventOf-raw _ (book t b a) = refl
IsEventOf-raw _ (price_change t c) = refl
IsEventOf-raw _ (best_bid_ask t) = refl
IsEventOf-raw _ (last_trade_price t) = refl
IsEventOf-raw _ (tick_size_change t a b) = refl
IsEventOf-raw _ (new_market t a b) = refl
IsEventOf-raw _ (resolved t a b) = refl
IsEventOf-raw _ (other t) = refl

pub market_ws_event_from_item-raw :
    (it : WsItem) (raw : Text) → (market_ws_event_from_item it raw).raw ≡ raw
market_ws_event_from_item-raw it raw =
    IsEventOf-raw (market_ws_event_from_item it raw) (market_ws_event_from_item-IsEventOf it raw)
