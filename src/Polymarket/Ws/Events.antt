-- ===== src/Polymarket/Ws/Events.antt =====
-- The events of the market feed (polymarket/ws.go) and what `marketWSEventFromItem` makes of a decoded
-- item.
use polymarket_go.Prelude.{
  List, [], ◌∷◌, map, Text, lit, text_eq, is_empty, Option, none, some, if◌then◌else◌, ◌&&◌, not,
}

pub record WsBookLevel : Type 0 where
  pub price : Text
  pub size : Text

pub record WsPriceChangeEntry : Type 0 where
  pub asset_id : Text
  pub side : Text
  pub price : Text
  pub size : Text

pub record MarketWsBookLevel : Type 0 where
  pub price : Text
  pub size : Text

pub record MarketWsBookEvent : Type 0 where
  pub asset_id : Text
  pub bids : List MarketWsBookLevel
  pub asks : List MarketWsBookLevel

pub record MarketWsPriceChange : Type 0 where
  pub asset_id : Text
  pub side : Text
  pub price : Text
  pub size : Text

pub record MarketWsPriceChangeEvent : Type 0 where
  pub changes : List MarketWsPriceChange

pub record MarketWsBestBidAskEvent : Type 0 where
  pub asset_id : Text
  pub best_bid : Text
  pub best_ask : Text

pub record MarketWsLastTradePriceEvent : Type 0 where
  pub asset_id : Text
  pub side : Text
  pub price : Text
  pub size : Text
  pub transaction_hash : Text

pub record MarketWsTickSizeChangeEvent : Type 0 where
  pub asset_id : Text
  pub old_tick_size : Text
  pub new_tick_size : Text

pub record MarketWsNewMarketEvent : Type 0 where
  pub condition_id : Text
  pub market : Text
  pub slug : Text
  pub group_item_title : Text
  pub line : Text
  pub order_price_min_tick_size : Text
  pub asset_ids : List Text
  pub clob_token_ids : List Text

pub record MarketWsResolvedEvent : Type 0 where
  pub condition_id : Text
  pub market : Text
  pub winning_asset_id : Text
  pub winning_outcome : Text
  pub asset_ids : List Text

pub record MarketWsEvent : Type 0 where
  pub type : Text
  pub raw : Text
  pub book : Option MarketWsBookEvent
  pub price_change : Option MarketWsPriceChangeEvent
  pub best_bid_ask : Option MarketWsBestBidAskEvent
  pub last_trade_price : Option MarketWsLastTradePriceEvent
  pub tick_size_change : Option MarketWsTickSizeChangeEvent
  pub new_market : Option MarketWsNewMarketEvent
  pub resolved : Option MarketWsResolvedEvent

-- The union of the fields of every event.
pub record WsItem : Type 0 where
  pub event_type : Text
  pub asset_id : Text
  pub bids : List WsBookLevel
  pub asks : List WsBookLevel
  pub price_changes : List WsPriceChangeEntry
  pub best_bid : Text
  pub best_ask : Text
  pub side : Text
  pub price : Text
  pub size : Text
  pub transaction_hash : Text
  pub tick_size : Text
  pub minimum_tick_size : Text
  pub new_tick_size : Text
  pub old_tick_size : Text
  pub market : Text
  pub condition_id : Text
  pub condition_id_alt : Text
  pub slug : Text
  pub group_item_title : Text
  pub line : Text
  pub order_price_min_tick_size : Text
  pub assets_ids : List Text
  pub asset_ids : List Text
  pub clob_token_ids : List Text
  pub winning_asset_id : Text
  pub winning_outcome : Text

-- The values that `MarketWSEventType` names.
abbrev pub event_book : Text
event_book = lit "book"

abbrev pub event_price_change : Text
event_price_change = lit "price_change"

abbrev pub event_best_bid_ask : Text
event_best_bid_ask = lit "best_bid_ask"

abbrev pub event_last_trade_price : Text
event_last_trade_price = lit "last_trade_price"

abbrev pub event_tick_size_change : Text
event_tick_size_change = lit "tick_size_change"

abbrev pub event_new_market : Text
event_new_market = lit "new_market"

abbrev pub event_resolved : Text
event_resolved = lit "market_resolved"

unfoldable pub first_non_empty {ℓ} : {A : Type ℓ} → List (List A) → List A
first_non_empty [] = []
first_non_empty (v ∷ vs) = if is_empty v then first_non_empty vs else v

unfoldable pub to_book_levels : List WsBookLevel → List MarketWsBookLevel
to_book_levels [] = []
to_book_levels (e ∷ es) =
    let rest = to_book_levels es in
    if not (is_empty e.price) && not (is_empty e.size)
    then record { price = e.price; size = e.size } ∷ rest
    else rest

unfoldable pub to_change : WsPriceChangeEntry → MarketWsPriceChange
to_change ch = record { asset_id = ch.asset_id; side = ch.side; price = ch.price; size = ch.size }

-- The seven values, and any other.
pub data Kind : Type 0 where
  is_book is_price_change is_best_bid_ask is_last_trade_price : Kind
  is_tick_size_change is_new_market is_resolved is_unknown : Kind

unfoldable pub kind_of : Text → Kind
kind_of t =
    if text_eq t event_book
    then is_book
    else if text_eq t event_price_change
    then is_price_change
    else if text_eq t event_best_bid_ask
    then is_best_bid_ask
    else if text_eq t event_last_trade_price
    then is_last_trade_price
    else if text_eq t event_tick_size_change
    then is_tick_size_change
    else if text_eq t event_new_market
    then is_new_market
    else if text_eq t event_resolved
    then is_resolved
    else is_unknown

abbrev pub bare_event : Text → Text → MarketWsEvent
bare_event type raw = record {
  type = type;
  raw = raw;
  book = none;
  price_change = none;
  best_bid_ask = none;
  last_trade_price = none;
  tick_size_change = none;
  new_market = none;
  resolved = none;
}

-- The body of the switch.
unfoldable pub fill_event : Kind → WsItem → MarketWsEvent → MarketWsEvent
unfolding to_book_levels to_change first_non_empty
fill_event is_book it ev = record ev {
  book = some (record {
    asset_id = it.asset_id;
    bids = to_book_levels it.bids;
    asks = to_book_levels it.asks;
  });
}
fill_event is_price_change it ev = record ev {
  price_change = some (record { changes = map to_change it.price_changes });
}
fill_event is_best_bid_ask it ev = record ev {
  best_bid_ask =
      some (record { asset_id = it.asset_id; best_bid = it.best_bid; best_ask = it.best_ask });
}
fill_event is_last_trade_price it ev = record ev {
  last_trade_price = some (record {
    asset_id = it.asset_id;
    side = it.side;
    price = it.price;
    size = it.size;
    transaction_hash = it.transaction_hash;
  });
}
fill_event is_tick_size_change it ev =
    let tick = if is_empty it.tick_size then it.new_tick_size else it.tick_size in
    let tick' = if is_empty tick then it.minimum_tick_size else tick in
    record ev {
      tick_size_change = some (record {
        asset_id = it.asset_id;
        old_tick_size = it.old_tick_size;
        new_tick_size = tick';
      });
    }
fill_event is_new_market it ev = record ev {
  new_market = some (record {
    condition_id = first_non_empty (it.condition_id ∷ it.condition_id_alt ∷ []);
    market = it.market;
    slug = it.slug;
    group_item_title = it.group_item_title;
    line = it.line;
    order_price_min_tick_size = it.order_price_min_tick_size;
    asset_ids = first_non_empty (it.assets_ids ∷ it.asset_ids ∷ []);
    clob_token_ids = it.clob_token_ids;
  });
}
fill_event is_resolved it ev = record ev {
  resolved = some (record {
    condition_id = first_non_empty (it.condition_id ∷ it.condition_id_alt ∷ []);
    market = it.market;
    winning_asset_id = it.winning_asset_id;
    winning_outcome = it.winning_outcome;
    asset_ids = first_non_empty (it.assets_ids ∷ it.asset_ids ∷ []);
  });
}
fill_event is_unknown it ev = ev

unfoldable pub market_ws_event_from_item : WsItem → Text → MarketWsEvent
unfolding kind_of fill_event
market_ws_event_from_item it raw =
    fill_event (kind_of it.event_type) it (bare_event it.event_type raw)
