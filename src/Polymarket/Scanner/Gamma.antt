-- ===== src/Polymarket/Scanner/Gamma.antt =====
-- The markets and events of the Gamma API (polymarket/scanner.go). The JSON library decodes into the
-- structs that the `UnmarshalJSON` methods declare; what they make of these is here.
use polymarket_go.Prelude.Words.{ℤ}
use polymarket_go.Polymarket.Scanner.Http.{http_get}
use polymarket_go.Clob.Errors.{failed, GoError}
use polymarket_go.Clob.Floats.{Floats}
use polymarket_go.Clob.Deps.{Deps}
use polymarket_go.Prelude.{
  map, if◌then◌else◌, ◌∷◌, ◌++◌, some, ok, none, lit, is_empty, err, [], Text, Result, Option, List,
  Bool,
}
use polymarket_go.Clob.Effects.{or_wrap, lift, Io, ◌>>=◌}

-- What `GammaFeeSchedule.UnmarshalJSON` decodes; none is a nil pointer.
pub record FeeScheduleIn : Type 0 where
  pub fee_rate : Option Text
  pub rate : Option Text
  pub exponent : Option Text
  pub taker_only : Bool
  pub rebate_rate : Option Text

module _ (f : Floats) where
  open f use {F}

  pub record GammaFeeSchedule : Type 0 where
    pub fee_rate : F
    pub rate : Text
    pub exponent : Text
    pub taker_only : Bool
    pub rebate_rate : Text

  pub record GammaMarketIn : Type 0 where
    pub slug : Text
    pub condition_id : Text
    pub group_item_title : Text
    pub group_item_threshold : ℤ
    pub clob_token_ids : Text
    pub outcome_prices : Text
    pub order_price_min_tick_size : Text
    pub volume_num : F
    pub fee_schedule : Option GammaFeeSchedule
    pub active : Option Bool
    pub closed : Option Bool
    pub accepting_orders : Option Bool
    pub enable_order_book : Option Bool

  pub record GammaMarket : Type 0 where
    pub slug : Text
    pub condition_id : Text
    pub group_item_title : Text
    pub group_item_threshold : ℤ
    pub clob_token_ids : Text
    pub outcome_prices : Text
    pub order_price_min_tick_size : Text
    pub volume_num : F
    pub fee_schedule : Option GammaFeeSchedule
    pub active : Option Bool
    pub closed : Option Bool
    pub accepting_orders : Option Bool
    pub enable_order_book : Option Bool

  pub record GammaEvent : Type 0 where
    pub slug : Text
    pub neg_risk_market_id : Text
    pub volume24hr : F
    pub fee_schedule : Option GammaFeeSchedule
    pub markets : List GammaMarket

  -- What `GammaEvent.UnmarshalJSON` decodes, its markets with what theirs does.
  pub record GammaEventIn : Type 0 where
    pub slug : Text
    pub neg_risk_market_id : Text
    pub volume24hr : F
    pub fee_schedule : Option GammaFeeSchedule
    pub markets : List GammaMarketIn

  -- The first that is there, or what stood before.
  abbrev pub first_of : Option Text → Option Text → Text → Text
  first_of (some a) b old = a
  first_of none (some b) old = b
  first_of none none old = old

  abbrev pub parsed_rate : F → Result GoError F → F
  parsed_rate old (ok rate) = rate
  parsed_rate old (err e) = old

  abbrev pub exponent_of : Option Text → Option Text → Text → Text
  exponent_of (some x) fee_rate old = x
  exponent_of none (some r) old = lit "1"
  exponent_of none none old = old

  unfoldable pub unmarshal_fee_schedule :
      (Text → Result GoError F) → FeeScheduleIn → GammaFeeSchedule → GammaFeeSchedule
  unmarshal_fee_schedule parse_float x s =
      let rate = first_of x.rate x.fee_rate s.rate in
      record {
        fee_rate = if is_empty rate then s.fee_rate else parsed_rate s.fee_rate (parse_float rate);
        rate = rate;
        exponent = exponent_of x.exponent x.fee_rate s.exponent;
        taker_only = x.taker_only;
        rebate_rate = first_of x.rebate_rate none s.rebate_rate;
      }

  unfoldable pub unmarshal_market : GammaMarketIn → GammaMarket
  unmarshal_market x = record {
    slug = x.slug;
    condition_id = x.condition_id;
    group_item_title = x.group_item_title;
    group_item_threshold = x.group_item_threshold;
    clob_token_ids = x.clob_token_ids;
    outcome_prices = x.outcome_prices;
    order_price_min_tick_size = x.order_price_min_tick_size;
    volume_num = x.volume_num;
    fee_schedule = x.fee_schedule;
    active = x.active;
    closed = x.closed;
    accepting_orders = x.accepting_orders;
    enable_order_book = x.enable_order_book;
  }

  unfoldable pub unmarshal_event : GammaEventIn → GammaEvent
  unfolding unmarshal_market
  unmarshal_event x = record {
    slug = x.slug;
    neg_risk_market_id = x.neg_risk_market_id;
    volume24hr = x.volume24hr;
    fee_schedule = x.fee_schedule;
    markets = map unmarshal_market x.markets;
  }

  -- net/url and the JSON library.
  pub record GammaLibrary : Type 0 where
    pub query_escape : Text → Text
    pub path_escape : Text → Text
    pub decode_events : Text → Result GoError (List GammaEventIn)
    pub decode_event : Text → Result GoError GammaEventIn
    pub decode_market : Text → Result GoError GammaMarketIn
    pub decode_strings : Text → Result GoError (List Text)

  module _ {W : Type 0} (d : Deps W) (g : GammaLibrary) where
    -- An array, or one event; one without a slug is none.
    unfoldable pub read_events : Text → Result GoError (List GammaEvent)
    unfolding unmarshal_event
    read_events raw = elim (g.decode_events raw) [
      | ok batch ↦ ok (map unmarshal_event batch)
      | err e ↦ elim (g.decode_event raw) [
        | err e2 ↦ err e2
        | ok single ↦ if is_empty single.slug then ok [] else ok (unmarshal_event single ∷ [])
      ]
    ]

    unfoldable pub fetch_events_by_slug : Text → Io W (List GammaEvent)
    unfolding read_events
    fetch_events_by_slug slug = do
      raw ← http_get d (lit "https://gamma-api.polymarket.com/events?slug=" ++ g.query_escape slug)
      lift (read_events raw)

    unfoldable pub read_market : Text → Result GoError GammaMarket
    unfolding unmarshal_market
    read_market raw = elim (g.decode_market raw) [ err e ↦ err e | ok x ↦ ok (unmarshal_market x) ]

    unfoldable pub fetch_market : Text → Io W GammaMarket
    unfolding read_market
    fetch_market market_id = do
      raw ←
          or_wrap (lit "fetch market " ++ market_id) (
            http_get d (lit "https://gamma-api.polymarket.com/markets/" ++ g.path_escape market_id))
      or_wrap (lit "parse market " ++ market_id) (lift (read_market raw))

    -- A field that holds an array as a text; nothing is the empty array.
    unfoldable pub decode_json_string_array : Text → Result GoError (List Text)
    decode_json_string_array raw = g.decode_strings (if is_empty raw then lit "[]" else raw)

    unfoldable pub clob_token_id_list : GammaMarket → Result GoError (List Text)
    unfolding decode_json_string_array
    clob_token_id_list m = decode_json_string_array m.clob_token_ids

    unfoldable pub outcome_price_list : GammaMarket → Result GoError (List Text)
    unfolding decode_json_string_array
    outcome_price_list m = decode_json_string_array m.outcome_prices

    unfoldable pub two_tokens : Text → Result GoError (List Text) → Result GoError (Text × Text)
    two_tokens market_id (ok (yes' ∷ no' ∷ rest)) = ok (yes', no')
    two_tokens market_id (ok (yes' ∷ [])) =
        err (failed (lit "market " ++ (market_id ++ lit ": missing clobTokenIds")))
    two_tokens market_id (ok []) =
        err (failed (lit "market " ++ (market_id ++ lit ": missing clobTokenIds")))
    two_tokens market_id (err e) =
        err (failed (lit "market " ++ (market_id ++ lit ": missing clobTokenIds")))

    unfoldable pub fetch_market_tokens : Text → Io W (Text × Text)
    unfolding two_tokens clob_token_id_list
    fetch_market_tokens market_id = do
      m ← fetch_market market_id
      lift (two_tokens market_id (clob_token_id_list m))
