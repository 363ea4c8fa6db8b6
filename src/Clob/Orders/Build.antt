-- ===== src/Clob/Orders/Build.antt =====
-- `BuildOrder` of clob/client.go and its options.
use polymarket_go.Prelude.{
  ℕ, ◌^◌, Bool, true, false, not, ◌&&◌, ◌||◌, List, [], ◌∷◌, ◌++◌, Text, lit, text_eq, is_empty,
  Result, ok, err, Option, none, some, if◌then◌else◌, replicate,
}
use polymarket_go.Prelude.Words.{ℤ, pos}
use polymarket_go.Prelude.Strings.{parse_int}
use polymarket_go.Clob.Errors.{GoError, failed, wrapped}
use polymarket_go.Clob.Deps.{Deps, Address}
use polymarket_go.Clob.Types.{
  RoundConfig, rounding_configs, side_buy, side_sell, OrderData, PostOrderArg, ApiCreds,
}
use polymarket_go.Clob.Floats.{Floats}
use polymarket_go.Clob.Auth.{timestamp_from_id, salt_from_id, sign_order}
use polymarket_go.Clob.Orders.Amounts.{Amounts, compute_order_amounts}
use polymarket_go.Clob.Effects.{Io}

-- The fields of `Client` that are data.
pub record Client : Type 0 where
  pub host : Text
  pub address : Address
  pub funder : Address
  -- none until `InitAuth`
  pub creds : Option ApiCreds
  pub chain_id : ℕ
  pub sig_type : ℕ

-- A 32-byte array that is zero.
abbrev pub zero32 : Text
zero32 = replicate 32 0

module _ (f : Floats) where
  open f use {F}

  pub record OrderOpts : Type 0 where
    pub id : Text
    -- none is a nil pointer
    pub timestamp : Option ℤ
    pub side : Text
    pub tick_size : Text
    pub neg_risk : Bool
    pub order_type : Text
    pub post_only : Bool
    pub defer_exec : Bool
    pub fee_adjust : Bool
    pub fee_adjust_rate : F
    pub fee_adjust_tick_size : Text
    pub fee_adjust_ref_price : F
    pub expiration : Option ℤ
    pub builder : Text
    pub metadata : Text

  -- The functions that return an `OrderOption`.
  pub data OrderOption : Type 0 where
    with_id with_deterministic_id : Text → OrderOption
    with_timestamp_millis : ℤ → OrderOption
    with_buy with_sell : OrderOption
    with_market : Text → Bool → OrderOption
    with_builder with_metadata : Text → OrderOption
    as_gtc as_fok as_fak : OrderOption
    as_gtd : ℤ → OrderOption
    as_post_only as_defer_exec : OrderOption
    with_fee_adjustment : F → Text → F → OrderOption

  abbrev pub no_opts : OrderOpts
  no_opts = record {
    id = [];
    timestamp = none;
    side = [];
    tick_size = [];
    neg_risk = false;
    order_type = [];
    post_only = false;
    defer_exec = false;
    fee_adjust = false;
    fee_adjust_rate = f.ratio 0 1;
    fee_adjust_tick_size = [];
    fee_adjust_ref_price = f.ratio 0 1;
    expiration = none;
    builder = zero32;
    metadata = zero32;
  }

  -- `BuyFeeRate`.
  unfoldable pub buy_fee_rate : F → F → F
  buy_fee_rate price rate =
      if f.le rate (f.ratio 0 1) || f.le price (f.ratio 0 1) || f.le (f.ratio 1 1) price
      then f.ratio 0 1
      else f.mul rate (f.sub (f.ratio 1 1) price)

  abbrev pub min_buy_shares : F
  min_buy_shares = f.ratio 5 1

  -- The size that fee adjustment asks for on BUY.
  unfoldable pub adjusted_size : OrderOpts → RoundConfig → F → F → F
  unfolding buy_fee_rate
  adjusted_size oo adj price size =
      let ref_price =
        if f.le oo.fee_adjust_ref_price (f.ratio 0 1) || f.le (f.ratio 1 1) oo.fee_adjust_ref_price
        then price
        else oo.fee_adjust_ref_price in
      let fr = buy_fee_rate ref_price oo.fee_adjust_rate in
      let fr' = if f.le (f.ratio 1 1) fr then f.ratio 0 1 else fr in
      let mult = f.ratio (10 ^ adj.size) 1 in
      f.div (f.ceil (f.mul (f.div size (f.sub (f.ratio 1 1) fr')) mult)) mult

  unfoldable pub fee_adjusted : OrderOpts → F → F → Result GoError F
  unfolding adjusted_size
  fee_adjusted oo price size =
      if oo.fee_adjust && text_eq oo.side side_buy
      then elim (rounding_configs oo.fee_adjust_tick_size) [
        | none ↦ err (failed (lit "WithFeeAdjustment: unknown tick size"))
        | some adj ↦ ok (adjusted_size oo adj price size)
      ]
      else ok size

  -- The first three checks.
  unfoldable pub check_opts : OrderOpts → Result GoError RoundConfig
  check_opts oo =
      if not (text_eq oo.side side_buy) && not (text_eq oo.side side_sell)
      then err (failed (lit "side required: use WithBuy() or WithSell()"))
      else if is_empty oo.order_type
      then err (failed (lit "order type required: use AsGTC() or AsFOK()"))
      else elim (rounding_configs oo.tick_size) [
        | none ↦ err (failed (lit "unknown tick size: use WithMarket()"))
        | some rc ↦ ok rc
      ]

  -- The distance of the scaled size from a whole number.
  abbrev pub is_misaligned : RoundConfig → F → Bool
  is_misaligned rc size =
      let scaled = f.mul size (f.ratio (10 ^ rc.size) 1) in
      f.lt (f.ratio 1 1000000000) (f.abs (f.sub scaled (f.round scaled)))

  unfoldable pub check_size : OrderOpts → RoundConfig → F → Result GoError F
  check_size oo rc size =
      if is_misaligned rc size
      then err (failed (lit "size not aligned to tick size"))
      else if text_eq oo.side side_buy && f.lt size min_buy_shares
      then err (failed (lit "BUY size below minimum shares"))
      else ok size

  unfoldable pub parse_token_id : Text → Result GoError ℤ
  parse_token_id token_id = elim (parse_int token_id) [
    | none ↦ err (failed (lit "invalid tokenID: " ++ token_id))
    | some n ↦ ok n
  ]

  module _ {W : Type 0} (d : Deps W) where
    unfoldable pub apply_option : OrderOpts → OrderOption → OrderOpts
    apply_option o (with_id id) = record o { id = id }
    apply_option o (with_deterministic_id id) = record o {
      id = id;
      timestamp = some (pos (timestamp_from_id d id));
    }
    apply_option o (with_timestamp_millis ts) = record o { timestamp = some ts }
    apply_option o with_buy = record o { side = side_buy }
    apply_option o with_sell = record o { side = side_sell }
    apply_option o (with_market tick_size neg) = record o { tick_size = tick_size; neg_risk = neg }
    apply_option o (with_builder code) = record o { builder = code }
    apply_option o (with_metadata m) = record o { metadata = m }
    apply_option o as_gtc = record o { order_type = lit "GTC" }
    apply_option o as_fok = record o { order_type = lit "FOK" }
    apply_option o as_fak = record o { order_type = lit "FAK" }
    apply_option o (as_gtd expiration) = record o {
      order_type = lit "GTD";
      expiration = some expiration;
    }
    apply_option o as_post_only = record o { post_only = true }
    apply_option o as_defer_exec = record o { defer_exec = true }
    apply_option o (with_fee_adjustment rate tick_size ref_price) = record o {
      fee_adjust = true;
      fee_adjust_rate = rate;
      fee_adjust_tick_size = tick_size;
      fee_adjust_ref_price = ref_price;
    }

    unfoldable pub apply_options : OrderOpts → List OrderOption → OrderOpts
    unfolding apply_option
    apply_options o [] = o
    apply_options o (x ∷ xs) = apply_options (apply_option o x) xs

    -- `generateSalt` is called in any case, and replaced where there is an id.
    unfoldable pub choose_salt : Text → W → ℕ × W
    choose_salt id w =
        let (random, w1) = d.random_salt w in
        if is_empty id then (random, w1) else (salt_from_id d id, w1)

    unfoldable pub choose_timestamp : Option ℤ → W → ℤ × W
    choose_timestamp (some ts) w = (ts, w)
    choose_timestamp none w = let (now, w1) = d.now_millis w in (pos now, w1)

    unfoldable pub order_of : Client → OrderOpts → ℤ → Amounts → ℕ → ℤ → OrderData
    order_of c oo token amounts salt timestamp = record {
      salt = salt;
      maker = c.funder;
      signer = c.address;
      token_id = token;
      maker_amount = amounts.maker_amount;
      taker_amount = amounts.taker_amount;
      side = amounts.side_int;
      signature_type = c.sig_type;
      timestamp = timestamp;
      metadata = oo.metadata;
      builder = oo.builder;
    }

    abbrev pub or_zero : Option ℤ → ℤ
    or_zero none = pos 0
    or_zero (some e) = e

    -- Signing, and the result.
    unfoldable pub finish_order : Client → OrderOpts → OrderData → Result GoError PostOrderArg
    finish_order c oo o = elim (sign_order d c.chain_id o oo.neg_risk) [
      | err e ↦ err (wrapped (lit "sign order") e)
      | ok sig ↦ ok (record {
        order =
            some (record { order = o; expiration = some (or_zero oo.expiration); signature = sig });
        order_type = oo.order_type;
        post_only = oo.post_only;
        defer_exec = oo.defer_exec;
      })
    ]

    -- From the checked values on: salt, timestamp, signature.
    unfoldable pub sign_built : Client → OrderOpts → ℤ → Amounts → Io W PostOrderArg
    unfolding choose_salt choose_timestamp
    sign_built c oo token amounts w =
        let (salt, w1) = choose_salt oo.id w in
        let (timestamp, w2) = choose_timestamp oo.timestamp w1 in
        (finish_order c oo (order_of c oo token amounts salt timestamp), w2)

    -- The checked size and the parsed token.
    unfoldable pub check_order : OrderOpts → Text → F → F → Result GoError (RoundConfig × F × ℤ)
    check_order oo token_id price size = elim (check_opts oo) [
      | err e ↦ err e
      | ok rc ↦ elim (fee_adjusted oo price size) [
        | err e ↦ err e
        | ok adjusted ↦ elim (check_size oo rc adjusted) [
          | err e ↦ err e
          | ok good ↦ elim (parse_token_id token_id) [
            | err e ↦ err e
            | ok token ↦ ok (rc, good, token)
          ]
        ]
      ]
    ]

    unfoldable pub build_with : Client → OrderOpts → Text → F → F → Io W PostOrderArg
    build_with c oo token_id price size w = elim (check_order oo token_id price size) [
      | err e ↦ (err e, w)
      | ok (rc, good, token) ↦
          sign_built c oo token (compute_order_amounts f oo.side good price rc) w
    ]

    unfoldable pub build_order : Client → Text → F → F → List OrderOption → Io W PostOrderArg
    build_order c token_id price size opts =
        build_with c (apply_options no_opts opts) token_id price size
