-- ===== src/Clob/Orders/Amounts.antt =====
-- `computeOrderAmounts` and `computeOrderAmountsDecimal` of clob/client.go. int64 arithmetic wraps.
use polymarket_go.Clob.Floats.{Floats}
use polymarket_go.Prelude.{
  ℕ, ◌-◌, ◌*◌, ◌^◌, Bool, not, ◌||◌, Text, text_eq, if◌then◌else◌, ltb, ◌==◌,
}
use polymarket_go.Prelude.Words.{ℤ, u64, to_int64}
use polymarket_go.Clob.Types.{RoundConfig, side_buy_int, side_sell_int, side_buy}

abbrev pub token_decimals : ℕ
token_decimals = 1000000

abbrev pub token_decimals_exp : ℕ
token_decimals_exp = 6

pub record Amounts : Type 0 where
  pub side_int : ℕ
  pub maker_amount : ℤ
  pub taker_amount : ℤ

-- The integer part of the fast path, from the units of size and of price: shares and collateral as
-- int64 words.
abbrev pub shares_word : RoundConfig → ℕ → ℕ
shares_word rc size_units = u64 (size_units * 10 ^ (token_decimals_exp - rc.size))

abbrev pub collateral_word : RoundConfig → ℕ → ℕ → ℕ
collateral_word rc size_units price_units =
    u64 (u64 (size_units * price_units) * 10 ^ (token_decimals_exp - rc.size - rc.price))

unfoldable pub amounts_of_units : Text → RoundConfig → ℕ → ℕ → Amounts
amounts_of_units side rc size_units price_units =
    let shares = to_int64 (shares_word rc size_units) in
    let collateral = to_int64 (collateral_word rc size_units price_units) in
    if text_eq side side_buy
    then record { side_int = side_buy_int; maker_amount = collateral; taker_amount = shares }
    else record { side_int = side_sell_int; maker_amount = shares; taker_amount = collateral }

module _ (f : Floats) where
  open f use {F, D}

  abbrev pub zero_float : F
  zero_float = f.ratio 0 1

  unfoldable pub compute_order_amounts_decimal : Text → F → F → RoundConfig → Amounts
  compute_order_amounts_decimal side size price rc =
      let d_price = f.round_to (f.from_float price) rc.price in
      let d_size = f.floor_to (f.from_float size) rc.size in
      let d_token_decimals = f.from_int token_decimals in
      let collateral = f.whole (f.round_to (f.prod3 d_size d_price d_token_decimals) 0) in
      let shares = f.whole (f.round_to (f.prod2 d_size d_token_decimals) 0) in
      if text_eq side side_buy
      then record { side_int = side_buy_int; maker_amount = collateral; taker_amount = shares }
      else record { side_int = side_sell_int; maker_amount = shares; taker_amount = collateral }

  abbrev pub size_units_of : RoundConfig → F → ℕ
  size_units_of rc size = f.to_word (f.floor (f.mul size (f.ratio (10 ^ rc.size) 1)))

  abbrev pub price_units_of : RoundConfig → F → ℕ
  price_units_of rc price = f.to_word (f.round (f.mul price (f.ratio (10 ^ rc.price) 1)))

  -- The test for the decimal path.
  abbrev pub off_grid : RoundConfig → F → F → Bool
  off_grid rc size price =
      not (rc.size == 2)
      || ltb rc.price 1
      || ltb 4 rc.price
      || f.lt size zero_float
      || f.lt price zero_float

  unfoldable pub compute_order_amounts : Text → F → F → RoundConfig → Amounts
  unfolding amounts_of_units
  compute_order_amounts side size price rc =
      if off_grid rc size price
      then compute_order_amounts_decimal side size price rc
      else amounts_of_units side rc (size_units_of rc size) (price_units_of rc price)
