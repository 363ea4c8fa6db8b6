-- ===== src/Polymarket/Market.antt =====
-- polymarket/market.go: a market and its tokens, the taker fee (Fees) and the days to expiry (Expiry).
use polymarket_go.Prelude.Words.{ℤ, pos}
use polymarket_go.Polymarket.Market.Fees.{fee_rate_default}
use polymarket_go.Prelude.Strings.{decimal_int}
use polymarket_go.Clob.Floats.{Floats}
use polymarket_go.Prelude.{if◌then◌else◌, ◌++◌, text_eq, lit, [], Text, Bool}
pub mod Fees
pub mod FeeLaws
pub mod Expiry

module _ (f : Floats) where
  open f use {F}

  pub record Market : Type 0 where
    pub coin : Text
    pub coin_short : Text
    pub date : Text
    pub event_type : Text
    pub title : Text
    pub threshold : ℤ
    pub yes_tid : Text
    pub no_tid : Text
    pub mid : F
    pub condition_id : Text
    pub tick_size : Text
    pub key : Text
    pub neg_risk_market_id : Text
    pub question_index : ℤ
    pub fee_rate : F
    pub fee_rate_bps : ℤ
    pub volume24h : F
    pub slug : Text

  unfoldable pub market_key : Text → Text → Text → ℤ → Text
  market_key coin date event_type threshold =
      coin ++ (lit "|" ++ (date ++ (lit "|" ++ (event_type ++ (lit "|" ++ decimal_int threshold)))))

  unfoldable pub new_market :
      Text → Text → Text → Text → Text → ℤ → Text → Text → F → Text → Text → Market
  unfolding market_key
  new_market coin coin_short date event_type title threshold yes_tid no_tid mid condition_id
        tick_size =
      record {
        coin = coin;
        coin_short = coin_short;
        date = date;
        event_type = event_type;
        title = title;
        threshold = threshold;
        yes_tid = yes_tid;
        no_tid = no_tid;
        mid = mid;
        condition_id = condition_id;
        tick_size = tick_size;
        key = market_key coin date event_type threshold;
        neg_risk_market_id = [];
        question_index = pos 0;
        fee_rate = f.ratio 0 1;
        fee_rate_bps = pos 0;
        volume24h = f.ratio 0 1;
        slug = [];
      }

  unfoldable pub neg_risk : Market → Bool
  neg_risk m = text_eq m.event_type (lit "range")

  unfoldable pub is_yes : Market → Text → Bool
  is_yes m token = text_eq m.yes_tid token

  unfoldable pub token_id : Market → Text → Text
  token_id m side = if text_eq side (lit "YES") then m.yes_tid else m.no_tid

  unfoldable pub effective_fee_rate : Market → F
  effective_fee_rate m = if f.lt (f.ratio 0 1) m.fee_rate then m.fee_rate else fee_rate_default f
