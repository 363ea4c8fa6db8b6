-- ===== src/Polymarket/Market/Fees.antt =====
-- The taker fee per share of polymarket/market.go, over the operations of float64.
use polymarket_go.Prelude.Words.{ℤ, to_int64, pos, negsuc}
use polymarket_go.Clob.Market.{cached}
use polymarket_go.Prelude.{
  if◌then◌else◌, ◌∷◌, ◌||◌, ℕ, zero, suc, some, none, ltb, get_elem?, [], Option, List,
}
use polymarket_go.Clob.Floats.{Floats}

abbrev pub fee_cache_size : ℕ
fee_cache_size = 10001

module _ (f : Floats) where
  open f use {F}

  abbrev pub fee_rate_default : F
  fee_rate_default = f.ratio 72 1000

  -- `FeeParams`; none is a nil cache.
  pub record FeeParams : Type 0 where
    pub rate : F
    pub rebate : F
    pub fee_cache : Option (List F)

  unfoldable pub fee_per_share_with_rate : FeeParams → F → F → F
  fee_per_share_with_rate fp p rate =
      let one = f.ratio 1 1 in
      let fee = f.mul (f.mul rate p) (f.sub one p) in
      if f.le p (f.ratio 0 1) || f.le one p
      then f.ratio 0 1
      else if f.lt (f.ratio 0 1) fp.rebate
      then f.mul fee (f.sub one fp.rebate)
      else fee

  -- `float64(i)`, exact for the numbers here.
  abbrev pub float_of : ℤ → F
  float_of (pos n) = f.ratio n 1
  float_of (negsuc n) = f.sub (f.ratio 0 1) (f.ratio (suc n) 1)

  -- The price of a key.
  abbrev pub price_of : ℤ → F
  price_of i = f.div (float_of i) (f.ratio 10000 1)

  -- The fees of n keys from i on.
  unfoldable pub fees_from : FeeParams → ℕ → ℕ → List F
  fees_from fp i zero = []
  fees_from fp i (suc n) =
      fee_per_share_with_rate fp (price_of (pos i)) fp.rate ∷ fees_from fp (suc i) n

  abbrev pub plain_params : F → F → FeeParams
  plain_params rate rebate = record { rate = rate; rebate = rebate; fee_cache = none }

  unfoldable pub new_fee_params : F → F → FeeParams
  unfolding fees_from
  new_fee_params rate rebate = record {
    rate = rate;
    rebate = rebate;
    fee_cache = some (fees_from (plain_params rate rebate) 0 fee_cache_size);
  }

  -- The entry of a key that is in range.
  unfoldable pub cached_fee : List F → ℤ → Option F
  cached_fee cache (pos i) = if ltb i fee_cache_size then get_elem? cache i else none
  cached_fee cache (negsuc n) = none

  abbrev pub cache_entry : Option (List F) → ℤ → Option F
  cache_entry none i = none
  cache_entry (some cache) i = cached_fee cache i

  abbrev pub or_else : F → Option F → F
  or_else fee none = fee
  or_else fee (some cached) = cached

  -- `FeePerShareKey`, and `FeePerShare` for a price.
  unfoldable pub fee_per_share_key : FeeParams → ℤ → F
  fee_per_share_key fp pk =
      or_else (fee_per_share_with_rate fp (price_of pk) fp.rate) (cache_entry fp.fee_cache pk)

  abbrev pub key_of : F → ℤ
  key_of p = to_int64 (f.to_word (f.round (f.mul p (f.ratio 10000 1))))

  unfoldable pub fee_per_share : FeeParams → F → F
  fee_per_share fp p =
      or_else (fee_per_share_with_rate fp p fp.rate) (cache_entry fp.fee_cache (key_of p))
