-- ===== src/Polymarket/Market/FeeLaws.antt =====
-- The table of fees changes no fee (polymarket/market.go).
use polymarket_go.Prelude.Words.{ℤ, pos, negsuc}
use polymarket_go.Prelude.{
  true, false, ltb, if◌then◌else◌, Bool, ◌≡◌, ◌∙◌, ◌<◌, ◌+◌, ℕ, zero, suc, some, refl, none,
  get_elem?, arith, ap,
}
use polymarket_go.Clob.Floats.{Floats}
use polymarket_go.Polymarket.Market.Fees.{
  or_else, key_of, cache_entry, fee_per_share, cached_fee, plain_params, price_of,
  fee_per_share_key, new_fee_params, fee_per_share_with_rate, fees_from, fee_cache_size, FeeParams,
}

if-ltb :
    {A : Type 0} {a b : A} (i n : ℕ) (c : A)
    → (i < n → a ≡ b)
    → (if ltb i n then a else c) ≡ (if ltb i n then b else c)
if-ltb i n c same = ground arith

if-same : {A : Type 0} {a b : A} (c : Bool) → a ≡ b → (if c then b else a) ≡ b
if-same true same = refl
if-same false same = same

module _ (f : Floats) where
  open f use {F}

  get_elem?-fees_from :
      (fp : FeeParams f) (n i k : ℕ)
      → k < n
      → get_elem? (fees_from f fp i n) k
        ≡ some (fee_per_share_with_rate f fp (price_of f (pos (i + k))) fp.rate)
  unfolding fees_from
  get_elem?-fees_from fp zero i k h = absurd (omega arith)
  get_elem?-fees_from fp (suc n) i zero h =
      ap (λ m. some (fee_per_share_with_rate f fp (price_of f (pos m)) fp.rate)) (omega arith)
  get_elem?-fees_from fp (suc n) i (suc k) h =
      get_elem?-fees_from fp n (suc i) k (omega arith)
      ∙ ap (λ m. some (fee_per_share_with_rate f fp (price_of f (pos m)) fp.rate)) (omega arith)

  get_elem?-table :
      (fp : FeeParams f) (n k : ℕ)
      → k < n
      → get_elem? (fees_from f fp 0 n) k
        ≡ some (fee_per_share_with_rate f fp (price_of f (pos k)) fp.rate)
  get_elem?-table fp n k h =
      get_elem?-fees_from fp n 0 k h
      ∙ ap (λ m. some (fee_per_share_with_rate f fp (price_of f (pos m)) fp.rate)) (omega arith)

  -- The keys that have an entry in the table.
  abbrev pub in_table : ℤ → Bool
  in_table (pos i) = ltb i fee_cache_size
  in_table (negsuc n) = false

  -- The fee computed without a table.
  abbrev pub direct_fee : F → F → F → F
  direct_fee rate rebate p = fee_per_share_with_rate f (plain_params f rate rebate) p rate

  cache_entry-new_fee_params :
      (rate rebate : F) (pk : ℤ)
      → cache_entry f (new_fee_params f rate rebate).fee_cache pk
        ≡ (if in_table pk then some (direct_fee rate rebate (price_of f pk)) else none)
  unfolding new_fee_params cached_fee
  cache_entry-new_fee_params rate rebate (pos i) =
      if-ltb i fee_cache_size none
        (λ h. get_elem?-table (plain_params f rate rebate) fee_cache_size i h)
  cache_entry-new_fee_params rate rebate (negsuc n) = refl

  fee_per_share_with_rate-new_fee_params :
      (rate rebate p : F)
      → fee_per_share_with_rate f (new_fee_params f rate rebate) p rate ≡ direct_fee rate rebate p
  unfolding new_fee_params fee_per_share_with_rate
  fee_per_share_with_rate-new_fee_params rate rebate p = refl

  or_else-if :
      (b : Bool) (fee cached : F)
      → or_else f fee (if b then some cached else none) ≡ (if b then cached else fee)
  or_else-if true fee cached = refl
  or_else-if false fee cached = refl

  -- With the table, the fee of a key is the one computed directly for its price, whether the key is in
  -- the table or not; and the fee of a price is the one of its nearest key where that is in the table,
  -- and otherwise the one computed for the price itself.
  pub fee_per_share_direct :
      (rate rebate : F) (pk : ℤ) (p : F)
      → (fee_per_share_key f (new_fee_params f rate rebate) pk
          ≡ direct_fee rate rebate (price_of f pk))
        × (fee_per_share f (new_fee_params f rate rebate) p ≡ (
            if in_table (key_of f p)
            then direct_fee rate rebate (price_of f (key_of f p))
            else direct_fee rate rebate p))
  unfolding fee_per_share_key fee_per_share new_fee_params
  fee_per_share_direct rate rebate pk p =
      let direct = fee_per_share_with_rate-new_fee_params rate rebate in
      let entry = cache_entry-new_fee_params rate rebate in
      (
        ap (or_else f _) (entry pk)
            ∙ or_else-if (in_table pk) _ _
            ∙ if-same (in_table pk) (direct _),
        ap (or_else f _) (entry (key_of f p))
            ∙ or_else-if (in_table (key_of f p)) _
                (direct_fee rate rebate (price_of f (key_of f p)))
            ∙ ap (if◌then◌else◌ (in_table (key_of f p)) _) (direct p),
      )
