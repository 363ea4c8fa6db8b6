-- ===== src/Clob/Market/FeeRates.antt =====
-- `PrefetchFeeRates` of clob/prefetch.go. Its requests run in goroutines, twenty at a time; here they
-- follow one another in the order of the tokens.
use polymarket_go.Clob.Market.{get_fee_rate}
use polymarket_go.Clob.Errors.{GoError}
use polymarket_go.Clob.Orders.Build.{Client}
use polymarket_go.Clob.Json.{Json}
use polymarket_go.Prelude.Words.{ℤ}
use polymarket_go.Clob.Deps.{Deps}
use polymarket_go.Prelude.{◌+◌, ◌++◌, ok, err, [], ◌∷◌, Result, ℕ, Text, List}

-- What `store` was called with, the oldest first, and the number of calls.
pub record Rates (W : Type 0) : Type 0 where
  pub world : W
  pub stored : List (Text × ℤ)
  pub fetched_count : ℕ

module _ {W : Type 0} (d : Deps W) (j : Json) (c : Client) where
  -- A rate that could not be fetched is left out.
  unfoldable pub note_rate : Rates W → Text → Result GoError ℤ × W → Rates W
  note_rate s token (err e, w) = record s { world = w }
  note_rate s token (ok rate, w) = record s {
    world = w;
    stored = s.stored ++ (token, rate) ∷ [];
    fetched_count = s.fetched_count + 1;
  }

  unfoldable pub prefetch_rates_from : List Text → Rates W → Rates W
  unfolding note_rate
  prefetch_rates_from [] s = s
  prefetch_rates_from (token ∷ tokens) s =
      prefetch_rates_from tokens (note_rate s token (get_fee_rate d j c token s.world))

  unfoldable pub prefetch_fee_rates : List Text → W → Rates W
  unfolding prefetch_rates_from
  prefetch_fee_rates tokens w =
      prefetch_rates_from tokens (record { world = w; stored = []; fetched_count = 0 })
