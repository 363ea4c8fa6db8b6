-- ===== src/Clob/Market/Prefetch.antt =====
-- `PrefetchTickSizes` of clob/prefetch.go. The two requests of a batch run in goroutines; here one
-- follows the other.
use polymarket_go.Prelude.{
  ℕ, zero, suc, true, false, List, [], ◌∷◌, ◌++◌, Text, is_empty, Result, ok, err, if◌then◌else◌,
  length,
}
use polymarket_go.Clob.Errors.{GoError}
use polymarket_go.Clob.Deps.{Deps}
use polymarket_go.Clob.Orders.Build.{Client}
use polymarket_go.Clob.Json.{Json}
use polymarket_go.Clob.Market.{TickCache, get_tick_size}

-- The world, the cache, what `store` was called with and the failed tokens, the oldest first.
pub record Progress (W : Type 0) : Type 0 where
  pub world : W
  pub cache : TickCache
  pub stored : List (Text × Text)
  pub failed_tokens : List Text

pub data Outcome : Type 0 where
  fetched : Outcome
  some_failed : ℕ → ℕ → Text → Outcome
  interrupted : Outcome

module _ {W : Type 0} (d : Deps W) (j : Json) (c : Client) where
  -- The loop over attempts: the last outcome counts.
  unfoldable pub attempt :
      ℕ → TickCache → Text → Result GoError Text → W → Result GoError Text × TickCache × W
  attempt zero cache token last w = (last, cache, w)
  attempt (suc n) cache token last w =
      let (r, cache1, w1) = get_tick_size d j c cache token w in
      elim r [
        | err e ↦ attempt n cache1 token (err e) w1
        | ok ts ↦ elim (is_empty ts) [
          | false ↦ (ok ts, cache1, w1)
          | true ↦ attempt n cache1 token (ok ts) w1
        ]
      ]

  -- What becomes of one token.
  unfoldable pub note_outcome : Progress W → Text → Result GoError Text × TickCache × W → Progress W
  note_outcome s token (err e, cache, w) = record s {
    world = w;
    cache = cache;
    failed_tokens = s.failed_tokens ++ token ∷ [];
  }
  note_outcome s token (ok ts, cache, w) =
      if is_empty ts
      then record s { world = w; cache = cache; failed_tokens = s.failed_tokens ++ token ∷ [] }
      else record s { world = w; cache = cache; stored = s.stored ++ (token, ts) ∷ [] }

  unfoldable pub prefetch_one : Progress W → Text → Progress W
  unfolding attempt note_outcome
  prefetch_one s token = note_outcome s token (attempt 3 s.cache token (ok []) s.world)

  unfoldable pub prefetch_batch : Progress W → List Text → Progress W
  prefetch_batch s [] = s
  prefetch_batch s (token ∷ tokens) = prefetch_batch (prefetch_one s token) tokens

  unfoldable pub finish : Progress W → ℕ → Outcome
  finish s total = elim s.failed_tokens [
    | [] ↦ fetched
    | token ∷ rest ↦ some_failed (suc (length rest)) total token
  ]

  -- Batches of two; after each the context or a pause.
  unfoldable pub prefetch_from : ℕ → List Text → Progress W → Outcome × Progress W
  prefetch_from total [] s = (finish s total, s)
  prefetch_from total (a ∷ []) s =
      let s1 = prefetch_batch s (a ∷ []) in
      let (going, w) = d.await_tick s1.world in
      let s2 = record s1 { world = w } in if going then (finish s2 total, s2) else (interrupted, s2)
  prefetch_from total (a ∷ b ∷ tokens) s =
      let s1 = prefetch_batch s (a ∷ b ∷ []) in
      let (going, w) = d.await_tick s1.world in
      let s2 = record s1 { world = w } in
      let rest = prefetch_from total tokens s2 in if going then rest else (interrupted, s2)

  unfoldable pub prefetch_tick_sizes : TickCache → List Text → W → Outcome × Progress W
  unfolding prefetch_from
  prefetch_tick_sizes cache tokens w =
      prefetch_from (length tokens) tokens
        (record { world = w; cache = cache; stored = []; failed_tokens = [] })
