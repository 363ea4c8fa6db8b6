-- ===== src/Clob/Market.antt =====
-- Tick sizes: the cache of `GetTickSize` (clob/cache.go) and `PrefetchTickSizes`
-- (clob/prefetch.go).
use polymarket_go.Prelude.{
  ℕ, ◌+◌, Bool, false, List, [], ◌∷◌, ◌++◌, map, Text, lit, text_eq, is_empty, Result, ok, err,
  Option, none, some, if◌then◌else◌, ltb,
}
use polymarket_go.Prelude.Words.{ℤ}
use polymarket_go.Clob.Errors.{GoError, failed, wrapped}
use polymarket_go.Clob.Deps.{Deps}
use polymarket_go.Clob.Orders.Build.{Client}
use polymarket_go.Clob.Http.{do_request}
use polymarket_go.Clob.Json.{Json}
pub mod Laws
pub mod Prefetch
pub mod FeeRates
pub mod FeeRateLaws
pub mod PrefetchLaws
use polymarket_go.Clob.Effects.{◌>>=◌, Io, lift, fail, return, or_wrap}

-- A Go map from strings.
abbrev pub Map : Type 0 → Type 0
Map V = List (Text × V)

unfoldable pub lookup : {V : Type 0} → Text → Map V → Option V
lookup k [] = none
lookup k ((x, v) ∷ m) = if text_eq x k then some v else lookup k m

-- A write; a read finds the newest entry of a key.
unfoldable pub insert : {V : Type 0} → Text → V → Map V → Map V
insert k v m = (k, v) ∷ m

-- `tickSizeCache`, `tickSizeCacheTime` and `tickSizeTTL` of `Client`; times are in nanoseconds.
pub record TickCache : Type 0 where
  pub sizes : Map Text
  pub times : Map ℕ
  pub ttl : ℕ

-- Five minutes.
unfoldable pub new_cache : TickCache
new_cache = record { sizes = []; times = []; ttl = 300000000000 }

-- A stored size that is younger than the limit.
abbrev pub is_fresh : Option ℕ → ℕ → ℕ → Bool
is_fresh none ttl now = false
is_fresh (some t) ttl now = ltb now (t + ttl)

unfoldable pub cached : TickCache → Text → ℕ → Option Text
cached cache token now = elim (lookup token cache.sizes) [
  | none ↦ none
  | some ts ↦ if is_fresh (lookup token cache.times) cache.ttl now then some ts else none
]

unfoldable pub store : TickCache → Text → Text → ℕ → TickCache
store cache token ts now = record cache {
  sizes = insert token ts cache.sizes;
  times = insert token now cache.times;
}

module _ {W : Type 0} (d : Deps W) (j : Json) (c : Client) where
  -- A bare string, or an object with one of two fields.
  unfoldable pub read_tick_size : Text → Result GoError Text
  read_tick_size raw = elim (j.decode_text raw) [
    | ok ts ↦ ok ts
    | err e ↦ elim (j.decode_tick_size raw) [
      | err e2 ↦ err (wrapped (lit "parse tick_size response") e)
      | ok obj ↦
          let ts =
            if is_empty obj.minimum_tick_size then obj.tick_size else obj.minimum_tick_size in
          if is_empty ts then err (failed (lit "unexpected tick_size response: " ++ raw)) else ok ts
    ]
  ]

  unfoldable pub fetch_tick_size : Text → Io W Text
  unfolding read_tick_size
  fetch_tick_size token = do
    raw ← do_request d c (lit "GET") (lit "/tick-size?token_id=" ++ token) []
    lift (read_tick_size raw)

  -- What the fetch leaves in the cache, at the time it is stored.
  unfoldable pub note_fetched :
      TickCache → Text → Result GoError Text × W → Result GoError Text × TickCache × W
  note_fetched cache token (err e, w) = (err e, cache, w)
  note_fetched cache token (ok ts, w) =
      let (now, w1) = d.now_nanos w in (ok ts, store cache token ts now, w1)

  unfoldable pub serve : TickCache → Text → Option Text → W → Result GoError Text × TickCache × W
  unfolding note_fetched
  serve cache token (some ts) w = (ok ts, cache, w)
  serve cache token none w = note_fetched cache token (fetch_tick_size token w)

  -- The clock is read where there is an entry.
  abbrev pub clock_for : TickCache → Text → W → ℕ × W
  clock_for cache token w = elim (lookup token cache.sizes) [
    | none ↦ (0, w)
    | some ts ↦ d.now_nanos w
  ]

  unfoldable pub get_tick_size : TickCache → Text → W → Result GoError Text × TickCache × W
  unfolding serve
  get_tick_size cache token w =
      let (now, w1) = clock_for cache token w in serve cache token (cached cache token now) w1

  unfoldable pub get_fee_rate : Text → Io W ℤ
  get_fee_rate token = do
    raw ← do_request d c (lit "GET") (lit "/fee-rate?token_id=" ++ token) []
    lift (j.decode_fee_rate raw)
