-- ===== src/Clob/Market/Laws.antt =====
-- The tick-size cache of clob/cache.go.
use polymarket_go.Prelude.{
  text_eq-ne, ℕ, ◌+◌, ◌<◌, ◌≡◌, ◌≢◌, refl, Text, text_eq, text_eq_refl, Result, ok, err, Option,
  none, some, is_none, if◌then◌else◌, ltb, arith, inl, inr, Bool-cases,
}
use polymarket_go.Clob.Errors.{GoError}
use polymarket_go.Clob.Deps.{Deps}
use polymarket_go.Clob.Orders.Build.{Client}
use polymarket_go.Clob.Json.{Json}
use polymarket_go.Clob.Market.{
  TickCache, Map, lookup, insert, new_cache, cached, store, note_fetched, serve, clock_for,
  get_tick_size, fetch_tick_size,
}

lookup-insert :
    {V : Type 0} (k l : Text) (v : V) (m : Map V)
    → lookup l (insert k v m) ≡ (if text_eq k l then some v else lookup l m)
unfolding lookup insert
lookup-insert k l v m = refl

-- A token has a size exactly when it has a time.
pub IsPaired : TickCache → Type 0
IsPaired cache = (k : Text) → is_none (lookup k cache.sizes) ≡ is_none (lookup k cache.times)

pub new_cache-IsPaired : IsPaired new_cache
unfolding IsPaired new_cache lookup
new_cache-IsPaired k = refl

store-IsPaired :
    (cache : TickCache) (token ts : Text) (now : ℕ)
    → IsPaired cache
    → IsPaired (store cache token ts now)
unfolding IsPaired store lookup insert
store-IsPaired cache token ts now h k = elim (Bool-cases (text_eq token k)) [
  | inl e ↦ rw e refl
  | inr e ↦ rw e (h k)
]

-- A size that was stored is served until the limit is reached, and no longer.
pub cached-store :
    (cache : TickCache) (token ts : Text) (stored now : ℕ)
    → cached (store cache token ts stored) token now
      ≡ (if ltb now (stored + cache.ttl) then some ts else none)
unfolding cached store lookup insert
cached-store cache token ts stored now = ground (arith, text_eq_refl token)

-- Storing the size of a token changes nothing for another.
pub cached-store_ne :
    (cache : TickCache) (token other ts : Text) (stored now : ℕ)
    → token ≢ other
    → cached (store cache token ts stored) other now ≡ cached cache other now
unfolding cached store lookup insert
cached-store_ne cache token other ts stored now h = ground (arith, text_eq-ne token other h)

module _ {W : Type 0} (d : Deps W) (j : Json) (c : Client) where
  note_fetched-IsPaired :
      (cache : TickCache) (token : Text) (p : Result GoError Text × W)
      → IsPaired cache
      → IsPaired (note_fetched d j c cache token p).1
  unfolding note_fetched
  note_fetched-IsPaired cache token (err e, w) h = h
  note_fetched-IsPaired cache token (ok ts, w) h = store-IsPaired cache token ts _ h

  serve-IsPaired :
      (cache : TickCache) (token : Text) (o : Option Text) (w : W)
      → IsPaired cache
      → IsPaired (serve d j c cache token o w).1
  unfolding serve
  serve-IsPaired cache token (some ts) w h = h
  serve-IsPaired cache token none w h = note_fetched-IsPaired cache token _ h

  -- Every call keeps the two maps of the cache on the same tokens.
  pub get_tick_size-IsPaired :
      (cache : TickCache) (token : Text) (w : W)
      → IsPaired cache
      → IsPaired (get_tick_size d j c cache token w).1
  unfolding get_tick_size
  get_tick_size-IsPaired cache token w h = serve-IsPaired cache token _ _ h

  clock_for_stored :
      (cache : TickCache) (token ts : Text) (stored : ℕ) (v : W)
      → clock_for d j c (store cache token ts stored) token v ≡ d.now_nanos v
  unfolding store lookup insert
  clock_for_stored cache token ts stored v = ground (arith, text_eq_refl token)

  -- A fetch that gives a size, the empty one included, stores it; a later call for the token before
  -- the limit returns that size from the cache: only the clock is read, no request is made and the
  -- cache stays as it is.
  pub get_tick_size_again :
      (cache : TickCache) (token ts : Text) (w w1 w2 v v1 : W) (stored now : ℕ)
      → cached cache token (clock_for d j c cache token w).0 ≡ none
      → fetch_tick_size d j c token (clock_for d j c cache token w).1 ≡ (ok ts, w1)
      → d.now_nanos w1 ≡ (stored, w2)
      → d.now_nanos v ≡ (now, v1)
      → now < stored + cache.ttl
      → (get_tick_size d j c cache token w ≡ (ok ts, store cache token ts stored, w2))
        × (get_tick_size d j c (store cache token ts stored) token v
            ≡ (ok ts, store cache token ts stored, v1))
  unfolding get_tick_size serve note_fetched
  get_tick_size_again cache token ts w w1 w2 v v1 stored now miss hf hs hv lt = (
    ground arith,
    ground
        (arith, cached-store cache token ts stored now, clock_for_stored cache token ts stored v),
  )

  -- A failed fetch stores nothing.
  pub get_tick_size_failed :
      (cache : TickCache) (token : Text) (w : W) (e : GoError)
      → (get_tick_size d j c cache token w).0 ≡ err e
      → (get_tick_size d j c cache token w).1 ≡ cache
  unfolding get_tick_size serve note_fetched
  get_tick_size_failed cache token w e h = ground arith
