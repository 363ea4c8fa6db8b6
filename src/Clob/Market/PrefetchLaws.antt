-- ===== src/Clob/Market/PrefetchLaws.antt =====
-- Which tokens a prefetch of tick sizes stores and which it reports (clob/prefetch.go).
use polymarket_go.Prelude.{◌≡◌, ◌≢◌, ◌++◌, List, [], ◌∷◌, Text, Result, ok, err, length, map, All}
use polymarket_go.Clob.Errors.{GoError}
use polymarket_go.Clob.Deps.{Deps}
use polymarket_go.Clob.Orders.Build.{Client}
use polymarket_go.Clob.Json.{Json}
use polymarket_go.Clob.Market.{TickCache, get_tick_size}
use polymarket_go.Clob.Market.Prefetch.{Progress, Outcome, fetched, some_failed, interrupted}
use mathlib.Core.List.Perm
use mathlib.Core.List.{Perm}

-- A result that gives no size.
pub data NoSize : Result GoError Text → Type 0 where
  went_wrong : (e : GoError) → NoSize (err e)
  is_blank : NoSize (ok [])

abbrev pub tokens_of : List (Text × Text) → List Text
tokens_of stored = map (λ p. p.0) stored

module _ {W : Type 0} (d : Deps W) (j : Json) (c : Client) where
  -- What some call of GetTickSize for the token returned.
  pub record Given (token : Text) (r : Result GoError Text) : Type 0 where
    pub cache : TickCache
    pub world : W
    pub returned : (get_tick_size d j c cache token world).0 ≡ r

  -- A size that is not empty and that was returned for this very token.
  abbrev pub IsAnswer : Text × Text → Type 0
  IsAnswer p = (p.1 ≢ []) × Given p.0 (ok p.1)

  -- A call for the token returned an error or an empty size.
  abbrev pub IsFailure : Text → Type 0
  IsFailure token = (r : Result GoError Text) × Given token r × NoSize r

  -- Of the tokens done, each is stored once or failed once for each time that it occurs.
  pub record IsSound (done : List Text) (s : Progress W) : Type 0 where
    pub handled : Perm (tokens_of s.stored ++ s.failed_tokens) done
    pub answers : All IsAnswer s.stored
    pub failures : All IsFailure s.failed_tokens

  -- What the outcome says of the tokens: all stored; or how many of them failed, and which first; or,
  -- when the context was done, that those before some point are done.
  abbrev pub Reports : List Text → Outcome × Progress W → Type 0
  Reports tokens (fetched, s) = (s.failed_tokens ≡ []) × IsSound tokens s
  Reports tokens (some_failed n m token, s) =
      (n ≡ length s.failed_tokens)
      × (m ≡ length tokens)
      × ((rest : List Text) × (s.failed_tokens ≡ token ∷ rest))
      × IsSound tokens s
  Reports tokens (interrupted, s) =
      (done : List Text) × (rest : List Text) × (done ++ rest ≡ tokens) × IsSound done s
