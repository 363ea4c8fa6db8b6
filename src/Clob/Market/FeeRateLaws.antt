-- ===== src/Clob/Market/FeeRateLaws.antt =====
-- The order of the requests of `PrefetchFeeRates` does not matter (clob/prefetch.go).
use polymarket_go.Clob.Market.{get_fee_rate}
use polymarket_go.Clob.Market.FeeRates.{prefetch_fee_rates, Rates, prefetch_rates_from, note_rate}
use polymarket_go.Clob.Orders.Build.{Client}
use polymarket_go.Clob.Json.{Json}
use polymarket_go.Prelude.Words.{ℤ}
use polymarket_go.Clob.Deps.{Deps}
use polymarket_go.Clob.Errors.{GoError}
use polymarket_go.Prelude.{
  ap, ◌∙◌, refl, append-nil, sym, append_assoc, ◌++◌, [], length-append, ◌∷◌, arith, length, ◌≡◌,
  List, none, err, some, ok, Text, Option, Result,
}
use mathlib.Core.List.Perm
use mathlib.Core.List.{Perm, filter_map}
use mathlib.Core.Option.{Option-elim}

abbrev pub rate_entry : Text → Result GoError ℤ → Option (Text × ℤ)
rate_entry token (ok rate) = some (token, rate)
rate_entry token (err e) = none

module _ {W : Type 0} (d : Deps W) (j : Json) (c : Client) where
  note_rate-stored :
      (s : Rates W) (token : Text) (r : Result GoError ℤ) (w : W) (rest : List (Text × ℤ))
      → (note_rate d j c s token (r, w)).stored ++ rest
        ≡ s.stored ++ Option-elim (rate_entry token r) rest (λ b. b ∷ rest)
  unfolding note_rate Option-elim
  note_rate-stored s token (ok rate) w rest = append_assoc s.stored ((token, rate) ∷ []) rest
  note_rate-stored s token (err e) w rest = refl

  note_rate-length :
      (s : Rates W) (token : Text) (r : Result GoError ℤ) (w : W)
      → s.fetched_count ≡ length s.stored
      → (note_rate d j c s token (r, w)).fetched_count
        ≡ length (note_rate d j c s token (r, w)).stored
  unfolding note_rate
  note_rate-length s token (ok rate) w h =
      omega (arith, h, length-append s.stored ((token, rate) ∷ []))
  note_rate-length s token (err e) w h = h

  prefetch_rates_from-length :
      (tokens : List Text) (s : Rates W)
      → s.fetched_count ≡ length s.stored
      → (prefetch_rates_from d j c tokens s).fetched_count
        ≡ length (prefetch_rates_from d j c tokens s).stored
  unfolding prefetch_rates_from
  prefetch_rates_from-length [] s h = h
  prefetch_rates_from-length (token ∷ tokens) s h =
      prefetch_rates_from-length tokens _
        (note_rate-length s token (get_fee_rate d j c token s.world).0 _ h)

  module _ (answer : Text → Result GoError ℤ)
      (steady : (token : Text) (w : W) → (get_fee_rate d j c token w).0 ≡ answer token) where
    abbrev rates_of : List Text → List (Text × ℤ)
    rates_of tokens = filter_map (λ t. rate_entry t (answer t)) tokens

    prefetch_rates_from-stored :
        (tokens : List Text) (s : Rates W)
        → (prefetch_rates_from d j c tokens s).stored ≡ s.stored ++ rates_of tokens
    unfolding prefetch_rates_from filter_map
    prefetch_rates_from-stored [] s = sym (append-nil s.stored)
    prefetch_rates_from-stored (token ∷ tokens) s =
        let (r, w) = get_fee_rate d j c token s.world in
        prefetch_rates_from-stored tokens (note_rate d j c s token (r, w))
        ∙ note_rate-stored s token r w (rates_of tokens)
        ∙ ap
            (λ x.
              s.stored
              ++ Option-elim (rate_entry token x) (rates_of tokens) (λ b. b ∷ rates_of tokens))
            (steady token s.world)

    -- If the answer for a token does not change while the rates are fetched, the pairs that are stored
    -- are the same up to their order in whatever order the tokens' requests are answered: one for
    -- each token whose answer is a rate. The number that is reported is that of the pairs.
    pub prefetch_fee_rates-Perm :
        (tokens answered : List Text) (w v : W)
        → Perm tokens answered
        → Perm
            (prefetch_fee_rates d j c tokens w).stored
            (prefetch_fee_rates d j c answered v).stored
          × ((prefetch_fee_rates d j c tokens w).stored ≡ rates_of tokens)
          × ((prefetch_fee_rates d j c tokens w).fetched_count
              ≡ length (prefetch_fee_rates d j c tokens w).stored)
    unfolding prefetch_fee_rates
    prefetch_fee_rates-Perm tokens answered w v p =
        let start : W → Rates W = λ u. record { world = u; stored = []; fetched_count = 0 } in
        let first : (prefetch_rates_from d j c tokens (start w)).stored ≡ rates_of tokens =
          prefetch_rates_from-stored tokens (start w) in
        let second : (prefetch_rates_from d j c answered (start v)).stored ≡ rates_of answered =
          prefetch_rates_from-stored answered (start v) in
        (
          rw (first, second) (Perm.filter_map (λ t. rate_entry t (answer t)) p),
          first,
          prefetch_rates_from-length tokens (start w) refl,
        )
