-- ===== src/Polymarket/Scanner/Rtt.antt =====
-- `LogRTT` of polymarket/scanner.go: what it logs. The first round of requests, which opens the connections,
-- runs in goroutines; here one request follows the other.
use polymarket_go.Clob.Errors.{GoError}
use polymarket_go.Clob.Deps.{Response, Deps}
use polymarket_go.Prelude.{ok, err, [], ◌-◌, Result, ◌∷◌, ℕ, lit, Text, List}
use polymarket_go.Clob.Effects.{Io, lift, ◌>>=◌}

-- A line of the log: an endpoint that failed, or its time in nanoseconds and its status.
pub data RttLog : Type 0 where
  rtt_failed : Text → GoError → RttLog
  rtt : Text → ℕ → ℕ → RttLog

abbrev pub rtt_endpoints : List (Text × Text)
rtt_endpoints =
    (lit "gamma", lit "https://gamma-api.polymarket.com")
    ∷ (lit "clob", lit "https://clob.polymarket.com")
    ∷ (lit "relayer", lit "https://relayer-v2.polymarket.com")
    ∷ []

module _ {W : Type 0} (d : Deps W) where
  -- `client.Get`; the body is read and dropped.
  unfoldable pub get_endpoint : Text → Io W Response
  get_endpoint endpoint = do
    req ←
        lift
          (d.new_request (record { method = lit "GET"; url = endpoint; headers = []; body = [] }))
    d.http_do req

  unfoldable pub warm_up : List (Text × Text) → W → W
  unfolding get_endpoint
  warm_up [] w = w
  warm_up ((name, url) ∷ endpoints) w = warm_up endpoints (get_endpoint url w).1

  unfoldable pub rtt_entry : Text → ℕ → Result GoError Response → RttLog
  rtt_entry name elapsed (err e) = rtt_failed name e
  rtt_entry name elapsed (ok resp) = rtt name elapsed resp.status

  unfoldable pub measure : List (Text × Text) → W → List RttLog × W
  unfolding get_endpoint rtt_entry
  measure [] w = ([], w)
  measure ((name, url) ∷ endpoints) w =
      let (start, w1) = d.now_nanos w in
      let (r, w2) = get_endpoint url w1 in
      let (end, w3) = d.now_nanos w2 in
      let (entries, v) = measure endpoints w3 in (rtt_entry name (end - start) r ∷ entries, v)

  unfoldable pub log_rtt : W → List RttLog × W
  unfolding warm_up measure
  log_rtt w = measure rtt_endpoints (warm_up rtt_endpoints w)
