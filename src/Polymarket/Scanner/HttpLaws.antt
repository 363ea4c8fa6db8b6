-- ===== src/Polymarket/Scanner/HttpLaws.antt =====
-- How a request with retries ends (polymarket/scanner.go).
use polymarket_go.Prelude.Strings.{decimal}
use polymarket_go.Polymarket.Scanner.Http.{
  judge_status, again, fatal, body, http_get, attempt_get, judge_reply, Attempt, get_from, backoff,
}
use polymarket_go.Clob.Errors.{wrapped, failed, GoError}
use polymarket_go.Clob.Deps.{Response, Request, Deps}
use polymarket_go.Prelude.{
  ◌==◌, leb, Bool-cases, inl, refl, inr, Result-cases, subst, ◌++◌, arith, ◌≢◌, ◌≤◌, zero, ok, ◌+◌,
  ◌<◌, ◌≡◌, err, suc, [], lit, ℕ, Result, Text,
}

module _ {W : Type 0} (d : Deps W) (endpoint : Text) where
  -- The request of every attempt.
  abbrev pub get_request : Request
  get_request = record { method = lit "GET"; url = endpoint; headers = []; body = [] }

  -- The failures that are tried again: no reply, a body that cannot be read, and a status from 500 on.
  pub data IsTransient : Result GoError Response → GoError → Type 0 where
    no_reply : (e : GoError) → IsTransient (err e) e
    no_body : (resp : Response) (e : GoError) → resp.body ≡ err e → IsTransient (ok resp) e
    server_error :
        (resp : Response) (text : Text)
        → resp.body ≡ ok text
        → 500 ≤ resp.status
        → IsTransient (ok resp) (failed (lit "HTTP " ++ decimal resp.status))

  -- The pause after an attempt, in seconds: two, four, and none after the third.
  pub data Paused : ℕ → W → W → Type 0 where
    two_seconds : (w : W) → Paused 1 w (d.sleep 2 w)
    four_seconds : (w : W) → Paused 2 w (d.sleep 4 w)
    no_pause : (w : W) → Paused 3 w w

  -- From attempt number i on, n attempts in a row that failed and were tried again; the last error
  -- is e.
  pub data Retries : ℕ → ℕ → GoError → W → GoError → W → Type 0 where
    no_more : {i : ℕ} {e : GoError} {w : W} → Retries 0 i e w e w
    one_more :
        {n i : ℕ} {e0 e e1 : GoError} {w w1 w2 u : W} {req : Request}
        {reply : Result GoError Response}
        → d.new_request get_request ≡ ok req
        → d.http_do req w ≡ (reply, w1)
        → IsTransient reply e1
        → Paused i w1 w2
        → Retries n (suc i) e1 w2 e u
        → Retries (suc n) i e0 w e u

  -- The ways to end, for `left` attempts from number i on.
  pub data Ending (left i : ℕ) (e0 : GoError) (w : W) : Result GoError Text × W → Type 0 where
    succeeded :
        {n : ℕ} {e : GoError} {v u : W} {req : Request} {resp : Response} {text : Text}
        → n < left
        → Retries n i e0 w e v
        → d.new_request get_request ≡ ok req
        → d.http_do req v ≡ (ok resp, u)
        → resp.body ≡ ok text
        → resp.status ≡ 200
        → Ending left i e0 w (ok text, u)
    refused :
        {n : ℕ} {e : GoError} {v u : W} {req : Request} {resp : Response} {text : Text}
        → n < left
        → Retries n i e0 w e v
        → d.new_request get_request ≡ ok req
        → d.http_do req v ≡ (ok resp, u)
        → resp.body ≡ ok text
        → resp.status < 500
        → resp.status ≢ 200
        → Ending left i e0 w (err (failed (lit "HTTP " ++ decimal resp.status)), u)
    unsendable :
        {n : ℕ} {e e1 : GoError} {v : W}
        → n < left
        → Retries n i e0 w e v
        → d.new_request get_request ≡ err e1
        → Ending left i e0 w (err e1, v)
    exhausted :
        {e : GoError} {v : W}
        → Retries left i e0 w e v
        → Ending left i e0 w (err (wrapped (lit "retries exhausted") e), v)

  -- One more failed attempt before an ending.
  retried :
      {left i : ℕ} {e0 e1 : GoError} {w w1 w2 : W} {req : Request} {reply : Result GoError Response}
      {r : Result GoError Text × W}
      → d.new_request get_request ≡ ok req
      → d.http_do req w ≡ (reply, w1)
      → IsTransient reply e1
      → Paused i w1 w2
      → Ending left (suc i) e1 w2 r
      → Ending (suc left) i e0 w r
  retried q h t p (succeeded lt rs a b c f) = succeeded (omega arith) (one_more q h t p rs) a b c f
  retried q h t p (refused lt rs a b c f g) = refused (omega arith) (one_more q h t p rs) a b c f g
  retried q h t p (unsendable lt rs a) = unsendable (omega arith) (one_more q h t p rs) a
  retried q h t p (exhausted rs) = exhausted (one_more q h t p rs)

  backoff-Paused : (left i : ℕ) (w : W) → 0 < i → left + i ≡ 3 → Paused i w (backoff d endpoint i w)
  unfolding backoff
  backoff-Paused zero i w p h =
      let e : 3 ≡ i = omega arith in subst (λ n. Paused n w (backoff d endpoint n w)) e (no_pause w)
  backoff-Paused (suc zero) i w p h =
      let e : 2 ≡ i = omega arith in
      subst (λ n. Paused n w (backoff d endpoint n w)) e (four_seconds w)
  backoff-Paused (suc (suc zero)) i w p h =
      let e : 1 ≡ i = omega arith in
      subst (λ n. Paused n w (backoff d endpoint n w)) e (two_seconds w)
  backoff-Paused (suc (suc (suc left))) i w p h = absurd (omega arith)

  get_from_body :
      (left i : ℕ) (e0 : GoError) (w v : W) (t : Text)
      → attempt_get d endpoint w ≡ (body t, v)
      → get_from d endpoint (suc left) i e0 w ≡ (ok t, v)
  unfolding get_from
  get_from_body left i e0 w v t h = ground arith

  get_from_fatal :
      (left i : ℕ) (e0 : GoError) (w v : W) (e : GoError)
      → attempt_get d endpoint w ≡ (fatal e, v)
      → get_from d endpoint (suc left) i e0 w ≡ (err e, v)
  unfolding get_from
  get_from_fatal left i e0 w v e h = ground arith

  get_from_again :
      (left i : ℕ) (e0 : GoError) (w v : W) (e : GoError)
      → attempt_get d endpoint w ≡ (again e, v)
      → get_from d endpoint (suc left) i e0 w
        ≡ get_from d endpoint left (suc i) e (backoff d endpoint i v)
  unfolding get_from
  get_from_again left i e0 w v e h = ground arith

  -- What an attempt comes to, by the calls of the libraries.
  pub data Tried (w : W) : Attempt × W → Type 0 where
    no_request : {e : GoError} → d.new_request get_request ≡ err e → Tried w (fatal e, w)
    failed_reply :
        {req : Request} {reply : Result GoError Response} {v : W} {e : GoError}
        → d.new_request get_request ≡ ok req
        → d.http_do req w ≡ (reply, v)
        → IsTransient reply e
        → Tried w (again e, v)
    good_reply :
        {req : Request} {resp : Response} {text : Text} {v : W}
        → d.new_request get_request ≡ ok req
        → d.http_do req w ≡ (ok resp, v)
        → resp.body ≡ ok text
        → resp.status ≡ 200
        → Tried w (body text, v)
    bad_reply :
        {req : Request} {resp : Response} {text : Text} {v : W}
        → d.new_request get_request ≡ ok req
        → d.http_do req w ≡ (ok resp, v)
        → resp.body ≡ ok text
        → resp.status < 500
        → resp.status ≢ 200
        → Tried w (fatal (failed (lit "HTTP " ++ decimal resp.status)), v)

  judge_reply-Tried :
      (w : W) (req : Request) (reply : Result GoError Response) (v : W)
      → d.new_request get_request ≡ ok req
      → d.http_do req w ≡ (reply, v)
      → Tried w (judge_reply (reply, v))
  unfolding judge_reply judge_status
  judge_reply-Tried w req (err e) v q h = failed_reply q h (no_reply e)
  judge_reply-Tried w req (ok resp) v q h = elim (Result-cases resp.body) [
    | inr (e, b) ↦ rw b (failed_reply q h (no_body resp e b))
    | inl (text, b) ↦ rw b (elim (Bool-cases (leb 500 resp.status)) [
      | inl t ↦ rw t (failed_reply q h (server_error resp text b (ground arith)))
      | inr t ↦ rw t (elim (Bool-cases (resp.status == 200)) [
        | inl g ↦ rw g (good_reply q h b (ground arith))
        | inr g ↦ rw g (bad_reply q h b (ground arith) (ground arith))
      ])
    ])
  ]

  attempt_get-Tried : (w : W) → Tried w (attempt_get d endpoint w)
  unfolding attempt_get
  attempt_get-Tried w = elim (Result-cases (d.new_request get_request)) [
    | inr (e, q) ↦ rw (q, attempt_get) (no_request q)
    | inl (req, q) ↦
        rw (q, attempt_get) (judge_reply-Tried w req (d.http_do req w).0 (d.http_do req w).1 q refl)
  ]

  get_from-Tried-Ending :
      (left i : ℕ) (e0 : GoError) (w : W) (a : Attempt × W)
      → 0 < i
      → left + i ≡ 3
      → attempt_get d endpoint w ≡ a
      → Tried w a
      → ((e : GoError) (v : W) → Ending left (suc i) e v (get_from d endpoint left (suc i) e v))
      → Ending (suc left) i e0 w (get_from d endpoint (suc left) i e0 w)
  get_from-Tried-Ending left i e0 w _ p h k (no_request q) rest =
      rw (get_from_fatal left i e0 w _ _ k) (unsendable (omega arith) no_more q)
  get_from-Tried-Ending left i e0 w _ p h k (failed_reply {v = v} {e = e} q r t) rest =
      rw (get_from_again left i e0 w v e k)
        (retried q r t (backoff-Paused left i v p h) (rest e (backoff d endpoint i v)))
  get_from-Tried-Ending left i e0 w _ p h k (good_reply q r b s) rest =
      rw (get_from_body left i e0 w _ _ k) (succeeded (omega arith) no_more q r b s)
  get_from-Tried-Ending left i e0 w _ p h k (bad_reply q r b s t) rest =
      rw (get_from_fatal left i e0 w _ _ k) (refused (omega arith) no_more q r b s t)

  get_from-Ending :
      (left i : ℕ) (e0 : GoError) (w : W)
      → 0 < i
      → left + i ≡ 4
      → Ending left i e0 w (get_from d endpoint left i e0 w)
  unfolding get_from
  get_from-Ending zero i e0 w p h = exhausted no_more
  get_from-Ending (suc left) i e0 w p h =
      get_from-Tried-Ending left i e0 w _ p (omega arith) refl (attempt_get-Tried w)
        (λ e v. get_from-Ending left (suc i) e v (omega arith) (omega arith))

  -- Every call ends, after at most three attempts. It returns the body of the first reply of status
  -- 200. A request that gets no reply, a body that cannot be read and a status from 500 on are tried
  -- again, after a pause of two and then of four seconds; after the third such failure the call fails
  -- with it inside. Any other status, or a request that cannot be made, ends the call with an error.
  pub http_get-Ending : (w : W) → Ending 3 1 (failed []) w (http_get d endpoint w)
  unfolding http_get
  http_get-Ending w = get_from-Ending 3 1 (failed []) w (omega arith) (omega arith)
