-- ===== src/Polymarket/Scanner/Http.antt =====
-- `httpGet` and `backoff` of polymarket/scanner.go.
use polymarket_go.Prelude.Strings.{decimal}
use polymarket_go.Prelude.{
  if◌then◌else◌, ◌^◌, ◌==◌, ◌++◌, ℕ, zero, suc, ok, ltb, lit, leb, err, [], Text, Result,
}
use polymarket_go.Clob.Effects.{Io}
use polymarket_go.Clob.Errors.{wrapped, failed, GoError}
use polymarket_go.Clob.Deps.{Response, Deps}

-- What one attempt comes to: a body, an error that ends the call, or one that is tried again.
pub data Attempt : Type 0 where
  body : Text → Attempt
  fatal : GoError → Attempt
  again : GoError → Attempt

abbrev pub retry_attempts : ℕ
retry_attempts = 3

abbrev pub http_status : ℕ → GoError
http_status status = failed (lit "HTTP " ++ decimal status)

unfoldable pub judge_status : ℕ → Text → Attempt
judge_status status text =
    if leb 500 status
    then again (http_status status)
    else if status == 200
    then body text
    else fatal (http_status status)

-- A failure of the request, or of reading the body, is tried again.
unfoldable pub judge_reply : {W : Type 0} → Result GoError Response × W → Attempt × W
unfolding judge_status
judge_reply (err e, w) = (again e, w)
judge_reply (ok resp, w) = elim resp.body [
  | err e ↦ (again e, w)
  | ok text ↦ (judge_status resp.status text, w)
]

module _ {W : Type 0} (d : Deps W) (endpoint : Text) where
  unfoldable pub attempt_get : W → Attempt × W
  unfolding judge_reply
  attempt_get w =
      elim (d.new_request
        (record { method = lit "GET"; url = endpoint; headers = []; body = [] })) [
          | err e ↦ (fatal e, w)
          | ok req ↦ judge_reply (d.http_do req w)
        ]

  -- No pause after the last attempt.
  unfoldable pub backoff : ℕ → W → W
  backoff i w = if ltb i retry_attempts then d.sleep (2 ^ i) w else w

  -- The loop, with the attempts left, the number of the next one and the last error.
  unfoldable pub get_from : ℕ → ℕ → GoError → Io W Text
  unfolding backoff
  get_from zero i last_err w = (err (wrapped (lit "retries exhausted") last_err), w)
  get_from (suc left) i last_err w =
      let (a, v) = attempt_get w in
      elim a [
        | body text ↦ (ok text, v)
        | fatal e ↦ (err e, v)
        | again e ↦ get_from left (suc i) e (backoff i v)
      ]

  -- The first attempt is number 1; the error before it is never read.
  unfoldable pub http_get : Io W Text
  unfolding get_from
  http_get w = get_from retry_attempts 1 (failed []) w
