-- ===== src/Polymarket/Ws/Loop.antt =====
-- `wsLoop` and `wsSession` (polymarket/wsconn.go). What happens to each connection is an input, and the
-- calls of the callbacks and the waits are the result, in order. Waits are whole seconds.
use polymarket_go.Prelude.{
  ℕ, ◌*◌, Bool, true, false, List, [], ◌∷◌, ◌++◌, Text, lit, text_eq, if◌then◌else◌, min,
}

-- How a session ends: no connection, an error of `onConnect`, or an error after some frames.
pub data Session : Type 0 where
  dial_failed : Session
  connect_failed : Session
  dropped : List Text → Session

-- What follows it: another round, or a context that is done before or in the wait.
pub data Next : Type 0 where
  again stop_before_wait stop_in_wait : Next

pub data Effect : Type 0 where
  up down reconnected : Effect
  message : Text → Effect
  waited : ℕ → Effect

-- `backoff` and `firstConnect`.
pub record LoopState : Type 0 where
  pub backoff : ℕ
  pub first_connect : Bool

unfoldable pub start : LoopState
start = record { backoff = 1; first_connect = true }

-- Every frame but a pong is passed on.
unfoldable pub ws_read_loop : List Text → List Effect
ws_read_loop [] = []
ws_read_loop (raw ∷ frames) =
    let rest = ws_read_loop frames in if text_eq raw (lit "PONG") then rest else message raw ∷ rest

unfoldable pub ws_session : Session → LoopState → List Effect × LoopState
unfolding ws_read_loop
ws_session dial_failed s = ([], s)
ws_session connect_failed s = ([], s)
ws_session (dropped frames) s =
    let again' = if s.first_connect then [] else reconnected ∷ [] in
    (up ∷ again' ++ ws_read_loop frames, record s { backoff = 1 })

-- What the loop does after the session.
unfoldable pub after_session : LoopState → LoopState
after_session s = record { backoff = min (s.backoff * 2) 30; first_connect = false }

unfoldable pub ws_loop : List (Session × Next) → LoopState → List Effect
unfolding ws_session after_session
ws_loop [] s = []
ws_loop ((session, again) ∷ rounds) s =
    let (effects, s1) = ws_session session s in
    effects ++ down ∷ waited s1.backoff ∷ ws_loop rounds (after_session s1)
ws_loop ((session, stop_before_wait) ∷ rounds) s =
    let (effects, s1) = ws_session session s in effects ++ down ∷ []
ws_loop ((session, stop_in_wait) ∷ rounds) s =
    let (effects, s1) = ws_session session s in effects ++ down ∷ []
