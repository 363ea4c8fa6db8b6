-- ===== src/Polymarket/Ws/LoopLaws.antt =====
-- The order of the callbacks and the waits of the connection loop (polymarket/wsconn.go).
use polymarket_go.Prelude.{
  ℕ, zero, suc, ◌*◌, ◌^◌, ◌≤◌, ◌≡◌, refl, Bool, true, false, List, [], ◌∷◌, ◌++◌, Text, lit,
  text_eq, min, Bool-cases, inl, inr, arith, replicate,
}
use polymarket_go.Polymarket.Ws.Loop.{
  Session, dial_failed, connect_failed, dropped, Next, again, stop_before_wait, stop_in_wait,
  Effect, up, down, reconnected, message, waited, LoopState, start, ws_read_loop, ws_session,
  after_session, ws_loop,
}

-- The connection as the callbacks see it, read from the left: frames and reconnects come between an up
-- and the next down; a down may come without an up.
abbrev pub IsOrderly : Bool → List Effect → Type 0
IsOrderly b [] = b ≡ false
IsOrderly b (up ∷ es) = (b ≡ false) × IsOrderly true es
IsOrderly b (down ∷ es) = IsOrderly false es
IsOrderly b (reconnected ∷ es) = (b ≡ true) × IsOrderly b es
IsOrderly b (message raw ∷ es) = (b ≡ true) × (text_eq raw (lit "PONG") ≡ false) × IsOrderly b es
IsOrderly b (waited n ∷ es) = (b ≡ false) × (1 ≤ n) × (n ≤ 30) × IsOrderly b es

ws_read_loop-IsOrderly :
    (frames : List Text) (es : List Effect)
    → IsOrderly true es
    → IsOrderly true (ws_read_loop frames ++ es)
unfolding ws_read_loop
ws_read_loop-IsOrderly [] es h = h
ws_read_loop-IsOrderly (raw ∷ frames) es h =
    let k = ws_read_loop-IsOrderly frames es h in
    elim (Bool-cases (text_eq raw (lit "PONG"))) [ inl t ↦ rw t k | inr f ↦ rw f (refl, f, k) ]

ws_session-IsOrderly :
    (session : Session) (s : LoopState) (es : List Effect)
    → IsOrderly false es
    → IsOrderly false ((ws_session session s).0 ++ down ∷ es)
unfolding ws_session
ws_session-IsOrderly dial_failed s es h = h
ws_session-IsOrderly connect_failed s es h = h
ws_session-IsOrderly (dropped frames) s es h = elim (Bool-cases s.first_connect) [
  | inl t ↦ rw t (refl, ws_read_loop-IsOrderly frames (down ∷ es) h)
  | inr f ↦ rw f (refl, (refl, ws_read_loop-IsOrderly frames (down ∷ es) h))
]

abbrev pub IsBackoff : LoopState → Type 0
IsBackoff s = (1 ≤ s.backoff) × (s.backoff ≤ 30)

ws_session-IsBackoff :
    (session : Session) (s : LoopState) → IsBackoff s → IsBackoff (ws_session session s).1
unfolding ws_session
ws_session-IsBackoff dial_failed s h = h
ws_session-IsBackoff connect_failed s h = h
ws_session-IsBackoff (dropped frames) s h = (omega arith, omega arith)

after_session-IsBackoff : (s : LoopState) → IsBackoff s → IsBackoff (after_session s)
unfolding after_session
after_session-IsBackoff s h = (omega (arith, h.0, h.1), omega (arith, h.0, h.1))

-- From a wait of one to thirty seconds, every run of the loop is orderly: no frame and no reconnect
-- outside a connection, no pong passed on, each up closed by a down, and each wait, of one to thirty
-- seconds, between two connections.
pub ws_loop-IsOrderly :
    (rounds : List (Session × Next)) (s : LoopState)
    → IsBackoff s
    → IsOrderly false (ws_loop rounds s)
unfolding ws_loop
ws_loop-IsOrderly [] s h = refl
ws_loop-IsOrderly ((session, again) ∷ rounds) s h =
    let s1 = (ws_session session s).1 in
    let b = ws_session-IsBackoff session s h in
    ws_session-IsOrderly session s (waited s1.backoff ∷ ws_loop rounds (after_session s1))
      (refl, b.0, b.1, ws_loop-IsOrderly rounds (after_session s1) (after_session-IsBackoff s1 b))
ws_loop-IsOrderly ((session, stop_before_wait) ∷ rounds) s h =
    ws_session-IsOrderly session s [] refl
ws_loop-IsOrderly ((session, stop_in_wait) ∷ rounds) s h = ws_session-IsOrderly session s [] refl

abbrev pub waits : List Effect → List ℕ
waits [] = []
waits (up ∷ es) = waits es
waits (down ∷ es) = waits es
waits (reconnected ∷ es) = waits es
waits (message raw ∷ es) = waits es
waits (waited n ∷ es) = n ∷ waits es

-- The waits that k failures ask for: doubled each time, at most thirty.
abbrev pub doubling : ℕ → ℕ → List ℕ
doubling i zero = []
doubling i (suc k) = min (2 ^ i) 30 ∷ doubling (suc i) k

abbrev pub failures : ℕ → List (Session × Next)
failures k = replicate k (dial_failed, again)

doubled : (i b : ℕ) → b ≡ min (2 ^ i) 30 → min (b * 2) 30 ≡ min (2 ^ suc i) 30
doubled i b h = rw h (omega arith)

cons_eq : (a b : ℕ) (xs ys : List ℕ) → a ≡ b → xs ≡ ys → a ∷ xs ≡ b ∷ ys
cons_eq a b xs ys h k = rw (h, k) refl

doubles_from :
    (k i : ℕ) (s : LoopState)
    → s.backoff ≡ min (2 ^ i) 30
    → waits (ws_loop (failures k) s) ≡ doubling i k
unfolding ws_loop ws_session after_session
doubles_from zero i s h = refl
doubles_from (suc k) i s h =
    cons_eq s.backoff (min (2 ^ i) 30) _ _ h
      (doubles_from k (suc i) (after_session s) (doubled i s.backoff h))

-- Of connections that fail one after the other, the waits are 1, 2, 4, … seconds, at most thirty.
pub ws_loop_doubles : (k : ℕ) → waits (ws_loop (failures k) start) ≡ doubling 0 k
unfolding start
ws_loop_doubles k = doubles_from k 0 start (omega arith)
