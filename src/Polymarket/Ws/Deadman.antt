-- ===== src/Polymarket/Ws/Deadman.antt =====
-- `wsDeadman` and `wsPinger` of polymarket/wsconn.go. Time is in nanoseconds from the start of the
-- session; what reaches the goroutine is a list of signals, after which nothing comes any more.
use polymarket_go.Prelude.Words.{negsuc, u64, pos, to_int64, ℤ}
use polymarket_go.Prelude.{
  ◌≤◌, true, ◌∙◌, ap, ◌&&◌, refl, ◌++◌, lit, ◌==◌, [], arith, ◌<◌, false, if◌then◌else◌, ◌||◌, All,
  ◌≡◌, ◌∷◌, Text, ◌*◌, ◌+◌, ltb, List, Bool, ℕ,
}

pub data SignalKind : Type 0 where
  touched context_done : SignalKind

-- The time since the signal before it, and which one `select` takes when the timer fires at that
-- very moment.
pub record Signal : Type 0 where
  pub gap : ℕ
  pub kind : SignalKind
  pub before_timer : Bool

-- The goroutine returned, or it closed the connection at a time.
pub data DeadmanEnd : Type 0 where
  returned : DeadmanEnd
  closed_at : ℕ → DeadmanEnd

-- The signal is read before the timer fires.
abbrev pub in_time : ℕ → Signal → Bool
in_time timeout s = ltb s.gap timeout || (s.gap == timeout && s.before_timer)

-- The loop, at the time when the timer was set last; every touch sets it again.
unfoldable pub deadman_from : ℕ → ℕ → List Signal → DeadmanEnd
deadman_from timeout reset [] = closed_at (reset + timeout)
deadman_from timeout reset (s ∷ signals) =
    let rest = deadman_from timeout (reset + s.gap) signals in
    if in_time timeout s
    then elim s.kind [ context_done ↦ returned | touched ↦ rest ]
    else closed_at (reset + timeout)

-- A timer fires at once for a duration that is not positive.
abbrev pub timer_of : ℤ → ℕ
timer_of (pos n) = n
timer_of (negsuc n) = 0

-- `time.Duration(sec) * time.Second` on int64.
unfoldable pub timeout_of : ℕ → ℕ
timeout_of sec = timer_of (to_int64 (u64 (sec * 1000000000)))

-- `wsSession` starts it for a positive number of seconds only.
unfoldable pub ws_deadman : ℕ → List Signal → DeadmanEnd
unfolding deadman_from timeout_of
ws_deadman sec signals = deadman_from (timeout_of sec) 0 signals

-- What each tick of the ticker writes, until the context is done; the errors are dropped.
pub data Tick : Type 0 where
  tick stop : Tick

unfoldable pub ws_pinger : List Tick → List Text
ws_pinger [] = []
ws_pinger (stop ∷ ticks) = []
ws_pinger (tick ∷ ticks) = lit "PING" ∷ ws_pinger ticks

-- The touches of frames that come at these times after one another.
abbrev pub touches : List ℕ → List Signal
touches [] = []
touches (g ∷ gaps) = record { gap = g; kind = touched; before_timer = false } ∷ touches gaps

abbrev pub total : List ℕ → ℕ
total [] = 0
total (g ∷ gaps) = g + total gaps

abbrev pub IsLate : ℕ → List Signal → Type 0
IsLate timeout [] = Unit {0}
IsLate timeout (s ∷ signals) = timeout < s.gap

deadman_from-late :
    (timeout reset : ℕ) (signals : List Signal)
    → IsLate timeout signals
    → deadman_from timeout reset signals ≡ closed_at (reset + timeout)
unfolding deadman_from
deadman_from-late timeout reset [] h = refl
deadman_from-late timeout reset (s ∷ signals) h = ground arith

in_time-early : (timeout : ℕ) (s : Signal) → s.gap < timeout → in_time timeout s ≡ true
in_time-early timeout s h = ground arith

deadman_from-touches :
    (timeout reset : ℕ) (gaps : List ℕ) (signals : List Signal)
    → All (λ g. g < timeout) gaps
    → deadman_from timeout reset (touches gaps ++ signals)
      ≡ deadman_from timeout (reset + total gaps) signals
unfolding deadman_from
deadman_from-touches timeout reset [] signals h =
    ap (λ t. deadman_from timeout t signals) (omega arith)
deadman_from-touches timeout reset (g ∷ gaps) signals h =
    rw (in_time-early timeout (record { gap = g; kind = touched; before_timer = false }) h.0) (
      deadman_from-touches timeout (reset + g) gaps signals h.1
      ∙ ap (λ t. deadman_from timeout t signals) (omega arith))

deadman_from-done :
    (timeout reset : ℕ) (s : Signal) (signals : List Signal)
    → s.gap < timeout
    → s.kind ≡ context_done
    → deadman_from timeout reset (s ∷ signals) ≡ returned
unfolding deadman_from
deadman_from-done timeout reset s signals h k = rw (in_time-early timeout s h) (rw k refl)

timeout_of-seconds : (sec : ℕ) → sec ≤ 9223372036 → timeout_of sec ≡ sec * 1000000000
unfolding timeout_of
timeout_of-seconds sec h = ground arith

-- For a timeout of at most 9223372036 seconds, which int64 holds in nanoseconds: while frames come
-- closer together than the timeout the connection stays open. If after them nothing comes within the
-- timeout, the goroutine closes it, at the timeout after the last of them; and if instead the session
-- ends before that, it returns and closes nothing.
pub ws_deadman_closes :
    (sec : ℕ) (gaps : List ℕ) (late rest : List Signal) (done : Signal)
    → sec ≤ 9223372036
    → All (λ g. g < sec * 1000000000) gaps
    → IsLate (sec * 1000000000) late
    → done.gap < sec * 1000000000
    → done.kind ≡ context_done
    → (ws_deadman sec (touches gaps ++ late) ≡ closed_at (total gaps + sec * 1000000000))
      × (ws_deadman sec (touches gaps ++ done ∷ rest) ≡ returned)
unfolding ws_deadman
ws_deadman_closes sec gaps late rest done small h l g k =
    let timeout = sec * 1000000000 in
    rw (timeout_of-seconds sec small) (
      deadman_from-touches timeout 0 gaps late h
          ∙ deadman_from-late timeout (0 + total gaps) late l
          ∙ ap closed_at (omega arith),
      deadman_from-touches timeout 0 gaps (done ∷ rest) h
          ∙ deadman_from-done timeout (0 + total gaps) done rest g k,
    )
