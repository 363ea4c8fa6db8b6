-- ===== src/Clob/Relayer/WaitLaws.antt =====
-- Which polls end the wait for a transaction, and with what (clob/relayer.go).
use polymarket_go.Clob.Relayer.PollLaws.{more, here, wait_for_confirmed-Undecided, Undecided}
use polymarket_go.Prelude.Strings.{to_lower, contains}
use polymarket_go.Clob.Errors.{
  relayer_rate_limited, estimate_reverted, batch_too_large, message, inner_relayed_call_failed,
  failed, relayer_guard_gas, is_error, GoError,
}
use polymarket_go.Clob.Onchain.{OnChainClient}
use polymarket_go.Clob.Relayer.Poll.{
  failure_text, reverted, confirmed, fill_tx_result, stopped, wait_for_confirmed, poll_transaction,
  wait_round, decide, Waited, Polled, classify_relayer_failure, TxResult,
}
use polymarket_go.Clob.Deps.{Deps}
use polymarket_go.Prelude.{
  refl, subst, is_empty, text_eq, Option-cases, text_eq_refl, text_eq-ne, ◌&&◌, arith, inr, not,
  ◌==◌, suc, ◌≢◌, inl, ◌||◌, some, none, false, true, ok, ◌++◌, Bool-cases, lit, ◌<◌, ◌≡◌, zero,
  err, ℕ, Bool, Result, Text,
}

module _ {W : Type 0} (d : Deps W) (oc : OnChainClient) (tx_id : Text) where
  abbrev pub poll : W → Result GoError Polled × W
  poll = poll_transaction d oc (lit "/transaction?id=" ++ tx_id)

  -- The polls after which the wait goes on: one that failed, one without a state, and one that reports
  -- a state other than CONFIRMED of a transaction that has not failed.
  pub data IsWaiting : Result GoError Polled → Type 0 where
    poll_failed : (e : GoError) → IsWaiting (err e)
    no_state : IsWaiting (ok none)
    in_progress :
        (r : TxResult) (state : Text)
        → r.status ≢ 0
        → state ≢ lit "CONFIRMED"
        → IsWaiting (ok (some (r, state)))

  -- Ticks with such polls, one after the other.
  pub data Waiting : ℕ → W → W → Type 0 where
    not_yet : {w : W} → Waiting zero w w
    one_poll :
        {n : ℕ} {w w1 w2 u : W} {p : Result GoError Polled}
        → d.await_tick w ≡ (true, w1)
        → poll w1 ≡ (p, w2)
        → IsWaiting p
        → Waiting n w2 u
        → Waiting (suc n) w u

  -- What ends the wait: a context that is done, a poll that reports CONFIRMED, and one that reports a
  -- failure. The result is filled in from the receipt.
  pub data Decides : W → Waited → W → Type 0 where
    cancelled : {w u : W} → d.await_tick w ≡ (false, u) → Decides w stopped u
    confirms :
        {w w1 w2 u : W} {r r1 : TxResult}
        → d.await_tick w ≡ (true, w1)
        → poll w1 ≡ (ok (some (r, lit "CONFIRMED")), w2)
        → r.status ≢ 0
        → fill_tx_result d oc r w2 ≡ (r1, u)
        → Decides w (confirmed r1) u
    fails :
        {w w1 w2 u : W} {r r1 : TxResult} {state : Text}
        → d.await_tick w ≡ (true, w1)
        → poll w1 ≡ (ok (some (r, state)), w2)
        → r.status ≡ 0
        → fill_tx_result d oc r w2 ≡ (r1, u)
        → Decides w (reverted r1 (classify_relayer_failure r1 (failure_text d oc tx_id r1))) u

  decide-IsWaiting :
      (p : Result GoError Polled) (w : W) → IsWaiting p → decide d oc tx_id (p, w) ≡ (none, w)
  unfolding decide
  decide-IsWaiting _ w (poll_failed e) = refl
  decide-IsWaiting _ w no_state = refl
  decide-IsWaiting _ w (in_progress r state a b) =
      let zero? : (r.status == 0) ≡ false = ground arith in
      rw (zero?, text_eq-ne state (lit "CONFIRMED") b) refl

  wait_round-IsWaiting :
      (w w1 w2 : W) (p : Result GoError Polled)
      → d.await_tick w ≡ (true, w1)
      → poll w1 ≡ (p, w2)
      → IsWaiting p
      → wait_round d oc tx_id w ≡ (none, w2)
  unfolding wait_round
  wait_round-IsWaiting w w1 w2 p t e h = rw (t, e) (decide-IsWaiting p w2 h)

  wait_round-Decides :
      (w u : W) (o : Waited) → Decides w o u → wait_round d oc tx_id w ≡ (some o, u)
  unfolding wait_round decide
  wait_round-Decides w u _ (cancelled t) = rw t refl
  wait_round-Decides w u _ (confirms {r = r} t e s f) =
      let zero? : (r.status == 0) ≡ false = ground arith in
      rw (t, e, zero?, text_eq_refl (lit "CONFIRMED"), f) refl
  wait_round-Decides w u _ (fails {r = r} t e s f) =
      let zero? : (r.status == 0) ≡ true = ground arith in rw (t, e, zero?, f) refl

  Waiting-Undecided : (n : ℕ) (w v : W) → Waiting n w v → Undecided d oc tx_id n w v
  Waiting-Undecided _ w v not_yet = here
  Waiting-Undecided _ w v (one_poll t e h rest) =
      more (wait_round-IsWaiting w _ _ _ t e h) (Waiting-Undecided _ _ v rest)

  -- If n ticks bring polls that failed, that had no state, or whose state was neither CONFIRMED nor a
  -- failure, and the next event is a context that is done, a poll of CONFIRMED or a poll of a failure, then
  -- the wait ends with that event, with any fuel above n: with no result, with the confirmed result, or
  -- with the failed one and its classified error.
  pub wait_for_confirmed_first :
      (fuel : ℕ) {n : ℕ} {w v : W} (u : W) (o : Waited)
      → n < fuel
      → Waiting n w v
      → Decides v o u
      → wait_for_confirmed d oc fuel tx_id w ≡ some (o, u)
  wait_for_confirmed_first fuel {n = n} {w = w} {v = v} u o lt r h =
      wait_for_confirmed-Undecided d oc tx_id fuel u o lt (Waiting-Undecided n w v r)
        (wait_round-Decides v u o h)

-- The kind of an error that a failed transaction gets, by what the result and the error say.
abbrev pub says_gas : TxResult → GoError → Bool
says_gas r e =
    contains (to_lower r.error_msg) (lit "not enough gasleft")
    || contains (to_lower (message e)) (lit "not enough gasleft")

abbrev pub says_inner : TxResult → Bool
says_inner r =
    contains (to_lower r.error_msg) (lit "internal transaction failure")
    || contains (to_lower r.error_msg) (lit "captured a revert")
    || r.status == 1

-- By `errors.Is`: the guard's gas where the text says so, else the inner call where the text or the
-- receipt says so, and no other sentinel.
pub record IsClassified (r : TxResult) (plain e : GoError) : Type 0 where
  pub gas : is_error e relayer_guard_gas ≡ says_gas r plain
  pub inner : is_error e inner_relayed_call_failed ≡ (not (says_gas r plain) && says_inner r)
  pub no_batch : is_error e batch_too_large ≡ false
  pub no_estimate : is_error e estimate_reverted ≡ false
  pub no_limit : is_error e relayer_rate_limited ≡ false

classify_relayer_failure-IsClassified :
    (r : TxResult) (text : Text)
    → IsClassified r (failed text) (classify_relayer_failure r (failed text))
unfolding classify_relayer_failure is_error
classify_relayer_failure-IsClassified r text = elim (Bool-cases (says_gas r (failed text))) [
  | inl g ↦ record {
    gas = rw g refl;
    inner = rw g refl;
    no_batch = rw g refl;
    no_estimate = rw g refl;
    no_limit = rw g refl;
  }
  | inr g ↦ elim (Bool-cases (says_inner r)) [
    | inl i ↦ record {
      gas = rw (g, i) refl;
      inner = rw (g, i) refl;
      no_batch = rw (g, i) refl;
      no_estimate = rw (g, i) refl;
      no_limit = rw (g, i) refl;
    }
    | inr i ↦ record {
      gas = rw (g, i) refl;
      inner = rw (g, i) refl;
      no_batch = rw (g, i) refl;
      no_estimate = rw (g, i) refl;
      no_limit = rw (g, i) refl;
    }
  ]
]

module _ {W : Type 0} (d : Deps W) (oc : OnChainClient) (tx_id : Text) where
  failure_text-IsClassified :
      (r : TxResult)
      → IsClassified r
          (failure_text d oc tx_id r)
          (classify_relayer_failure r (failure_text d oc tx_id r))
  failure_text-IsClassified r = elim (Bool-cases (is_empty r.error_msg)) [
    | inl m ↦ rw m (classify_relayer_failure-IsClassified r _)
    | inr m ↦ rw m (classify_relayer_failure-IsClassified r _)
  ]

  -- What stands behind a failed transaction: a poll that reported the status 0, after which the
  -- receipt was read, and the error's kind.
  pub record Failure (p : Result GoError Polled × W) (r : TxResult) (e : GoError) (v : W)
      : Type 0 where
    pub polled : TxResult
    pub state : Text
    pub after : W
    pub reported : p ≡ (ok (some (polled, state)), after)
    pub failed_status : polled.status ≡ 0
    pub filled : fill_tx_result d oc polled after ≡ (r, v)
    pub classified : IsClassified r (failure_text d oc tx_id r) e

  decide-Failure :
      (p : Result GoError Polled × W) (r : TxResult) (e : GoError) (v : W)
      → decide d oc tx_id p ≡ (some (reverted r e), v)
      → Failure p r e v
  unfolding decide
  decide-Failure (err e0, w) r e v h = absurd (ground arith)
  decide-Failure (ok none, w) r e v h = absurd (ground arith)
  decide-Failure (ok (some (r0, state)), w) r e v h = elim (Bool-cases (r0.status == 0)) [
    | inr z ↦ elim (Bool-cases (text_eq state (lit "CONFIRMED"))) [
      | inr c ↦ absurd (ground arith)
      | inl c ↦ absurd (ground arith)
    ]
    | inl z ↦
        let r1 = (fill_tx_result d oc r0 w).0 in
        let same : r1 ≡ r = ground arith in
        let kind1 : classify_relayer_failure r1 (failure_text d oc tx_id r1) ≡ e = ground arith in
        let kind =
          subst (λ x. classify_relayer_failure x (failure_text d oc tx_id x) ≡ e) same kind1 in
        record {
          polled = r0;
          state = state;
          after = w;
          reported = refl;
          failed_status = ground arith;
          filled = ground arith;
          classified =
              subst (IsClassified r (failure_text d oc tx_id r)) kind (failure_text-IsClassified r);
        }
  ]

  -- A wait that returns a result with an error stopped at a poll that reported the status 0, after
  -- rounds that decided nothing. The result is that poll's, filled in from the receipt; the error
  -- counts as the guard's gas where the relayer's message or the error's text says "not enough
  -- gasleft", else as a failed inner call where the message says so or the receipt has the status 1,
  -- and as no other sentinel.
  pub wait_for_confirmed-Failure :
      (fuel : ℕ) (w u : W) (r : TxResult) (e : GoError)
      → wait_for_confirmed d oc fuel tx_id w ≡ some (reverted r e, u)
      → (n : ℕ) × (v : W) × Undecided d oc tx_id n w v
        × Failure (poll d oc tx_id (d.await_tick v).1) r e u
  unfolding wait_for_confirmed wait_round
  wait_for_confirmed-Failure zero w u r e h = absurd (ground arith)
  wait_for_confirmed-Failure (suc fuel) w u r e h =
      elim (Option-cases (wait_round d oc tx_id w).0) [
        | inl q ↦
            let v = (wait_round d oc tx_id w).1 in
            let k : wait_for_confirmed d oc fuel tx_id v ≡ some (reverted r e, u) = ground arith in
            let (n, x, rounds, c) = wait_for_confirmed-Failure fuel v u r e k in
            (suc n, x, more (ground arith) rounds, c)
        | inr (o, q) ↦ elim (Bool-cases (d.await_tick w).0) [
          | inl t ↦ (zero, w, here, decide-Failure _ r e u (ground arith))
          | inr t ↦ absurd (ground arith)
        ]
      ]
