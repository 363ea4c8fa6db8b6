-- ===== src/Clob/Relayer/PollLaws.antt =====
-- What a poll decides, and that the wait of clob/relayer.go ends with the first poll that does.
use polymarket_go.Prelude.{
  Option-cases, text_eq_iff, ap, refl, text_eq, ◌==◌, ◌≢◌, inr, ◌++◌, err, ok, ◌∙◌, inl, lit,
  Result, ◌<◌, Bool-cases, ℕ, zero, suc, ◌≡◌, true, false, [], Text, none, some, arith, ◌⊎◌,
}
use polymarket_go.Clob.Errors.{GoError}
use polymarket_go.Clob.Deps.{Deps, RelayerTx}
use polymarket_go.Clob.Onchain.{OnChainClient}
use polymarket_go.Clob.Relayer.Poll.{
  new_result, TxResult, Polled, normal_state, is_good_state, is_bad_state, settle, Waited,
  confirmed, decide, wait_round, wait_for_confirmed, poll_transaction, fill_tx_result,
}

-- A result is given for five states only, after upper-casing and without the prefix "STATE_": its
-- status is 1 for EXECUTED, CONFIRMED and MINED, and 0, with the relayer's message, for FAILED and
-- INVALID; for any other state there is none.
pub settle_cases :
    (tx : RelayerTx)
    → ((is_good_state (normal_state tx.state) ≡ true)
        × ((r : TxResult) × (settle tx ≡ some (r, normal_state tx.state))
            × (r.status ≡ 1)
            × (r.tx_hash ≡ tx.tx_hash)))
      ⊎ ((is_bad_state (normal_state tx.state) ≡ true)
          × ((r : TxResult) × (settle tx ≡ some (r, normal_state tx.state))
              × (r.status ≡ 0)
              × (r.error_msg ≡ tx.error_msg)))
      ⊎ ((is_good_state (normal_state tx.state) ≡ false)
          × (is_bad_state (normal_state tx.state) ≡ false)
          × (settle tx ≡ none))
unfolding settle
settle_cases tx = elim (Bool-cases (is_good_state (normal_state tx.state))) [
  | inl g ↦ inl (g, (new_result tx 1 [], rw (g, settle), refl, refl))
  | inr g ↦ elim (Bool-cases (is_bad_state (normal_state tx.state))) [
    | inl b ↦ inr (inl (b, (new_result tx 0 tx.error_msg, rw (g, b, settle), refl, refl)))
    | inr b ↦ inr (inr (g, b, rw (g, b, settle)))
  ]
]

module _ {W : Type 0} (d : Deps W) (oc : OnChainClient) (tx_id : Text) where
  -- Rounds that decide nothing, one after the other.
  pub data Undecided : ℕ → W → W → Type 0 where
    here : {w : W} → Undecided zero w w
    more :
        {n : ℕ} {w v u : W}
        → wait_round d oc tx_id w ≡ (none, v)
        → Undecided n v u
        → Undecided (suc n) w u

  wait_for_confirmed_decided :
      (fuel : ℕ) (w v : W) (o : Waited)
      → wait_round d oc tx_id w ≡ (some o, v)
      → wait_for_confirmed d oc (suc fuel) tx_id w ≡ some (o, v)
  unfolding wait_for_confirmed
  wait_for_confirmed_decided fuel w v o h = ground arith

  wait_for_confirmed_undecided :
      (fuel : ℕ) (w v : W)
      → wait_round d oc tx_id w ≡ (none, v)
      → wait_for_confirmed d oc (suc fuel) tx_id w ≡ wait_for_confirmed d oc fuel tx_id v
  unfolding wait_for_confirmed
  wait_for_confirmed_undecided fuel w v h = ground arith

  -- If n rounds decide nothing and the next one does, the wait returns what that round decides,
  -- with any fuel above n.
  pub wait_for_confirmed-Undecided :
      (fuel : ℕ) {n : ℕ} {w v : W} (u : W) (o : Waited)
      → n < fuel
      → Undecided n w v
      → wait_round d oc tx_id v ≡ (some o, u)
      → wait_for_confirmed d oc fuel tx_id w ≡ some (o, u)
  wait_for_confirmed-Undecided zero u o lt r h = absurd (omega arith)
  wait_for_confirmed-Undecided (suc fuel) u o lt here h = wait_for_confirmed_decided fuel _ u o h
  wait_for_confirmed-Undecided (suc fuel) u o lt (more {v = v} s r) h =
      wait_for_confirmed_undecided fuel _ v s
      ∙ wait_for_confirmed-Undecided fuel u o (omega arith) r h

  -- What stands behind a confirmation: a poll that reported CONFIRMED with a status other than 0,
  -- after which the receipt was read.
  pub record Confirmation (p : Result GoError Polled × W) (r : TxResult) (v : W) : Type 0 where
    pub polled : TxResult
    pub after : W
    pub reported : p ≡ (ok (some (polled, lit "CONFIRMED")), after)
    pub succeeded : polled.status ≢ 0
    pub filled : fill_tx_result d oc polled after ≡ (r, v)

  decide-Confirmation :
      (p : Result GoError Polled × W) (r : TxResult) (v : W)
      → decide d oc tx_id p ≡ (some (confirmed r), v)
      → Confirmation p r v
  unfolding decide
  decide-Confirmation (err e, w) r v h = absurd (ground arith)
  decide-Confirmation (ok none, w) r v h = absurd (ground arith)
  decide-Confirmation (ok (some (r0, state)), w) r v h = elim (Bool-cases (r0.status == 0)) [
    | inl z ↦ absurd (ground arith)
    | inr z ↦ elim (Bool-cases (text_eq state (lit "CONFIRMED"))) [
      | inr c ↦ absurd (ground arith)
      | inl c ↦ record {
        polled = r0;
        after = w;
        reported = ap (λ s. (ok (some (r0, s)), w)) ((text_eq_iff state (lit "CONFIRMED")).0 c);
        succeeded = ground arith;
        filled = ground arith;
      }
    ]
  ]

  -- A wait that returns a result and no error stopped at a poll that reported CONFIRMED, after
  -- rounds that decided nothing; the result is that poll's, filled in from the receipt.
  pub wait_for_confirmed-Confirmation :
      (fuel : ℕ) (w u : W) (r : TxResult)
      → wait_for_confirmed d oc fuel tx_id w ≡ some (confirmed r, u)
      → (n : ℕ) × (v : W) × Undecided n w v
        × Confirmation
            (poll_transaction d oc (lit "/transaction?id=" ++ tx_id) (d.await_tick v).1)
            r
            u
  unfolding wait_for_confirmed wait_round
  wait_for_confirmed-Confirmation zero w u r h = absurd (ground arith)
  wait_for_confirmed-Confirmation (suc fuel) w u r h =
      elim (Option-cases (wait_round d oc tx_id w).0) [
        | inl e ↦
            let v = (wait_round d oc tx_id w).1 in
            let k : wait_for_confirmed d oc fuel tx_id v ≡ some (confirmed r, u) = ground arith in
            let (n, x, rounds, c) = wait_for_confirmed-Confirmation fuel v u r k in
            (suc n, x, more (ground arith) rounds, c)
        | inr (o, e) ↦ elim (Bool-cases (d.await_tick w).0) [
          | inl t ↦ (zero, w, here, decide-Confirmation _ r u (ground arith))
          | inr t ↦ absurd (ground arith)
        ]
      ]
