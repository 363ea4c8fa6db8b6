-- ===== src/Clob/WaitWitnesses.antt =====
-- The theorems on waiting for a transaction and on the on-chain client at concrete inputs.
use polymarket_go.Clob.Deps.{Deps}
use polymarket_go.Clob.Fixture.{wallet, value_of-result, value_of, libraries, is_ok}
use polymarket_go.Clob.Relayer.Gas.{
  relayer_gas_margin, relay_call_intrinsic_gas, max_guard_relay_gas_limit, intrinsic_gas_from,
}
use polymarket_go.Clob.Onchain.Approval.{send_approval, note_approval, is_approved, ensure_approval}
use polymarket_go.Prelude.Strings.{
  upper_byte, trim_prefix, to_upper, parse_int, parse_digits_from, parse_digits, drop_prefix,
}
use polymarket_go.Clob.Relayer.Submit.{
  submit_request, submit, send_proxy_tx_batch_with_report, send_proxy_tx_batch, send_proxy_tx,
  reply_id, preflight_and_submit, post_submit, decode_reply, check_submit_status,
}
use polymarket_go.Clob.Relayer.Preflight.{
  simulate_relay_hub_guard, preflight_targeted, preflight_signed, preflight_proxy_tx_batch,
  preflight_encoded, preflight_checked, parse_nonce, note_simulation, note_guard, note_estimate,
  first_report, fetch_relay_payload, estimate_proxy_gas, check_payload_status, check_guard,
  check_context,
}
use polymarket_go.Clob.Relayer.Sign.{sign_proxy_relay, pack_relay_call, add_recovery_id}
use polymarket_go.Clob.Relayer.Poll.{
  wait_round, wait_for_confirmed, settle_first, settle, read_poll, poll_transaction, fill_tx_result,
  decode_poll, decide, confirmed, reverted, failure_text, classify_relayer_failure, TxResult,
}
use polymarket_go.Clob.Onchain.Builder.{
  redeem, proxy_calls, new_tx, calls_of, approve_operator, approve_from, approve, add_packed,
}
use polymarket_go.Clob.Onchain.{right_align32, pack_redeem, effective_relayer_outer_gas_limit}
use polymarket_go.Clob.Relayer.PollLaws.{wait_for_confirmed-Confirmation, Undecided, Confirmation}
use polymarket_go.Clob.Relayer.WaitLaws.{
  wait_for_confirmed_first, wait_for_confirmed-Failure, Failure, not_yet, confirms, poll,
}
use polymarket_go.Clob.Onchain.ApprovalLaws.{ensure_approval_twice, ensure_approval-Cached, Cached}
use polymarket_go.Clob.Onchain.BuilderLaws.{
  total_width, redeems, proxy_calls-chain, chain, approves, apply, PlainCall, BuildOp,
}
use polymarket_go.Prelude.{
  text_eq, lit, ◌≤◌, ◌≡◌, ◌∷◌, ◌++◌, ℕ, true, some, refl, ok, length, false, arith, [], List, All,
}

abbrev confirmed_result : TxResult
confirmed_result = record {
  tx_hash = lit "hash";
  relayer_state = lit "CONFIRMED";
  status = 1;
  gas_limit = 200000;
  gas_used = 90000;
  error_msg = [];
}

abbrev polled_result : TxResult
polled_result = record confirmed_result { gas_limit = 0; gas_used = 0 }

first_poll : poll libraries wallet (lit "tx") 1 ≡ (ok (some (polled_result, lit "CONFIRMED")), 2)
unfolding poll_transaction check_context read_poll decode_poll settle_first settle text_eq
    trim_prefix drop_prefix to_upper upper_byte
first_poll = refl

first_fill : fill_tx_result libraries wallet polled_result 2 ≡ (confirmed_result, 4)
unfolding fill_tx_result
first_fill = refl

wait_for_confirmed_first_example :
    wait_for_confirmed libraries wallet 3 (lit "tx") 0 ≡ some (confirmed confirmed_result, 4)
wait_for_confirmed_first_example =
    wait_for_confirmed_first libraries wallet (lit "tx") 3 4 (confirmed confirmed_result)
      (omega arith) (not_yet {w = 0}) (confirms refl first_poll (omega arith) first_fill)

wait_for_confirmed-Confirmation_example :
    (n : ℕ) × (v : ℕ) × Undecided libraries wallet (lit "tx") n 0 v
    × Confirmation libraries wallet
        (lit "tx")
        (poll_transaction libraries wallet
          (lit "/transaction?id=" ++ lit "tx")
          (libraries.await_tick v).1)
        confirmed_result
        4
wait_for_confirmed-Confirmation_example =
    wait_for_confirmed-Confirmation libraries wallet (lit "tx") 3 0 4 confirmed_result
      wait_for_confirmed_first_example

-- A relayer that reports the transaction as failed.
abbrev unlucky : Deps ℕ
unlucky = record libraries {
  decode_txs = λ body. ok (
      record {
        tx_hash = lit "hash";
        state = lit "STATE_FAILED";
        error_msg = lit "internal transaction failure";
      }
      ∷ []);
}

abbrev failed_result : TxResult
failed_result = record confirmed_result {
  relayer_state = lit "FAILED";
  error_msg = lit "internal transaction failure";
}

failed_wait :
    wait_for_confirmed unlucky wallet 3 (lit "tx") 0
    ≡ some (
      reverted failed_result (
          classify_relayer_failure failed_result
            (failure_text unlucky wallet (lit "tx") failed_result)),
      4,
    )
unfolding wait_for_confirmed wait_round poll_transaction check_context read_poll decode_poll
    settle_first settle decide fill_tx_result text_eq trim_prefix drop_prefix to_upper upper_byte
failed_wait = refl

wait_for_confirmed-Failure_example :
    (n : ℕ) × (v : ℕ) × Undecided unlucky wallet (lit "tx") n 0 v
    × Failure unlucky wallet
        (lit "tx")
        (poll unlucky wallet (lit "tx") (unlucky.await_tick v).1)
        failed_result
        (classify_relayer_failure failed_result
          (failure_text unlucky wallet (lit "tx") failed_result))
        4
wait_for_confirmed-Failure_example =
    wait_for_confirmed-Failure unlucky wallet (lit "tx") 3 0 4 failed_result
      (classify_relayer_failure failed_result
        (failure_text unlucky wallet (lit "tx") failed_result))
      failed_wait

abbrev two_ops : List BuildOp
two_ops = approves false ∷ redeems (lit "id") ∷ []

two_ops_ok : is_ok (proxy_calls (chain libraries (new_tx wallet) two_ops)) ≡ true
unfolding chain apply new_tx approve approve_from approve_operator redeem add_packed pack_redeem
    right_align32 proxy_calls calls_of
two_ops_ok = refl

proxy_calls-chain_example :
    (1 ≤ length (value_of (proxy_calls (chain libraries (new_tx wallet) two_ops)) two_ops_ok))
    × (length (value_of (proxy_calls (chain libraries (new_tx wallet) two_ops)) two_ops_ok)
        ≡ total_width two_ops)
    × All PlainCall (value_of (proxy_calls (chain libraries (new_tx wallet) two_ops)) two_ops_ok)
proxy_calls-chain_example =
    proxy_calls-chain libraries wallet two_ops
      (value_of (proxy_calls (chain libraries (new_tx wallet) two_ops)) two_ops_ok)
      (value_of-result (proxy_calls (chain libraries (new_tx wallet) two_ops)) two_ops_ok)

ensure_approval-Cached_example :
    Cached wallet
      (lit "spender")
      (ensure_approval libraries wallet (lit "spender") 0).0
      (ensure_approval libraries wallet (lit "spender") 0).1
ensure_approval-Cached_example = ensure_approval-Cached libraries wallet (lit "spender") 0

approval_ok : is_ok (ensure_approval libraries wallet (lit "spender") 0).0 ≡ true
unfolding ensure_approval is_approved send_approval note_approval send_proxy_tx send_proxy_tx_batch
    send_proxy_tx_batch_with_report preflight_and_submit submit post_submit submit_request
    decode_reply reply_id check_submit_status preflight_proxy_tx_batch check_context
    preflight_checked preflight_encoded preflight_targeted preflight_signed fetch_relay_payload
    check_payload_status parse_nonce parse_int parse_digits parse_digits_from sign_proxy_relay
    add_recovery_id pack_relay_call relayer_gas_margin max_guard_relay_gas_limit
    relay_call_intrinsic_gas intrinsic_gas_from effective_relayer_outer_gas_limit check_guard
    note_guard simulate_relay_hub_guard note_simulation estimate_proxy_gas note_estimate
    first_report
approval_ok = refl

ensure_approval_twice_example :
    ensure_approval libraries
      (ensure_approval libraries wallet (lit "spender") 0).1
      (lit "spender")
      50
    ≡ (ok [], (ensure_approval libraries wallet (lit "spender") 0).1, 50)
ensure_approval_twice_example =
    ensure_approval_twice libraries wallet (lit "spender") 0 50
      (value_of (ensure_approval libraries wallet (lit "spender") 0).0 approval_ok)
      (value_of-result (ensure_approval libraries wallet (lit "spender") 0).0 approval_ok)
