-- ===== src/Clob/Witnesses.antt =====
-- The theorems on the relayer and the on-chain client at concrete inputs.
use polymarket_go.Clob.Relayer.SubmitLaws.{
  IsPosted, send_with_report-chain, send_proxy_tx_batch_with_report-IsCleared,
}
use polymarket_go.Prelude.Words.{pos}
use polymarket_go.Prelude.Strings.{parse_int, parse_digits_from, parse_digits}
use polymarket_go.Clob.Fixture.{
  wallet, value_or, value_of-result, value_of-ok, value_of, one_call, libraries, is_ok,
}
use polymarket_go.Clob.Relayer.Gas.{
  tx_base_gas, relayer_gas_margin_min, relayer_gas_margin, relay_call_intrinsic_gas,
  max_guard_relay_gas_limit, intrinsic_gas_from,
}
use polymarket_go.Clob.Relayer.GasLaws.{
  zeros, relayer_gas_margin_exact, relay_call_intrinsic_gas-eq, non_zeros,
  max_guard_relay_gas_limit-eq, guard_gas,
}
use polymarket_go.Clob.Onchain.{right_align32, pack_split_merge, effective_relayer_outer_gas_limit}
use polymarket_go.Clob.Onchain.Builder.{
  split, proxy_calls, new_tx, calls_of, approve_operator, approve_from, approve, add_packed,
}
use polymarket_go.Clob.Relayer.Submit.{
  submit_request, submit, send_with_report, send_proxy_tx_batch_with_report, reply_id,
  preflight_and_submit, post_submit, decode_reply, check_submit_status, builder_preflight,
  TxSendResult,
}
use polymarket_go.Clob.Relayer.SignLaws.{sign_max_guard_relay-within, ShortCalls}
use polymarket_go.Clob.Relayer.Preflight.{
  simulate_relay_hub_guard, preflight_targeted, preflight_signed, preflight_proxy_tx_batch,
  preflight_encoded, preflight_checked, parse_nonce, note_simulation, note_guard, note_estimate,
  first_report, fetch_relay_payload, estimate_proxy_gas, check_payload_status, check_guard,
  check_context, ProxyRelayRequest,
}
use polymarket_go.Prelude.{
  Text, lit, if◌then◌else◌, ◌⊎◌, ◌≤◌, ◌≢◌, ◌≡◌, ◌∷◌, ◌<◌, ◌-◌, ◌+◌, ◌*◌, ℕ, true, subst, refl, ok,
  length, leb, false, err, arith, ap, [], Result, List,
}
use polymarket_go.Clob.Relayer.PreflightLaws.{
  preflight_within, preflight_proxy_tx_batch-IsCleared, IsCleared,
}
use polymarket_go.Clob.Errors.{GoError}
use polymarket_go.Clob.Onchain.BuilderLaws.{total_width, splits, chain, approves, apply, BuildOp}
use polymarket_go.Clob.Relayer.Sign.{
  sign_proxy_relay, sign_max_guard_relay, search_gas, pack_relay_call, add_recovery_id, Best,
}

relayer_gas_margin_exact_example :
    (relayer_gas_margin_min ≤ relayer_gas_margin 400000)
    × (400000 * 1500 < (relayer_gas_margin 400000 + 1) * 10000)
    × ((relayer_gas_margin 400000 ≡ relayer_gas_margin_min)
        ⊎ (relayer_gas_margin 400000 * 10000 ≤ 400000 * 1500))
relayer_gas_margin_exact_example = relayer_gas_margin_exact 400000 (omega arith)

relay_call_intrinsic_gas-eq_example :
    relay_call_intrinsic_gas (0 ∷ 1 ∷ [])
    ≡ tx_base_gas + 4 * zeros (0 ∷ 1 ∷ []) + 16 * non_zeros (0 ∷ 1 ∷ [])
relay_call_intrinsic_gas-eq_example = relay_call_intrinsic_gas-eq (0 ∷ 1 ∷ []) (omega arith)

max_guard_relay_gas_limit-eq_example : max_guard_relay_gas_limit (0 ∷ 1 ∷ []) 500000 ≡ (
    if leb 500000 (guard_gas (0 ∷ 1 ∷ []))
    then err (relay_call_intrinsic_gas (0 ∷ 1 ∷ []))
    else ok (record {
      max_gas = 500000 - guard_gas (0 ∷ 1 ∷ []);
      relay_call_gas = relay_call_intrinsic_gas (0 ∷ 1 ∷ []);
    }))
max_guard_relay_gas_limit-eq_example =
    max_guard_relay_gas_limit-eq (0 ∷ 1 ∷ []) 500000 (omega arith) (omega arith)

abbrev cleared : Result GoError ProxyRelayRequest × ℕ
cleared = preflight_proxy_tx_batch libraries wallet one_call 0

cleared_ok : is_ok cleared.0 ≡ true
unfolding preflight_proxy_tx_batch check_context preflight_checked preflight_encoded
    preflight_targeted preflight_signed fetch_relay_payload check_payload_status parse_nonce
    parse_int parse_digits parse_digits_from sign_proxy_relay add_recovery_id pack_relay_call
    relayer_gas_margin max_guard_relay_gas_limit relay_call_intrinsic_gas intrinsic_gas_from
    effective_relayer_outer_gas_limit check_guard note_guard simulate_relay_hub_guard
    note_simulation estimate_proxy_gas note_estimate first_report
cleared_ok = refl

preflight_proxy_tx_batch-IsCleared_example :
    IsCleared libraries wallet one_call (value_of cleared.0 cleared_ok)
preflight_proxy_tx_batch-IsCleared_example =
    preflight_proxy_tx_batch-IsCleared libraries wallet one_call 0 cleared.1
      (value_of cleared.0 cleared_ok) (value_of-ok cleared cleared_ok)

cleared_length : length (value_of cleared.0 cleared_ok).relay_call_data ≡ 4
unfolding preflight_proxy_tx_batch check_context preflight_checked preflight_encoded
    preflight_targeted preflight_signed fetch_relay_payload check_payload_status parse_nonce
    parse_int parse_digits parse_digits_from sign_proxy_relay add_recovery_id pack_relay_call
    relayer_gas_margin max_guard_relay_gas_limit relay_call_intrinsic_gas intrinsic_gas_from
    effective_relayer_outer_gas_limit check_guard note_guard simulate_relay_hub_guard
    note_simulation estimate_proxy_gas note_estimate first_report
cleared_length = refl

wallet_limit : effective_relayer_outer_gas_limit wallet ≡ 1000000
unfolding effective_relayer_outer_gas_limit
wallet_limit = refl

preflight_within_example :
    (value_of cleared.0 cleared_ok).report.signed_gas_limit
      + guard_gas (value_of cleared.0 cleared_ok).relay_call_data
    ≤ effective_relayer_outer_gas_limit wallet
preflight_within_example =
    preflight_within libraries wallet one_call 0 cleared.1 (value_of cleared.0 cleared_ok)
      (omega (arith, wallet_limit)) (omega (arith, cleared_length)) (value_of-ok cleared cleared_ok)

abbrev sent : Result GoError TxSendResult × ℕ
sent = send_proxy_tx_batch_with_report libraries wallet one_call 0

sent_ok : is_ok sent.0 ≡ true
unfolding send_proxy_tx_batch_with_report preflight_and_submit submit post_submit submit_request
    decode_reply reply_id check_submit_status preflight_proxy_tx_batch check_context
    preflight_checked preflight_encoded preflight_targeted preflight_signed fetch_relay_payload
    check_payload_status parse_nonce parse_int parse_digits parse_digits_from sign_proxy_relay
    add_recovery_id pack_relay_call relayer_gas_margin max_guard_relay_gas_limit
    relay_call_intrinsic_gas intrinsic_gas_from effective_relayer_outer_gas_limit check_guard
    note_guard simulate_relay_hub_guard note_simulation estimate_proxy_gas note_estimate
    first_report
sent_ok = refl

send_proxy_tx_batch_with_report-IsCleared_example :
    (req : ProxyRelayRequest) × IsCleared libraries wallet one_call req
    × ((value_of sent.0 sent_ok).preflight ≡ req.report)
    × ((value_of sent.0 sent_ok).tx_id ≢ [])
    × IsPosted libraries wallet req (value_of sent.0 sent_ok).tx_id
send_proxy_tx_batch_with_report-IsCleared_example =
    send_proxy_tx_batch_with_report-IsCleared libraries wallet one_call 0 sent.1
      (value_of sent.0 sent_ok) (value_of-ok sent sent_ok)

abbrev built_ops : List BuildOp
built_ops = approves true ∷ splits (lit "id") (pos 5) false ∷ []

abbrev sent_chain : Result GoError TxSendResult × ℕ
sent_chain = send_with_report libraries (chain libraries (new_tx wallet) built_ops) 0

sent_chain_ok : is_ok sent_chain.0 ≡ true
unfolding send_with_report builder_preflight chain apply new_tx approve approve_from
    approve_operator split add_packed pack_split_merge right_align32 proxy_calls calls_of
    send_proxy_tx_batch_with_report preflight_and_submit submit post_submit submit_request
    decode_reply reply_id check_submit_status preflight_proxy_tx_batch check_context
    preflight_checked preflight_encoded preflight_targeted preflight_signed fetch_relay_payload
    check_payload_status parse_nonce parse_int parse_digits parse_digits_from sign_proxy_relay
    add_recovery_id pack_relay_call relayer_gas_margin max_guard_relay_gas_limit
    relay_call_intrinsic_gas intrinsic_gas_from effective_relayer_outer_gas_limit check_guard
    note_guard simulate_relay_hub_guard note_simulation estimate_proxy_gas note_estimate
    first_report
sent_chain_ok = refl

send_with_report-chain_example :
    ((value_of sent_chain.0 sent_chain_ok).preflight.ops ≡ total_width built_ops)
    × ((value_of sent_chain.0 sent_chain_ok).preflight.signed_gas_limit
        ≤ (value_of sent_chain.0 sent_chain_ok).preflight.approx_max_signed_gas)
    × ((value_of sent_chain.0 sent_chain_ok).preflight.relay_hub_simulation_ok ≡ true)
    × ((value_of sent_chain.0 sent_chain_ok).tx_id ≢ [])
send_with_report-chain_example =
    send_with_report-chain libraries wallet built_ops 0 sent_chain.1
      (value_of sent_chain.0 sent_chain_ok) (value_of-ok sent_chain sent_chain_ok)

abbrev found : Result GoError Best
found = sign_max_guard_relay libraries wallet (lit "f") (lit "relay") (pos 7)

found_ok : is_ok found ≡ true
unfolding sign_max_guard_relay search_gas sign_proxy_relay add_recovery_id pack_relay_call
    max_guard_relay_gas_limit relay_call_intrinsic_gas intrinsic_gas_from
    effective_relayer_outer_gas_limit
found_ok = refl

libraries_short : ShortCalls libraries wallet (lit "f") (lit "relay") (pos 7)
unfolding pack_relay_call
libraries_short gas sig call h =
    subst (λ c. length c < 288230376151711744) (ap (value_or []) h) (omega arith)

sign_max_guard_relay-within_example :
    (call : Text) × (sign_proxy_relay libraries wallet
        (lit "f")
        (value_of found found_ok).gas
        (lit "relay")
        (pos 7)
      ≡ ok (value_of found found_ok).sig)
    × (pack_relay_call libraries wallet
          (lit "f")
          (value_of found found_ok).gas
          (lit "relay")
          (pos 7)
          (value_of found found_ok).sig
        ≡ ok call)
    × ((value_of found found_ok).gas + guard_gas call ≤ effective_relayer_outer_gas_limit wallet)
    × ((value_of found found_ok).call_gas ≡ relay_call_intrinsic_gas call)
sign_max_guard_relay-within_example =
    sign_max_guard_relay-within libraries wallet (lit "f") (lit "relay") (pos 7)
      (value_of found found_ok) libraries_short (omega (arith, wallet_limit))
      (value_of-result found found_ok)
