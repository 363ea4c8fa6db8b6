-- ===== src/Clob/Relayer/Preflight.antt =====
-- `preflightProxyTxBatch` of clob/relayer.go: encode, estimate, sign, check against the guard,
-- simulate. A report is filled in on the way and travels with the error, if there is one.
use polymarket_go.Prelude.{
  ℕ, ◌+◌, true, false, ◌||◌, List, [], ◌∷◌, ◌++◌, Text, lit, Result, ok, err, none, some,
  if◌then◌else◌, ltb, ◌==◌, length, drop,
}
use polymarket_go.Prelude.Words.{ℤ, pos, u64, sub64, to_int64}
use polymarket_go.Prelude.Strings.{contains, to_lower, decimal, parse_int, hex}
use polymarket_go.Clob.Errors.{
  GoError, context_done, failed, wrapped, relayer, ErrorKind, batch_too_large, estimate_reverted,
  inner_relayed_call_failed, relayer_rate_limited, TxPreflightReport, message,
}
use polymarket_go.Clob.Deps.{
  Deps, ProxyCallArg, Address, calls, proxy_wallet_factory, RelayerSubmitBody,
}
use polymarket_go.Clob.Onchain.{OnChainClient, effective_relayer_outer_gas_limit}
use polymarket_go.Clob.Relayer.Gas.{relayer_gas_margin, max_guard_relay_gas_limit}
use polymarket_go.Clob.Relayer.Sign.{sign_proxy_relay, pack_relay_call, calldata_too_large}
use polymarket_go.Clob.Effects.{◌>>=◌, Io, lift, return, or_wrap}

-- `proxyRelayRequest`.
pub record ProxyRelayRequest : Type 0 where
  pub encoded_function : Text
  pub relay_call_data : Text
  pub body : RelayerSubmitBody
  pub report : TxPreflightReport

pub record RelayTarget : Type 0 where
  pub relay_addr : Address
  pub nonce : Text
  pub nonce_big : ℤ

abbrev pub relayer_url : Text
relayer_url = lit "https://relayer-v2.polymarket.com"

abbrev pub status_error : Text → ℕ → Text → GoError
status_error what status body = failed (what ++ lit " " ++ decimal status ++ lit ": " ++ body)

-- The status check of `fetchRelayPayload`.
unfoldable pub check_payload_status : ℕ → Text → Result GoError Text
check_payload_status status body =
    if status == 200
    then ok body
    else if status == 429
    then err (relayer relayer_rate_limited none (status_error (lit "relay-payload") status body))
    else err (status_error (lit "relay-payload") status body)

-- `nonceBig.SetString(rp.Nonce, 10)`.
unfoldable pub parse_nonce : Text → Result GoError ℤ
parse_nonce nonce = elim (parse_int nonce) [
  | none ↦ err (failed (lit "parse relay nonce"))
  | some n ↦ ok n
]

-- `maxGuardRelayGasLimit` fills three fields of the report, also when it fails.
unfoldable pub note_guard :
    TxPreflightReport
    → Text
    → ℕ
    → Result ℕ (record { max_gas : ℕ; relay_call_gas : ℕ })
    → TxPreflightReport
note_guard r relay_call_data gas_limit (ok m) = record r {
  relay_call_bytes = length relay_call_data;
  relay_call_intrinsic_gas = m.relay_call_gas;
  approx_max_signed_gas = m.max_gas;
  approx_guard_headroom = to_int64 (sub64 m.max_gas gas_limit);
}
note_guard r relay_call_data gas_limit (err intrinsic) = record r {
  relay_call_bytes = length relay_call_data;
  relay_call_intrinsic_gas = intrinsic;
  approx_max_signed_gas = 0;
  approx_guard_headroom = to_int64 (sub64 0 gas_limit);
}

abbrev pub exceeds_guard : ℕ → ℕ → GoError
exceeds_guard gas_limit max_gas = failed (
    lit "signed gas limit "
    ++ decimal gas_limit
    ++ lit " exceeds RelayHub guard max "
    ++ decimal max_gas)

-- The two checks of the signed gas limit against the guard.
unfoldable pub check_guard :
    TxPreflightReport
    → ℕ
    → Result ℕ (record { max_gas : ℕ; relay_call_gas : ℕ })
    → Result GoError TxPreflightReport
check_guard r gas_limit (err intrinsic) =
    err (relayer batch_too_large (some r) (calldata_too_large intrinsic r.outer_gas_limit))
check_guard r gas_limit (ok m) =
    if ltb m.max_gas gas_limit
    then err (relayer batch_too_large (some r) (exceeds_guard gas_limit m.max_gas))
    else ok r

abbrev pub simulation_kind : Text → ErrorKind
simulation_kind msg =
    if contains msg (lit "not enough gasleft") || contains msg (lit "out of gas")
    then batch_too_large
    else inner_relayed_call_failed

-- What `simulateRelayHubGuard` makes of the outcome of the call.
unfoldable pub note_simulation :
    {W : Type 0}
    → TxPreflightReport
    → Result GoError Text × W
    → Result GoError TxPreflightReport × W
note_simulation r (ok out, w) = (ok (record r { relay_hub_simulation_ok = true }), w)
note_simulation r (err e, w) =
    (err (relayer (simulation_kind (to_lower (message e))) (some r) e), w)

-- A failed estimate is reported with the fields known so far.
unfoldable pub note_estimate :
    {W : Type 0} → TxPreflightReport → Result GoError ℕ × W → Result GoError ℕ × W
note_estimate r (ok est, w) = (ok est, w)
note_estimate r (err e, w) =
    (err (relayer estimate_reverted (some r) (wrapped (lit "estimate proxy gas") e)), w)

module _ {W : Type 0} (d : Deps W) (oc : OnChainClient) where
  unfoldable pub derive_proxy_wallet : Address → Address
  derive_proxy_wallet signer =
      let factory = d.hex_to_address (lit "0xaB45c5A4B0c941a2F231C04C3f49182e1A254052") in
      let salt = d.keccak256 signer in
      let init_code_hash =
        d.from_hex (lit "d21df8dc65880a8606f09fe0ce3df9b8869287ab0b058be05aa9e8af6330a00b") in
      d.bytes_to_address (drop 12 (d.keccak256 (255 ∷ (factory ++ (salt ++ init_code_hash)))))

  unfoldable pub estimate_proxy_gas : Text → Io W ℕ
  estimate_proxy_gas encoded_function = d.estimate_gas (record {
    from = some oc.from_addr;
    to = oc.factory_addr;
    gas = 0;
    calldata = encoded_function;
  })

  unfoldable pub fetch_relay_payload : Io W RelayTarget
  fetch_relay_payload = do
    req ← or_wrap (lit "create relay-payload request") (
        lift (
          d.new_request (record {
            method = lit "GET";
            url =
                relayer_url
                ++ lit "/relay-payload?address="
                ++ d.address_hex oc.from_addr
                ++ lit "&type=PROXY";
            headers = [];
            body = [];
          })))
    resp ← or_wrap (lit "relay-payload") (d.http_do req)
    body ← or_wrap (lit "read relay-payload body") (lift resp.body)
    good ← lift (check_payload_status resp.status body)
    rp ← or_wrap (lit "parse relay-payload") (lift (d.decode_relay_payload good))
    n ← lift (parse_nonce rp.nonce)
    return (record { relay_addr = d.hex_to_address rp.address; nonce = rp.nonce; nonce_big = n })

  unfoldable pub simulate_relay_hub_guard :
      Address → Text → TxPreflightReport → Io W TxPreflightReport
  unfolding note_simulation
  simulate_relay_hub_guard relay_addr relay_call_data r w = note_simulation r (
      d.call_contract
        (record {
          from = some relay_addr;
          to = oc.relay_hub;
          gas = effective_relayer_outer_gas_limit oc;
          calldata = relay_call_data;
        })
        w)

  unfoldable pub submit_body : Text → ℕ → RelayTarget → Text → TxPreflightReport → RelayerSubmitBody
  submit_body encoded_function gas_limit target sig r = record {
    type = lit "PROXY";
    from = to_lower (d.address_hex oc.from_addr);
    to = to_lower (d.address_hex oc.factory_addr);
    proxy_wallet = to_lower r.proxy_wallet;
    calldata = lit "0x" ++ hex encoded_function;
    value = lit "0";
    nonce = target.nonce;
    signature = lit "0x" ++ hex sig;
    signature_params = record {
      gas_price = lit "0";
      relayer_fee = lit "0";
      gas_limit = decimal gas_limit;
      relay = to_lower (d.address_hex target.relay_addr);
      relay_hub = to_lower (d.address_hex oc.relay_hub);
    };
  }

  unfoldable pub first_report : List ProxyCallArg → Text → RelayTarget → TxPreflightReport
  first_report cs encoded_function target = record {
    ops = length cs;
    proxy_wallet = d.address_hex (derive_proxy_wallet oc.from_addr);
    relay = d.address_hex target.relay_addr;
    nonce = target.nonce;
    outer_gas_limit = effective_relayer_outer_gas_limit oc;
    inner_gas_estimate = 0;
    gas_margin = 0;
    signed_gas_limit = 0;
    relay_call_intrinsic_gas = 0;
    approx_max_signed_gas = 0;
    approx_guard_headroom = pos 0;
    encoded_function_bytes = length encoded_function;
    relay_call_bytes = 0;
    relay_hub_simulation_ok = false;
  }

  abbrev pub signed_gas : ℕ → ℕ
  signed_gas est = u64 (est + relayer_gas_margin est)

  abbrev pub signed_report : TxPreflightReport → ℕ → TxPreflightReport
  signed_report r est = record r {
    inner_gas_estimate = est;
    gas_margin = relayer_gas_margin est;
    signed_gas_limit = signed_gas est;
  }

  -- From the estimate on.
  unfoldable pub preflight_signed :
      Text → RelayTarget → TxPreflightReport → ℕ → Io W ProxyRelayRequest
  preflight_signed encoded_function target r0 est = do
    let gas_limit = signed_gas est
    let r1 = signed_report r0 est
    sig ←
        or_wrap (lit "sign") (
          lift
            (sign_proxy_relay d oc encoded_function gas_limit target.relay_addr target.nonce_big))
    relay_call_data ←
        lift
          (pack_relay_call d oc encoded_function gas_limit target.relay_addr target.nonce_big sig)
    let limit = max_guard_relay_gas_limit relay_call_data r0.outer_gas_limit
    r2 ← lift (check_guard (note_guard r1 relay_call_data gas_limit limit) gas_limit limit)
    r3 ← simulate_relay_hub_guard target.relay_addr relay_call_data r2
    return (record {
      encoded_function = encoded_function;
      relay_call_data = relay_call_data;
      body = submit_body encoded_function gas_limit target sig r3;
      report = r3;
    })

  unfoldable pub check_context : Io W (Unit {0})
  check_context w = if d.cancelled w then (err context_done, w) else (ok tt, w)

  -- `preflightProxyTxBatch` in stages, the last first: the estimate,
  abbrev pub estimated : List ProxyCallArg → Text → RelayTarget → Io W ℕ
  estimated cs encoded_function target w =
      note_estimate (first_report cs encoded_function target)
        (estimate_proxy_gas encoded_function w)

  unfoldable pub preflight_targeted :
      List ProxyCallArg → Text → RelayTarget → Io W ProxyRelayRequest
  preflight_targeted cs encoded_function target = do
    est ← estimated cs encoded_function target
    preflight_signed encoded_function target (first_report cs encoded_function target) est

  -- the relay and its nonce,
  unfoldable pub preflight_encoded : List ProxyCallArg → Text → Io W ProxyRelayRequest
  preflight_encoded cs encoded_function = do
    target ← fetch_relay_payload
    preflight_targeted cs encoded_function target

  abbrev pub packed_proxy : List ProxyCallArg → Io W Text
  packed_proxy cs =
      or_wrap (lit "pack proxy")
        (lift (d.abi_pack proxy_wallet_factory (lit "proxy") (calls cs ∷ [])))

  -- the encoding of the calls,
  unfoldable pub preflight_checked : List ProxyCallArg → Io W ProxyRelayRequest
  preflight_checked cs = do
    encoded_function ← packed_proxy cs
    preflight_encoded cs encoded_function

  -- and the check of the context, which comes first.
  unfoldable pub preflight_proxy_tx_batch : List ProxyCallArg → Io W ProxyRelayRequest
  preflight_proxy_tx_batch cs = do u ← check_context; preflight_checked cs
