-- ===== src/Clob/Relayer/PreflightLaws.antt =====
-- What a preflight that succeeds has established, and how one fails (clob/relayer.go).
use polymarket_go.Clob.Relayer.GasLaws.{max_guard_relay_gas_limit-eq, guard_gas}
use polymarket_go.Prelude.Words.{u64_mod}
use polymarket_go.Clob.Effects.{annotate-ok, continue-ok}
use polymarket_go.Prelude.{
  ◌++◌, [], ◌∷◌, lit, some, refl, err, ◌+◌, length, ◌<◌, List, ℕ, ◌≤◌, ◌≡◌, true, Text,
  Result-cases, ok, arith, inl, inr,
}
use polymarket_go.Prelude.Strings.{hex, decimal}
use polymarket_go.Clob.Errors.{relayer, batch_too_large, GoError, is_error, TxPreflightReport}
use polymarket_go.Clob.Deps.{calls, proxy_wallet_factory, ProxyCallArg, Deps}
use polymarket_go.Clob.Onchain.{OnChainClient, effective_relayer_outer_gas_limit}
use polymarket_go.Clob.Relayer.Gas.{max_guard_relay_gas_limit}
use polymarket_go.Clob.Relayer.Sign.{calldata_too_large, sign_proxy_relay, pack_relay_call}
use polymarket_go.Clob.Relayer.Preflight.{
  exceeds_guard, signed_report, packed_proxy, fetch_relay_payload, estimated, preflight_checked,
  preflight_encoded, preflight_targeted, check_context, first_report, preflight_proxy_tx_batch,
  ProxyRelayRequest, RelayTarget, note_guard, check_guard, note_simulation,
  simulate_relay_hub_guard, submit_body, signed_gas, preflight_signed,
}

module _ {W : Type 0} (d : Deps W) (oc : OnChainClient) where
  -- What the request of a successful preflight of some calls satisfies.
  pub record IsCleared (cs : List ProxyCallArg) (req : ProxyRelayRequest) : Type 0 where
    pub target : RelayTarget
    pub sig : Text
    pub counted : req.report.ops ≡ length cs
    pub encoded :
        d.abi_pack proxy_wallet_factory (lit "proxy") (calls cs ∷ []) ≡ ok req.encoded_function
    pub outer : req.report.outer_gas_limit ≡ effective_relayer_outer_gas_limit oc
    pub gas : req.report.signed_gas_limit ≡ signed_gas d oc req.report.inner_gas_estimate
    pub signed :
        sign_proxy_relay d oc req.encoded_function req.report.signed_gas_limit target.relay_addr
          target.nonce_big
        ≡ ok sig
    pub packed :
        pack_relay_call d oc req.encoded_function req.report.signed_gas_limit target.relay_addr
          target.nonce_big sig
        ≡ ok req.relay_call_data
    pub limit :
        max_guard_relay_gas_limit req.relay_call_data req.report.outer_gas_limit
        ≡ ok (record {
          max_gas = req.report.approx_max_signed_gas;
          relay_call_gas = req.report.relay_call_intrinsic_gas;
        })
    pub fits : req.report.signed_gas_limit ≤ req.report.approx_max_signed_gas
    pub simulated : req.report.relay_hub_simulation_ok ≡ true
    pub submitted : req.body.signature_params.gas_limit ≡ decimal req.report.signed_gas_limit
    pub sent : req.body.calldata ≡ lit "0x" ++ hex req.encoded_function
    pub signature : req.body.signature ≡ lit "0x" ++ hex sig

  preflight_signed-IsCleared :
      (cs : List ProxyCallArg) (encoded_function : Text) (target : RelayTarget)
      (r0 : TxPreflightReport) (est : ℕ) (w w' : W) (req : ProxyRelayRequest)
      → r0.ops ≡ length cs
      → d.abi_pack proxy_wallet_factory (lit "proxy") (calls cs ∷ []) ≡ ok encoded_function
      → r0.outer_gas_limit ≡ effective_relayer_outer_gas_limit oc
      → preflight_signed d oc encoded_function target r0 est w ≡ (ok req, w')
      → IsCleared cs req
  unfolding preflight_signed check_guard note_guard simulate_relay_hub_guard note_simulation
      submit_body
  preflight_signed-IsCleared cs encoded_function target r0 est w w' req hn he ho h =
      elim (Result-cases (
        sign_proxy_relay d oc encoded_function (signed_gas d oc est) target.relay_addr
          target.nonce_big)) [
            | inr (x, es) ↦ absurd (ground arith)
            | inl (sig, es) ↦
                elim (Result-cases (
                  pack_relay_call d oc encoded_function (signed_gas d oc est) target.relay_addr
                    target.nonce_big sig)) [
                      | inr (x, ep) ↦ absurd (ground arith)
                      | inl (call, ep) ↦
                          elim (Result-cases (max_guard_relay_gas_limit call r0.outer_gas_limit)) [
                            | inr (x, el) ↦ absurd (ground arith)
                            | inl (m, el) ↦ record {
                              target = target;
                              sig = sig;
                              counted = ground arith;
                              encoded = ground arith;
                              outer = ground arith;
                              gas = ground arith;
                              signed = ground arith;
                              packed = ground arith;
                              limit = ground arith;
                              fits = ground arith;
                              simulated = ground arith;
                              submitted = ground arith;
                              sent = ground arith;
                              signature = ground arith;
                            }
                          ]
                    ]
          ]

  preflight_targeted-IsCleared :
      (cs : List ProxyCallArg) (encoded_function : Text) (target : RelayTarget) (w w' : W)
      (req : ProxyRelayRequest)
      → d.abi_pack proxy_wallet_factory (lit "proxy") (calls cs ∷ []) ≡ ok encoded_function
      → preflight_targeted d oc cs encoded_function target w ≡ (ok req, w')
      → IsCleared cs req
  unfolding preflight_targeted first_report
  preflight_targeted-IsCleared cs encoded_function target w w' req he h =
      let r0 = first_report d oc cs encoded_function target in
      let (est, v, e, k) =
        continue-ok (estimated d oc cs encoded_function target w)
          (preflight_signed d oc encoded_function target r0) req w' h in
      preflight_signed-IsCleared cs encoded_function target r0 est v w' req refl he refl k

  preflight_encoded-IsCleared :
      (cs : List ProxyCallArg) (encoded_function : Text) (w w' : W) (req : ProxyRelayRequest)
      → d.abi_pack proxy_wallet_factory (lit "proxy") (calls cs ∷ []) ≡ ok encoded_function
      → preflight_encoded d oc cs encoded_function w ≡ (ok req, w')
      → IsCleared cs req
  unfolding preflight_encoded
  preflight_encoded-IsCleared cs encoded_function w w' req he h =
      let (target, v, e, k) =
        continue-ok (fetch_relay_payload d oc w) (preflight_targeted d oc cs encoded_function) req
          w' h in
      preflight_targeted-IsCleared cs encoded_function target v w' req he k

  preflight_checked-IsCleared :
      (cs : List ProxyCallArg) (w w' : W) (req : ProxyRelayRequest)
      → preflight_checked d oc cs w ≡ (ok req, w')
      → IsCleared cs req
  unfolding preflight_checked
  preflight_checked-IsCleared cs w w' req h =
      let (enc, v, e, k) =
        continue-ok (packed_proxy d oc cs w) (preflight_encoded d oc cs) req w' h in
      let packed_calls =
        annotate-ok (lit "pack proxy")
          (d.abi_pack proxy_wallet_factory (lit "proxy") (calls cs ∷ []), w) enc v e in
      preflight_encoded-IsCleared cs enc v w' req (λ i. (packed_calls i).0) k

  -- A preflight that succeeds reports the number of its calls, and its request holds their encoding.
  -- The gas limit that it reports, the estimate and its margin, is the one signed over that encoding and
  -- packed into the relay call, and is within what the guard leaves for that very call. The body to
  -- submit holds this encoding, this gas limit and this signature, and the report says that the
  -- simulation succeeded.
  pub preflight_proxy_tx_batch-IsCleared :
      (cs : List ProxyCallArg) (w w' : W) (req : ProxyRelayRequest)
      → preflight_proxy_tx_batch d oc cs w ≡ (ok req, w')
      → IsCleared cs req
  unfolding preflight_proxy_tx_batch
  preflight_proxy_tx_batch-IsCleared cs w w' req h =
      let (u, v, e, k) =
        continue-ok (check_context d oc w) (λ u. preflight_checked d oc cs) req w' h in
      preflight_checked-IsCleared cs v w' req k

  -- The signed gas limit and the guard's gas for the call stay within the outer gas limit, when
  -- that is a uint64 and the call is shorter than 2 ^ 58 bytes.
  pub preflight_within :
      (cs : List ProxyCallArg) (w w' : W) (req : ProxyRelayRequest)
      → effective_relayer_outer_gas_limit oc < u64_mod
      → length req.relay_call_data < 288230376151711744
      → preflight_proxy_tx_batch d oc cs w ≡ (ok req, w')
      → req.report.signed_gas_limit + guard_gas req.relay_call_data
        ≤ effective_relayer_outer_gas_limit oc
  preflight_within cs w w' req u short h =
      let c = preflight_proxy_tx_batch-IsCleared cs w w' req h in
      ground (
        arith,
        c.outer,
        c.limit,
        c.fits,
        max_guard_relay_gas_limit-eq req.relay_call_data req.report.outer_gas_limit short
            (omega (arith, c.outer)),
      )

  -- Where the signed gas limit and the guard's gas exceed the outer limit, the preflight fails
  -- with the sentinel for a batch that is too large, and the network is not called again. The
  -- relay call is the one signed and packed, shorter than 2 ^ 58 bytes; the outer limit is a uint64.
  pub preflight_signed_too_large :
      (encoded_function : Text) (target : RelayTarget) (r0 : TxPreflightReport) (est : ℕ) (w : W)
      (sig call : Text)
      → sign_proxy_relay d oc encoded_function
          (signed_gas d oc est)
          target.relay_addr
          target.nonce_big
        ≡ ok sig
      → pack_relay_call d oc encoded_function
          (signed_gas d oc est)
          target.relay_addr
          target.nonce_big
          sig
        ≡ ok call
      → r0.outer_gas_limit < u64_mod
      → length call < 288230376151711744
      → r0.outer_gas_limit < signed_gas d oc est + guard_gas call
      → (e : GoError) × (preflight_signed d oc encoded_function target r0 est w ≡ (err e, w))
        × (is_error e batch_too_large ≡ true)
  unfolding preflight_signed check_guard note_guard is_error
  preflight_signed_too_large encoded_function target r0 est w sig call es ep u short large =
      let eq = max_guard_relay_gas_limit-eq call r0.outer_gas_limit short u in
      elim (Result-cases (max_guard_relay_gas_limit call r0.outer_gas_limit)) [
        | inr (g, el) ↦ (
          relayer batch_too_large
              (some (note_guard (signed_report d oc r0 est) call (signed_gas d oc est) (err g)))
              (calldata_too_large g r0.outer_gas_limit),
          ground arith,
          refl,
        )
        | inl (m, el) ↦ (
          relayer batch_too_large
              (some (note_guard (signed_report d oc r0 est) call (signed_gas d oc est) (ok m)))
              (exceeds_guard (signed_gas d oc est) m.max_gas),
          ground arith,
          refl,
        )
      ]
