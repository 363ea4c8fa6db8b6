-- ===== src/Clob/Relayer/SubmitLaws.antt =====
-- What a batch that was sent has gone through (clob/relayer.go, clob/onchain.go).
use polymarket_go.Prelude.{
  ◌∙◌, Result, subst, ap, Result-cases, ℕ, ◌≤◌, ◌≡◌, ◌≢◌, true, ◌||◌, List, [], Text, lit, ok, err,
  some, ◌==◌, arith, inl, inr, ◌⊎◌, ◌↔◌, Bool-cases,
}
use polymarket_go.Clob.Errors.{
  GoError, context_done, relayer, relayer_rate_limited, TxPreflightReport, is_error,
}
use polymarket_go.Clob.Deps.{Response, Request, Deps, ProxyCallArg, SubmitReply}
use polymarket_go.Clob.Onchain.{OnChainClient}
use polymarket_go.Clob.Relayer.Preflight.{
  ProxyRelayRequest, status_error, preflight_proxy_tx_batch, check_context,
}
use polymarket_go.Clob.Onchain.Builder.{proxy_calls, new_tx}
use polymarket_go.Clob.Effects.{annotate-ok, or_wrap, ◌>>=◌, return, continue-ok, Io, lift}
use polymarket_go.Clob.Relayer.Submit.{
  submit_request, post_submit, decode_reply, TxSendResult, check_submit_status, reply_id, submit,
  preflight_and_submit, send_proxy_tx_batch_with_report, send_with_report,
}
use polymarket_go.Clob.Relayer.PreflightLaws.{IsCleared, preflight_proxy_tx_batch-IsCleared}
use polymarket_go.Clob.Onchain.BuilderLaws.{BuildOp, chain, total_width, proxy_calls-chain}

-- The reply's status decides: 200 and 201 pass the body on; any other is an error, which is the
-- sentinel of the rate limit exactly for 429.
pub check_submit_status_cases :
    (r : TxPreflightReport) (status : ℕ) (body : Text)
    → (((status ≡ 200) ⊎ (status ≡ 201)) × (check_submit_status r status body ≡ ok body))
      ⊎ ((e : GoError) × (check_submit_status r status body ≡ err e)
          × (status ≢ 200)
          × (status ≢ 201)
          × ((is_error e relayer_rate_limited ≡ true) ↔ (status ≡ 429)))
unfolding check_submit_status is_error
check_submit_status_cases r status body = elim (Bool-cases (status == 429)) [
  | inl t ↦ inr (
    relayer relayer_rate_limited (some r) (status_error (lit "submit") status body),
    ground arith,
    ground arith,
    ground arith,
    ground arith,
  )
  | inr f ↦ elim (Bool-cases (status == 200 || status == 201)) [
    | inl g ↦ inl (ground arith, ground arith)
    | inr g ↦ inr (
      status_error (lit "submit") status body,
      ground arith,
      ground arith,
      ground arith,
      ground arith,
    )
  ]
]

reply_id-ne-nil : (sr : SubmitReply) (body tx_id : Text) → reply_id sr body ≡ ok tx_id → tx_id ≢ []
unfolding reply_id
reply_id-ne-nil sr body tx_id h = ground arith

module _ {W : Type 0} (d : Deps W) (oc : OnChainClient) where
  decode_reply-ne-nil : (body tx_id : Text) → decode_reply d oc body ≡ ok tx_id → tx_id ≢ []
  unfolding decode_reply
  decode_reply-ne-nil body tx_id h = elim (Result-cases (d.decode_submit_reply body)) [
    | inl (sr, e) ↦ reply_id-ne-nil sr body tx_id (ground arith)
    | inr (x, e) ↦ absurd (ground arith)
  ]

  -- The request that carried a batch to the relayer, and the reply that accepted it with this id.
  pub record IsPosted (req : ProxyRelayRequest) (tx_id : Text) : Type 0 where
    pub posted : Request
    pub reply : Response
    pub before : W
    pub after : W
    pub body : Text
    pub made : d.new_request (submit_request d oc req) ≡ ok posted
    pub answered : d.http_do posted before ≡ (ok reply, after)
    pub accepted : (reply.status ≡ 200) ⊎ (reply.status ≡ 201)
    pub read : reply.body ≡ ok body
    pub named : decode_reply d oc body ≡ ok tx_id

  check_submit_status-ok :
      (r : TxPreflightReport) (status : ℕ) (text body : Text)
      → check_submit_status r status text ≡ ok body
      → ((status ≡ 200) ⊎ (status ≡ 201)) × (text ≡ body)
  check_submit_status-ok r status text body h = elim (check_submit_status_cases r status text) [
    | inl (good, e) ↦ (good, ground arith)
    | inr (x, e, a, b, c) ↦ absurd (ground arith)
  ]

  post_submit-IsPosted :
      (req : ProxyRelayRequest) (w v : W) (body tx_id : Text)
      → post_submit d oc req w ≡ (ok body, v)
      → decode_reply d oc body ≡ ok tx_id
      → IsPosted req tx_id
  unfolding post_submit
  post_submit-IsPosted req w v body tx_id h named =
      let (posted, w1, e1, h1) =
        continue-ok
          (or_wrap (lit "create submit request") (lift (d.new_request (submit_request d oc req))) w)
          _ body v h in
      let (reply, w2, e2, h2) =
        continue-ok (or_wrap (lit "submit") (d.http_do posted) w1) _ body v h1 in
      let (text, w3, e3, h3) =
        continue-ok (or_wrap (lit "read submit body") (lift reply.body) w2) _ body v h2 in
      let made = annotate-ok (lit "create submit request") _ posted w1 e1 in
      let read = annotate-ok (lit "read submit body") _ text w3 e3 in
      let (good, same) = check_submit_status-ok req.report reply.status text body (λ i. (h3 i).0) in
      record {
        posted = posted;
        reply = reply;
        before = w1;
        after = w2;
        body = body;
        made = λ i. (made i).0;
        answered = annotate-ok (lit "submit") _ reply w2 e2;
        accepted = good;
        read = (λ i. (read i).0) ∙ ap ok same;
        named = named;
      }

  submit_lem :
      (req : ProxyRelayRequest) (w v : W) (res : TxSendResult)
      → submit d oc req w ≡ (ok res, v)
      → (res.tx_id ≢ []) × (res.preflight ≡ req.report) × IsPosted req res.tx_id
  unfolding submit
  submit_lem req w v res h =
      let (body, w1, e1, h1) = continue-ok (post_submit d oc req w) (with_reply req) res v h in
      elim (Result-cases (decode_reply d oc body)) [
        | inl (tx_id, e) ↦
            let p : tx_id ≡ res.tx_id = ground arith in
            (
              subst (λ t. t ≢ []) p (decode_reply-ne-nil body tx_id e),
              ground arith,
              subst (IsPosted req) p (post_submit-IsPosted req w w1 body tx_id e1 e),
            )
        | inr (x, e) ↦ absurd (ground arith)
      ]
    where
      with_reply : ProxyRelayRequest → Text → Io W TxSendResult
      with_reply req body = lift (decode_reply d oc body) >>= λ tx_id.
          return (record { tx_id = tx_id; preflight = req.report })

  -- For a batch that was sent without an error there is a request cleared by the preflight for these
  -- calls, whose report is returned; its body was posted to the relayer, and a reply of status 200 or
  -- 201 gave the id that is returned, which is not empty.
  pub send_proxy_tx_batch_with_report-IsCleared :
      (cs : List ProxyCallArg) (w v : W) (res : TxSendResult)
      → send_proxy_tx_batch_with_report d oc cs w ≡ (ok res, v)
      → (req : ProxyRelayRequest) × IsCleared d oc cs req
        × (res.preflight ≡ req.report)
        × (res.tx_id ≢ [])
        × IsPosted req res.tx_id
  unfolding send_proxy_tx_batch_with_report preflight_and_submit
  send_proxy_tx_batch_with_report-IsCleared cs w v res h =
      let (u, w1, e1, h1) =
        continue-ok (check_context d oc w) (λ u. preflight_and_submit d oc cs) res v h in
      let (req, w2, e2, h2) =
        continue-ok (preflight_proxy_tx_batch d oc cs w1) (submit d oc) res v h1 in
      let (id, report, posted) = submit_lem req w2 v res h2 in
      (req, preflight_proxy_tx_batch-IsCleared d oc cs w1 w2 req e2, report, id, posted)

  -- A cancelled context stops a batch before anything is encoded, fetched or sent.
  pub send_cancelled :
      (cs : List ProxyCallArg) (w : W)
      → d.cancelled w ≡ true
      → send_proxy_tx_batch_with_report d oc cs w ≡ (err context_done, w)
  unfolding send_proxy_tx_batch_with_report check_context
  send_cancelled cs w h = rw h

-- A transaction built by a chain of methods and sent without an error reports as many operations as
-- the methods ask for, a signed gas limit within the guard's maximum and a simulation that
-- succeeded, and has an id that is not empty.
pub send_with_report-chain :
    {W : Type 0} (d : Deps W) (oc : OnChainClient) (os : List BuildOp) (w v : W)
    (res : TxSendResult)
    → send_with_report d (chain d (new_tx oc) os) w ≡ (ok res, v)
    → (res.preflight.ops ≡ total_width os)
      × (res.preflight.signed_gas_limit ≤ res.preflight.approx_max_signed_gas)
      × (res.preflight.relay_hub_simulation_ok ≡ true)
      × (res.tx_id ≢ [])
unfolding send_with_report
send_with_report-chain {W} d oc os w v res h =
    let b = chain d (new_tx oc) os in
    let (cs, w1, e1, h1) =
      continue-ok (lift (proxy_calls b) w) (send_proxy_tx_batch_with_report d b.oc) res v h in
    let (one, len, plain) =
      proxy_calls-chain d oc os cs (ap (λ (p : Result GoError (List ProxyCallArg) × W). p.0) e1) in
    let (req, c, report, id, posted) =
      send_proxy_tx_batch_with_report-IsCleared d b.oc cs w1 v res h1 in
    (
      ap (λ (r : TxPreflightReport). r.ops) report ∙ c.counted ∙ len,
      rw report c.fits,
      ap (λ (r : TxPreflightReport). r.relay_hub_simulation_ok) report ∙ c.simulated,
      id,
    )
