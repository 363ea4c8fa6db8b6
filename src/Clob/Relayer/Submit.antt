-- ===== src/Clob/Relayer/Submit.antt =====
-- Sending a batch to the relayer: `sendProxyTxBatchWithReport` and its callers in clob/relayer.go
-- and clob/onchain.go.
use polymarket_go.Prelude.{
  ℕ, Bool, ◌||◌, List, [], ◌∷◌, ◌++◌, Text, lit, is_empty, Result, ok, err, some, if◌then◌else◌,
  ◌==◌,
}
use polymarket_go.Prelude.Words.{ℤ, pos}
use polymarket_go.Prelude.Strings.{to_lower}
use polymarket_go.Clob.Errors.{
  wrapped, GoError, failed, relayer, relayer_rate_limited, TxPreflightReport,
}
use polymarket_go.Clob.Deps.{Deps, ProxyCallArg, Address, Request, SubmitReply}
use polymarket_go.Clob.Onchain.{OnChainClient}
use polymarket_go.Clob.Relayer.Preflight.{
  ProxyRelayRequest, relayer_url, status_error, preflight_proxy_tx_batch, check_context,
}
use polymarket_go.Clob.Onchain.{pack_split_merge}
use polymarket_go.Clob.Onchain.Builder.{TxBuilder, proxy_calls, call_type_call}
use polymarket_go.Clob.Effects.{◌>>=◌, Io, lift, return, or_wrap}

pub record TxSendResult : Type 0 where
  pub tx_id : Text
  pub preflight : TxPreflightReport

-- The status checks of the reply.
unfoldable pub check_submit_status : TxPreflightReport → ℕ → Text → Result GoError Text
check_submit_status r status body =
    if status == 429
    then err (relayer relayer_rate_limited (some r) (status_error (lit "submit") status body))
    else if status == 200 || status == 201
    then ok body
    else err (status_error (lit "submit") status body)

-- The transaction's id, or its hash where there is no id.
unfoldable pub reply_id : SubmitReply → Text → Result GoError Text
reply_id sr body =
    let tx_id = if is_empty sr.transaction_id then sr.tx_hash else sr.transaction_id in
    if is_empty tx_id then err (failed (lit "no transaction ID: " ++ body)) else ok tx_id

module _ {W : Type 0} (d : Deps W) (oc : OnChainClient) where
  unfoldable pub submit_request : ProxyRelayRequest → Request
  submit_request req = record {
    method = lit "POST";
    url = relayer_url ++ lit "/submit";
    headers =
        (lit "Content-Type", lit "application/json")
        ∷ (lit "RELAYER_API_KEY", oc.relayer_api_key)
        ∷ (lit "RELAYER_API_KEY_ADDRESS", to_lower (d.address_hex oc.from_addr))
        ∷ [];
    body = d.encode_submit_body req.body;
  }

  -- From the request to the body of an accepted reply,
  unfoldable pub post_submit : ProxyRelayRequest → Io W Text
  post_submit req = do
    sub_req ← or_wrap (lit "create submit request") (lift (d.new_request (submit_request req)))
    resp ← or_wrap (lit "submit") (d.http_do sub_req)
    body ← or_wrap (lit "read submit body") (lift resp.body)
    lift (check_submit_status req.report resp.status body)

  -- the id that the body holds,
  unfoldable pub decode_reply : Text → Result GoError Text
  decode_reply body = elim (d.decode_submit_reply body) [
    | err e ↦ err (wrapped (lit "parse submit response") e)
    | ok sr ↦ reply_id sr body
  ]

  -- and both.
  unfoldable pub submit : ProxyRelayRequest → Io W TxSendResult
  submit req = do
    body ← post_submit req
    tx_id ← lift (decode_reply body)
    return (record { tx_id = tx_id; preflight = req.report })

  unfoldable pub preflight_and_submit : List ProxyCallArg → Io W TxSendResult
  preflight_and_submit cs = do req ← preflight_proxy_tx_batch d oc cs; submit req

  unfoldable pub send_proxy_tx_batch_with_report : List ProxyCallArg → Io W TxSendResult
  send_proxy_tx_batch_with_report cs = do u ← check_context d oc; preflight_and_submit cs

  unfoldable pub send_proxy_tx_batch : List ProxyCallArg → Io W Text
  send_proxy_tx_batch cs = do res ← send_proxy_tx_batch_with_report cs; return res.tx_id

  unfoldable pub send_proxy_tx : Address → Text → Io W Text
  send_proxy_tx target calldata =
      send_proxy_tx_batch (
        record { type_code = call_type_call; to = target; value = pos 0; calldata = calldata } ∷ [])

  -- `SplitPosition` and `MergePositions`.
  unfoldable pub split_position : Text → ℤ → Bool → Io W Text
  split_position condition_id amount neg = do
    packed ← lift (pack_split_merge d oc (lit "splitPosition") condition_id amount neg)
    or_wrap (lit "splitPosition") (send_proxy_tx packed.0 packed.1)

  unfoldable pub merge_positions : Text → ℤ → Bool → Io W Text
  merge_positions condition_id amount neg = do
    packed ← lift (pack_split_merge d oc (lit "mergePositions") condition_id amount neg)
    or_wrap (lit "mergePositions") (send_proxy_tx packed.0 packed.1)

-- `TxBuilder.Preflight`, `SendWithReport` and `Send`.
unfoldable pub builder_preflight : {W : Type 0} → Deps W → TxBuilder → Io W TxPreflightReport
builder_preflight d b = do
  cs ← lift (proxy_calls b)
  req ← preflight_proxy_tx_batch d b.oc cs
  return req.report

unfoldable pub send_with_report : {W : Type 0} → Deps W → TxBuilder → Io W TxSendResult
send_with_report d b = do cs ← lift (proxy_calls b); send_proxy_tx_batch_with_report d b.oc cs

unfoldable pub send : {W : Type 0} → Deps W → TxBuilder → Io W Text
send d b = do res ← send_with_report d b; return res.tx_id
