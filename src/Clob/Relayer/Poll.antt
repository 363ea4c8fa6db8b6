-- ===== src/Clob/Relayer/Poll.antt =====
-- Waiting for a transaction: `pollTransaction`, `WaitForConfirmed`, `fillTxResult` and
-- `classifyRelayerFailure` of clob/relayer.go.
use polymarket_go.Prelude.{
  ℕ, zero, suc, Bool, not, ◌||◌, List, [], ◌∷◌, ◌++◌, Text, lit, text_eq, is_empty, Result, ok, err,
  Option, none, some, if◌then◌else◌, ◌==◌,
}
use polymarket_go.Prelude.Strings.{contains, trim_prefix, to_lower, to_upper, decimal}
use polymarket_go.Clob.Errors.{
  GoError, failed, wrapped, relayer, relayer_guard_gas, inner_relayed_call_failed, message,
}
use polymarket_go.Clob.Deps.{Deps, Receipt, RelayerTx}
use polymarket_go.Clob.Onchain.{OnChainClient}
use polymarket_go.Clob.Relayer.Preflight.{relayer_url, check_context}
use polymarket_go.Clob.Effects.{◌>>=◌, Io, lift, or_wrap}

pub record TxResult : Type 0 where
  pub tx_hash : Text
  pub relayer_state : Text
  pub status : ℕ
  pub gas_limit : ℕ
  pub gas_used : ℕ
  pub error_msg : Text

-- `(nil, "")`, or a result with its state.
abbrev pub Polled : Type 0
Polled = Option (TxResult × Text)

abbrev pub normal_state : Text → Text
normal_state s = trim_prefix (to_upper s) (lit "STATE_")

abbrev pub is_good_state : Text → Bool
is_good_state s =
    text_eq s (lit "EXECUTED") || text_eq s (lit "CONFIRMED") || text_eq s (lit "MINED")

abbrev pub is_bad_state : Text → Bool
is_bad_state s = text_eq s (lit "FAILED") || text_eq s (lit "INVALID")

-- A `TxResult` literal; the fields that it leaves out are zero.
abbrev pub new_result : RelayerTx → ℕ → Text → TxResult
new_result tx status error_msg = record {
  tx_hash = tx.tx_hash;
  relayer_state = normal_state tx.state;
  status = status;
  gas_limit = 0;
  gas_used = 0;
  error_msg = error_msg;
}

-- The switch over the state.
unfoldable pub settle : RelayerTx → Polled
settle tx =
    let state = normal_state tx.state in
    if is_good_state state
    then some (new_result tx 1 [], state)
    else if is_bad_state state
    then some (new_result tx 0 tx.error_msg, state)
    else none

unfoldable pub settle_first : List RelayerTx → Polled
unfolding settle
settle_first [] = none
settle_first (tx ∷ txs) = settle tx

-- `classifyRelayerFailure`, with a result.
unfoldable pub classify_relayer_failure : TxResult → GoError → GoError
classify_relayer_failure result e =
    let msg = to_lower result.error_msg in
    if contains msg (lit "not enough gasleft")
      || contains (to_lower (message e)) (lit "not enough gasleft")
    then relayer relayer_guard_gas none e
    else if contains msg (lit "internal transaction failure")
        || contains msg (lit "captured a revert")
        || result.status == 1
    then relayer inner_relayed_call_failed none e
    else e

-- What `WaitForConfirmed` returns: a result, an error, or both.
pub data Waited : Type 0 where
  confirmed : TxResult → Waited
  reverted : TxResult → GoError → Waited
  stopped : Waited

module _ {W : Type 0} (d : Deps W) (oc : OnChainClient) where
  -- An array of transactions, or one.
  unfoldable pub decode_poll : Text → Result GoError (List RelayerTx)
  decode_poll body = elim (d.decode_txs body) [
    | ok txs ↦ ok txs
    | err e ↦ elim (d.decode_tx body) [
      | ok tx ↦ ok (tx ∷ [])
      | err e2 ↦ err (wrapped (lit "parse response") e)
    ]
  ]

  -- The reply's status and body.
  unfoldable pub read_poll : Text → ℕ → Text → Result GoError Polled
  unfolding decode_poll settle_first
  read_poll path status body =
      if status == 404
      then ok none
      else if status == 200
      then elim (decode_poll body) [ ok txs ↦ ok (settle_first txs) | err e ↦ err e ]
      else err (failed (lit "relayer " ++ path ++ lit ": " ++ decimal status ++ lit " " ++ body))

  unfoldable pub poll_transaction : Text → Io W Polled
  poll_transaction path = do
    u ← check_context d oc
    req ← or_wrap (lit "create request") (
        lift (
          d.new_request
            (record { method = lit "GET"; url = relayer_url ++ path; headers = []; body = [] })))
    resp ← or_wrap (lit "poll " ++ path) (d.http_do req)
    body ← or_wrap (lit "read poll body") (lift resp.body)
    lift (read_poll path resp.status body)

  -- The receipt sets the status and the gas used, the transaction the gas limit, each if found.
  abbrev pub note_receipt : TxResult → Result GoError (Option Receipt) × W → TxResult × W
  note_receipt r (ok (some c), w) = (record r { status = c.status; gas_used = c.gas_used }, w)
  note_receipt r (ok none, w) = (r, w)
  note_receipt r (err e, w) = (r, w)

  abbrev pub note_gas : TxResult → Result GoError (Option ℕ) × W → TxResult × W
  note_gas r (ok (some g), w) = (record r { gas_limit = g }, w)
  note_gas r (ok none, w) = (r, w)
  note_gas r (err e, w) = (r, w)

  unfoldable pub fill_tx_result : TxResult → W → TxResult × W
  fill_tx_result r w =
      let (r1, w1) = note_receipt r (d.transaction_receipt r.tx_hash w) in
      if is_empty r.tx_hash || not oc.has_eth
      then (r, w)
      else note_gas r1 (d.transaction_gas r.tx_hash w1)

  abbrev pub failure_text : Text → TxResult → GoError
  failure_text tx_id r =
      if is_empty r.error_msg
      then failed (lit "tx " ++ tx_id ++ lit " (hash " ++ r.tx_hash ++ lit ") reverted")
      else failed
          (lit "tx " ++ tx_id ++ lit " (hash " ++ r.tx_hash ++ lit ") failed: " ++ r.error_msg)

  -- What one poll decides; none keeps waiting.
  unfoldable pub decide : Text → Result GoError Polled × W → Option Waited × W
  unfolding fill_tx_result
  decide tx_id (err e, w) = (none, w)
  decide tx_id (ok none, w) = (none, w)
  decide tx_id (ok (some (r, state)), w) =
      let (r1, w1) = fill_tx_result r w in
      if r.status == 0
      then (some (reverted r1 (classify_relayer_failure r1 (failure_text tx_id r1))), w1)
      else if text_eq state (lit "CONFIRMED")
      then (some (confirmed r1), w1)
      else (none, w)

  -- One round of the select.
  unfoldable pub wait_round : Text → W → Option Waited × W
  unfolding decide poll_transaction
  wait_round tx_id w =
      let (ticked, w1) = d.await_tick w in
      if ticked
      then decide tx_id (poll_transaction (lit "/transaction?id=" ++ tx_id) w1)
      else (some stopped, w1)

  -- The endless loop on fuel; none is out of fuel.
  unfoldable pub wait_for_confirmed : ℕ → Text → W → Option (Waited × W)
  wait_for_confirmed zero tx_id w = none
  wait_for_confirmed (suc fuel) tx_id w =
      let (o, v) = wait_round tx_id w in
      elim o [ some done ↦ some (done, v) | none ↦ wait_for_confirmed fuel tx_id v ]
