-- ===== src/Clob/Onchain/Builder.antt =====
-- `TxBuilder` of clob/onchain.go: operations are collected, the first error sticks.
use polymarket_go.Prelude.{
  ℕ, ◌-◌, ◌^◌, Bool, List, [], ◌∷◌, ◌++◌, map, Text, lit, Result, Option, none, some, is_none, ok,
  err, if◌then◌else◌,
}
use polymarket_go.Prelude.Words.{ℤ, pos}
use polymarket_go.Clob.Errors.{GoError, failed}
use polymarket_go.Clob.Deps.{Address, address, uint, flag, ctf, erc20_approve, Deps, ProxyCallArg}
use polymarket_go.Clob.Onchain.{OnChainClient, pack_split_merge, pack_convert, pack_redeem}

pub record TxOp : Type 0 where
  pub target : Address
  pub calldata : Text

-- `oc` is the client the builder was made by; `error` is none until an operation fails.
pub record TxBuilder : Type 0 where
  pub oc : OnChainClient
  pub ops : List TxOp
  pub error : Option GoError

unfoldable pub new_tx : OnChainClient → TxBuilder
new_tx oc = record { oc = oc; ops = []; error = none }

-- `if err != nil { b.err = err; return b }`, then the append.
unfoldable pub add_packed : TxBuilder → Result GoError (Address × Text) → TxBuilder
add_packed b (ok (target, calldata)) = record b {
  ops = b.ops ++ record { target = target; calldata = calldata } ∷ [];
}
add_packed b (err e) = record b { error = some e }

abbrev pub max_uint256 : ℤ
max_uint256 = pos (2 ^ 256 - 1)

abbrev pub call_type_call : ℕ
call_type_call = 1

module _ {W : Type 0} (d : Deps W) where
  unfoldable pub split : TxBuilder → Text → ℤ → Bool → TxBuilder
  unfolding add_packed
  split b condition_id amount neg =
      if is_none b.error
      then add_packed b (pack_split_merge d b.oc (lit "splitPosition") condition_id amount neg)
      else b

  unfoldable pub merge : TxBuilder → Text → ℤ → Bool → TxBuilder
  unfolding add_packed
  merge b condition_id amount neg =
      if is_none b.error
      then add_packed b (pack_split_merge d b.oc (lit "mergePositions") condition_id amount neg)
      else b

  unfoldable pub convert : TxBuilder → Text → ℤ → ℤ → TxBuilder
  unfolding add_packed
  convert b market_id index_set amount =
      if is_none b.error then add_packed b (pack_convert d b.oc market_id index_set amount) else b

  unfoldable pub redeem : TxBuilder → Text → TxBuilder
  unfolding add_packed
  redeem b condition_id =
      if is_none b.error then add_packed b (pack_redeem d b.oc condition_id) else b

  -- The second call of `Approve`, made once the first operation is appended.
  unfoldable pub approve_operator : TxBuilder → Address → TxBuilder
  approve_operator b operator =
      elim (d.abi_pack ctf (lit "setApprovalForAll") (address operator ∷ flag Bool.true ∷ [])) [
        | err e ↦ record b { error = some e }
        | ok cd ↦ record b { ops = b.ops ++ record { target = b.oc.ctf_addr; calldata = cd } ∷ [] }
      ]

  -- What follows the packing of the first call.
  unfoldable pub approve_from : TxBuilder → Address → Result GoError Text → TxBuilder
  approve_from b spender (err e) = record b { error = some e }
  approve_from b spender (ok cd) =
      approve_operator
        (record b { ops = b.ops ++ record { target = b.oc.collateral_addr; calldata = cd } ∷ [] })
        spender

  unfoldable pub approve : TxBuilder → Bool → TxBuilder
  unfolding approve_operator approve_from
  approve b neg =
      let spender =
        if neg then b.oc.neg_risk_collateral_adapter_addr else b.oc.ctf_collateral_adapter_addr in
      if is_none b.error
      then approve_from b spender
          (d.abi_pack erc20_approve (lit "approve") (address spender ∷ uint max_uint256 ∷ []))
      else b

abbrev pub to_call : TxOp → ProxyCallArg
to_call op = record {
  type_code = call_type_call;
  to = op.target;
  value = pos 0;
  calldata = op.calldata;
}

unfoldable pub calls_of : List TxOp → Result GoError (List ProxyCallArg)
calls_of [] = err (failed (lit "empty transaction"))
calls_of (op ∷ ops) = ok (map to_call (op ∷ ops))

unfoldable pub proxy_calls : TxBuilder → Result GoError (List ProxyCallArg)
unfolding calls_of
proxy_calls b = elim b.error [ none ↦ calls_of b.ops | some e ↦ err e ]
