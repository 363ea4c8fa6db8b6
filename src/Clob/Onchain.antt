-- ===== src/Clob/Onchain.antt =====
-- clob/onchain.go: the on-chain client, and the call data of its operations.
pub mod Builder
pub mod BuilderLaws
pub mod Approval
pub mod ApprovalLaws
pub mod Setup
use polymarket_go.Prelude.{
  ℕ, ◌+◌, ◌-◌, ◌%◌, Bool, List, [], ◌∷◌, ◌++◌, Text, lit, Result, ok, err, ◌>>=◌, if◌then◌else◌,
  ltb, ◌==◌, length, replicate, take, drop,
}
use polymarket_go.Prelude.Words.{ℤ, pos}
use polymarket_go.Clob.Errors.{GoError, panicked}
use polymarket_go.Clob.Deps.{
  Address, AbiArg, address, fixed32, uint, uints, flag, Abi, ctf, neg_risk, Deps,
}
use polymarket_go.Clob.Relayer.Gas.{default_relayer_outer_gas_limit}

-- The fields of `OnChainClient` that are data; its HTTP and Ethereum clients are in `Deps`.
pub record OnChainClient : Type 0 where
  pub from_addr : Address
  pub factory_addr : Address
  pub ctf_addr : Address
  pub ctf_collateral_adapter_addr : Address
  pub neg_risk_ctf_addr : Address
  pub neg_risk_collateral_adapter_addr : Address
  pub collateral_addr : Address
  pub relay_hub : Address
  pub relayer_api_key : Text
  pub relayer_outer_gas_limit : ℕ
  pub approved : List Address
  -- `eth` is not nil
  pub has_eth : Bool

unfoldable pub effective_relayer_outer_gas_limit : OnChainClient → ℕ
effective_relayer_outer_gas_limit oc =
    if oc.relayer_outer_gas_limit == 0
    then default_relayer_outer_gas_limit
    else oc.relayer_outer_gas_limit

abbrev pub parent_collection_id_zero : Text
parent_collection_id_zero = replicate 32 0

abbrev pub binary_partition : List ℤ
binary_partition = pos 1 ∷ pos 2 ∷ []

-- `var id [32]byte; copy(id[32-len(b):], b)`: more than 32 bytes make the slice bound negative.
unfoldable pub right_align32 : Text → Result GoError Text
right_align32 b = if ltb 32 (length b) then err panicked else ok (replicate (32 - length b) 0 ++ b)

module _ {W : Type 0} (d : Deps W) where
  unfoldable pub pack_split_merge :
      OnChainClient → Text → Text → ℤ → Bool → Result GoError (Address × Text)
  pack_split_merge oc method condition_id amount neg = do
    cond_id ← right_align32 (d.from_hex condition_id)
    let target = if neg then oc.neg_risk_collateral_adapter_addr else oc.ctf_collateral_adapter_addr
    calldata ← d.abi_pack ctf method (
        address oc.collateral_addr
        ∷ fixed32 parent_collection_id_zero
        ∷ fixed32 cond_id
        ∷ uints binary_partition
        ∷ uint amount
        ∷ [])
    ok (target, calldata)

  unfoldable pub pack_convert : OnChainClient → Text → ℤ → ℤ → Result GoError (Address × Text)
  pack_convert oc market_id index_set amount = do
    m_id ← right_align32 (d.from_hex market_id)
    calldata ←
        d.abi_pack neg_risk (lit "convertPositions")
          (fixed32 m_id ∷ uint index_set ∷ uint amount ∷ [])
    ok (oc.neg_risk_collateral_adapter_addr, calldata)

  unfoldable pub pack_redeem : OnChainClient → Text → Result GoError (Address × Text)
  pack_redeem oc condition_id = do
    cond_id ← right_align32 (d.from_hex condition_id)
    calldata ← d.abi_pack ctf (lit "redeemPositions") (
        address oc.collateral_addr
        ∷ fixed32 parent_collection_id_zero
        ∷ fixed32 cond_id
        ∷ uints binary_partition
        ∷ [])
    ok (oc.ctf_collateral_adapter_addr, calldata)
