-- ===== src/Clob/Onchain/Approval.antt =====
-- Approvals of clob/onchain.go: the cache of `EnsureApproval`, and `CheckApprovals`.
use polymarket_go.Prelude.{
  ℕ, ◌-◌, ◌/◌, ◌^◌, Bool, false, ◌&&◌, ◌||◌, List, [], ◌∷◌, ◌++◌, Text, lit, text_eq, Result, ok,
  err, none, if◌then◌else◌, leb,
}
use polymarket_go.Prelude.Words.{ℤ, pos, negsuc}
use polymarket_go.Clob.Errors.{GoError, failed, wrapped}
use polymarket_go.Clob.Deps.{Deps, Address, AbiArg, address, uint, Abi, ctf, erc20_approve}
use polymarket_go.Clob.Onchain.{OnChainClient}
use polymarket_go.Clob.Relayer.Preflight.{derive_proxy_wallet}
use polymarket_go.Clob.Onchain.Builder.{max_uint256}
use polymarket_go.Clob.Relayer.Submit.{send_proxy_tx}
use polymarket_go.Clob.Deps.{AbiOut, out_int, out_bool}
use polymarket_go.Clob.Effects.{◌>>=◌, Io, lift, return, or_wrap}

-- Membership of an address.
unfoldable pub is_approved : List Address → Address → Bool
is_approved [] a = false
is_approved (x ∷ xs) a = text_eq x a || is_approved xs a

pub record ApprovalState : Type 0 where
  pub proxy_wallet : Address
  pub standard_collateral_approved : Bool
  pub standard_ctf_approved : Bool
  pub neg_risk_collateral_approved : Bool
  pub neg_risk_ctf_approved : Bool

unfoldable pub standard_ready : ApprovalState → Bool
standard_ready s = s.standard_collateral_approved && s.standard_ctf_approved

unfoldable pub neg_risk_ready : ApprovalState → Bool
neg_risk_ready s = s.neg_risk_collateral_approved && s.neg_risk_ctf_approved

-- `maxApprovalThreshold`: 2 ^ 256 - 1 shifted right by one.
abbrev pub max_approval_threshold : ℕ
max_approval_threshold = (2 ^ 256 - 1) / 2

abbrev pub reaches_threshold : ℤ → Bool
reaches_threshold (pos n) = leb max_approval_threshold n
reaches_threshold (negsuc n) = false

-- The checks of what the call unpacked to.
unfoldable pub read_allowance : List AbiOut → Result GoError Bool
read_allowance [] = err (failed (lit "unexpected allowance outputs: 0"))
read_allowance (out_int v ∷ []) = ok (reaches_threshold v)
read_allowance (_ ∷ []) = err (failed (lit "unexpected allowance type"))
read_allowance (_ ∷ _ ∷ _) = err (failed (lit "unexpected allowance outputs"))

unfoldable pub read_approved : List AbiOut → Result GoError Bool
read_approved [] = err (failed (lit "unexpected isApprovedForAll outputs: 0"))
read_approved (out_bool v ∷ []) = ok v
read_approved (_ ∷ []) = err (failed (lit "unexpected isApprovedForAll type"))
read_approved (_ ∷ _ ∷ _) = err (failed (lit "unexpected isApprovedForAll outputs"))

module _ {W : Type 0} (d : Deps W) where
  -- `EnsureApproval`: the client with its cache, as it is left.
  unfoldable pub note_approval :
      OnChainClient → Address → Result GoError Text × W → Result GoError Text × OnChainClient × W
  note_approval oc spender (ok tx_id, w) =
      (ok tx_id, record oc { approved = spender ∷ oc.approved }, w)
  note_approval oc spender (err e, w) = (err (wrapped (lit "approve") e), oc, w)

  unfoldable pub send_approval :
      OnChainClient → Address → Result GoError Text → W → Result GoError Text × OnChainClient × W
  unfolding note_approval
  send_approval oc spender (err e) w = (err e, oc, w)
  send_approval oc spender (ok calldata) w =
      note_approval oc spender (send_proxy_tx d oc oc.collateral_addr calldata w)

  unfoldable pub ensure_approval :
      OnChainClient → Address → W → Result GoError Text × OnChainClient × W
  unfolding send_approval
  ensure_approval oc spender w =
      if is_approved oc.approved spender
      then (ok [], oc, w)
      else send_approval oc spender
          (d.abi_pack erc20_approve (lit "approve") (address spender ∷ uint max_uint256 ∷ [])) w

  unfoldable pub ensure_approval_for_split :
      OnChainClient → Bool → W → Result GoError Text × OnChainClient × W
  unfolding ensure_approval
  ensure_approval_for_split oc neg =
      if neg
      then ensure_approval oc oc.neg_risk_collateral_adapter_addr
      else ensure_approval oc oc.ctf_collateral_adapter_addr

  unfoldable pub call_contract : Address → Abi → Text → List AbiArg → Io W (List AbiOut)
  call_contract target abi method args = do
    packed ← or_wrap (lit "pack " ++ method) (lift (d.abi_pack abi method args))
    raw ←
        or_wrap (lit "call " ++ method)
          (d.call_contract (record { from = none; to = target; gas = 0; calldata = packed }))
    or_wrap (lit "unpack " ++ method) (lift (d.abi_unpack abi method raw))

  unfoldable pub has_max_collateral_allowance : OnChainClient → Address → Address → Io W Bool
  has_max_collateral_allowance oc owner spender = do
    out ←
        call_contract oc.collateral_addr erc20_approve (lit "allowance")
          (address owner ∷ address spender ∷ [])
    lift (read_allowance out)

  unfoldable pub has_ctf_approval_for_all : OnChainClient → Address → Address → Io W Bool
  has_ctf_approval_for_all oc owner operator = do
    out ←
        call_contract oc.ctf_addr ctf (lit "isApprovedForAll")
          (address owner ∷ address operator ∷ [])
    lift (read_approved out)

  unfoldable pub check_approvals : OnChainClient → Io W ApprovalState
  check_approvals oc = do
    let proxy_wallet = derive_proxy_wallet d oc oc.from_addr
    standard ←
        or_wrap (lit "check standard collateral allowance")
          (has_max_collateral_allowance oc proxy_wallet oc.ctf_collateral_adapter_addr)
    standard_ctf ←
        or_wrap (lit "check standard ctf approval")
          (has_ctf_approval_for_all oc proxy_wallet oc.ctf_collateral_adapter_addr)
    neg_collateral ←
        or_wrap (lit "check neg-risk collateral allowance")
          (has_max_collateral_allowance oc proxy_wallet oc.neg_risk_collateral_adapter_addr)
    neg_ctf ←
        or_wrap (lit "check neg-risk ctf approval")
          (has_ctf_approval_for_all oc proxy_wallet oc.neg_risk_collateral_adapter_addr)
    return (record {
      proxy_wallet = proxy_wallet;
      standard_collateral_approved = standard;
      standard_ctf_approved = standard_ctf;
      neg_risk_collateral_approved = neg_collateral;
      neg_risk_ctf_approved = neg_ctf;
    })
