-- ===== src/Clob/Relayer/Sign.antt =====
-- Signing and packing the relay call, and the search for the largest gas limit (clob/relayer.go,
-- clob/auth.go).
use polymarket_go.Prelude.Strings.{decimal}
use polymarket_go.Prelude.{
  ◌>>=◌, ℕ, zero, suc, ◌+◌, ◌%◌, true, false, ◌&&◌, List, [], ◌∷◌, ◌++◌, Text, lit, Result, ok, err,
  wrap_err, if◌then◌else◌, ltb, leb, ◌==◌, take, drop,
}
use polymarket_go.Prelude.Words.{ℤ, pos, sub64}
use polymarket_go.Clob.Errors.{GoError, panicked, failed, wrapped}
use polymarket_go.Clob.Deps.{Deps, Address, address, uint, dynamic, relay_hub}
use polymarket_go.Clob.Onchain.{OnChainClient, effective_relayer_outer_gas_limit}
use polymarket_go.Clob.Relayer.Gas.{
  max_guard_relay_gas_limit, relay_hub_guard_reserve_gas, relay_hub_pre_guard_gas, tx_base_gas,
}

-- `encodePacked` of clob/auth.go.
unfoldable pub encode_packed : List Text → Text
encode_packed [] = []
encode_packed (p ∷ parts) = p ++ encode_packed parts

-- `sig[64] += 27` on a byte; a shorter signature panics.
unfoldable pub add_recovery_id : Text → Result GoError Text
add_recovery_id sig = elim (drop 64 sig) [
  | [] ↦ err panicked
  | v ∷ rest ↦ ok (take 64 sig ++ ((v + 27) % 256) ∷ rest)
]

abbrev pub eth_message_prefix : Text
eth_message_prefix = 25 ∷ lit "Ethereum Signed Message:" ++ (10 ∷ lit "32")

module _ {W : Type 0} (d : Deps W) (oc : OnChainClient) (encoded_function : Text) where
  unfoldable pub relay_preimage : ℕ → Address → ℤ → Text
  unfolding encode_packed
  relay_preimage gas_limit relay_addr nonce = encode_packed (
      lit "rlx:"
      ∷ oc.from_addr
      ∷ oc.factory_addr
      ∷ encoded_function
      ∷ d.u256_bytes (pos 0)
      ∷ d.u256_bytes (pos 0)
      ∷ d.u256_bytes (pos gas_limit)
      ∷ d.u256_bytes nonce
      ∷ oc.relay_hub
      ∷ relay_addr
      ∷ [])

  unfoldable pub sign_proxy_relay : ℕ → Address → ℤ → Result GoError Text
  unfolding relay_preimage encode_packed
  sign_proxy_relay gas_limit relay_addr nonce = do
    let relay_hash = d.keccak256 (relay_preimage gas_limit relay_addr nonce)
    sig ← d.sign (d.keccak256 (encode_packed (eth_message_prefix ∷ relay_hash ∷ [])))
    add_recovery_id sig

  unfoldable pub pack_relay_call : ℕ → Address → ℤ → Text → Result GoError Text
  pack_relay_call gas_limit relay_addr nonce sig = d.abi_pack relay_hub (lit "relayCall") (
      address oc.from_addr
      ∷ address oc.factory_addr
      ∷ dynamic encoded_function
      ∷ uint (pos 0)
      ∷ uint (pos 0)
      ∷ uint (pos gas_limit)
      ∷ uint nonce
      ∷ dynamic sig
      ∷ dynamic []
      ∷ [])

-- The best gas limit so far, its signature and its intrinsic gas; gas 0 is none yet.
pub record Best : Type 0 where
  pub gas : ℕ
  pub sig : Text
  pub call_gas : ℕ

-- The intrinsic gas and the outer limit.
unfoldable pub calldata_too_large : ℕ → ℕ → GoError
calldata_too_large intrinsic outer = failed (
    lit "relay calldata too large: intrinsic="
    ++ (decimal intrinsic
        ++ (lit " guard="
            ++ (decimal relay_hub_guard_reserve_gas
                ++ (lit " preGuard="
                    ++ (decimal relay_hub_pre_guard_gas ++ (lit " outer=" ++ decimal outer)))))))

abbrev pub guard_limit : Text → ℕ → Result GoError (record { max_gas : ℕ; relay_call_gas : ℕ })
guard_limit relay_call_data outer =
    wrap_err (λ g. calldata_too_large g outer) (max_guard_relay_gas_limit relay_call_data outer)

module _ (sign : ℕ → Result GoError Text) (pack : ℕ → Text → Result GoError Text) (outer : ℕ) where
  abbrev pub improve : Best → ℕ → Text → record { max_gas : ℕ; relay_call_gas : ℕ } → Best
  improve best gas sig m =
      if leb gas m.max_gas && ltb best.gas gas
      then record { gas = gas; sig = sig; call_gas = m.relay_call_gas }
      else best

  -- The loop of `signMaxGuardRelay`, with the rounds that are left.
  unfoldable pub search_gas : ℕ → ℕ → Best → Result GoError Best
  search_gas zero gas best =
      if best.gas == 0
      then err (failed (lit "could not find relay gas limit passing RelayHub guard"))
      else ok best
  search_gas (suc rounds) gas best = do
    sig ← wrap_err (wrapped (lit "sign")) (sign gas)
    relay_call_data ← pack gas sig
    m ← guard_limit relay_call_data outer
    elim (gas == m.max_gas) [
      | true ↦ ok (record { gas = gas; sig = sig; call_gas = m.relay_call_gas })
      | false ↦ search_gas rounds m.max_gas (improve best gas sig m)
    ]

-- The first guess wraps where the outer limit is below the constants.
abbrev pub first_gas : ℕ → ℕ
first_gas outer =
    sub64 (sub64 (sub64 outer relay_hub_guard_reserve_gas) relay_hub_pre_guard_gas) tx_base_gas

abbrev pub no_best : Best
no_best = record { gas = 0; sig = []; call_gas = 0 }

unfoldable pub sign_max_guard_relay :
    {W : Type 0} → Deps W → OnChainClient → Text → Address → ℤ → Result GoError Best
sign_max_guard_relay d oc encoded_function relay_addr nonce =
    let outer = effective_relayer_outer_gas_limit oc in
    search_gas (λ gas. sign_proxy_relay d oc encoded_function gas relay_addr nonce)
      (λ gas sig. pack_relay_call d oc encoded_function gas relay_addr nonce sig) outer 12
      (first_gas outer) no_best
