-- ===== src/Clob/Relayer/Gas.antt =====
-- The gas arithmetic of clob/relayer.go, with the constants of clob/onchain.go. Every quantity is a
-- uint64; call data is a list of bytes.
use polymarket_go.Prelude.{
  ℕ, ◌+◌, ◌*◌, ◌/◌, List, [], ◌∷◌, ltb, leb, ◌==◌, if◌then◌else◌, Result, ok, err,
}
use polymarket_go.Prelude.Words.{u64, sub64}

abbrev pub relayer_gas_margin_min : ℕ
relayer_gas_margin_min = 50000

abbrev pub relayer_gas_margin_bps : ℕ
relayer_gas_margin_bps = 1500

abbrev pub default_relayer_outer_gas_limit : ℕ
default_relayer_outer_gas_limit = 10000000

abbrev pub relay_hub_guard_reserve_gas : ℕ
relay_hub_guard_reserve_gas = 350000

abbrev pub relay_hub_pre_guard_gas : ℕ
relay_hub_pre_guard_gas = 25000

abbrev pub tx_base_gas : ℕ
tx_base_gas = 21000

abbrev pub tx_data_zero_gas : ℕ
tx_data_zero_gas = 4

abbrev pub tx_data_non_zero_gas : ℕ
tx_data_non_zero_gas = 16

-- `relayerGasMargin`: the product wraps before the division.
unfoldable pub relayer_gas_margin : ℕ → ℕ
relayer_gas_margin estimate =
    let pct = u64 (estimate * relayer_gas_margin_bps) / 10000 in
    if ltb pct relayer_gas_margin_min then relayer_gas_margin_min else pct

-- The loop of `relayCallIntrinsicGas`, from the gas counted so far.
unfoldable pub intrinsic_gas_from : ℕ → List ℕ → ℕ
intrinsic_gas_from gas [] = gas
intrinsic_gas_from gas (b ∷ data') =
    intrinsic_gas_from (u64 (gas + (if b == 0 then tx_data_zero_gas else tx_data_non_zero_gas)))
      data'

unfoldable pub relay_call_intrinsic_gas : List ℕ → ℕ
unfolding intrinsic_gas_from
relay_call_intrinsic_gas data' = intrinsic_gas_from tx_base_gas data'

-- What `maxGuardRelayGasLimit` returns: the largest gas limit and the intrinsic gas, or the error
-- "relay calldata too large", beside which the intrinsic gas is returned too.
unfoldable pub max_guard_relay_gas_limit :
    List ℕ → ℕ → Result ℕ (record { max_gas : ℕ; relay_call_gas : ℕ })
max_guard_relay_gas_limit relay_call_data outer_gas_limit =
    let relay_call_gas = relay_call_intrinsic_gas relay_call_data in
    let required =
      u64 (u64 (relay_call_gas + relay_hub_guard_reserve_gas) + relay_hub_pre_guard_gas) in
    if leb outer_gas_limit required
    then err relay_call_gas
    else ok (record { max_gas = sub64 outer_gas_limit required; relay_call_gas = relay_call_gas })
