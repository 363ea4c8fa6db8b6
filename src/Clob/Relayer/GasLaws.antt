-- ===== src/Clob/Relayer/GasLaws.antt =====
-- Bounds and exactness of the gas arithmetic of clob/relayer.go.
use polymarket_go.Prelude.{
  ℕ, ◌+◌, ◌-◌, ◌*◌, ◌≤◌, ◌<◌, ◌≡◌, List, [], ◌∷◌, leb, ◌==◌, if◌then◌else◌, ok, err, arith, length,
  ◌⊎◌,
}
use polymarket_go.Prelude.Words.{u64, u64_mod}
use polymarket_go.Clob.Relayer.Gas.{
  relayer_gas_margin, relayer_gas_margin_min, intrinsic_gas_from, relay_call_intrinsic_gas,
  max_guard_relay_gas_limit, tx_base_gas, relay_hub_guard_reserve_gas, relay_hub_pre_guard_gas,
}

-- For an estimate whose product with the basis points does not wrap, the margin is the larger of
-- 50,000 and 15% of the estimate rounded down.
pub relayer_gas_margin_exact :
    (est : ℕ)
    → est * 1500 < u64_mod
    → (relayer_gas_margin_min ≤ relayer_gas_margin est)
      × (est * 1500 < (relayer_gas_margin est + 1) * 10000)
      × ((relayer_gas_margin est ≡ relayer_gas_margin_min)
          ⊎ (relayer_gas_margin est * 10000 ≤ est * 1500))
unfolding relayer_gas_margin
relayer_gas_margin_exact est h = ground arith

-- Bytes of a list that are zero, and that are not.
abbrev pub zeros : List ℕ → ℕ
zeros [] = 0
zeros (b ∷ bs) = if b == 0 then zeros bs + 1 else zeros bs

abbrev pub non_zeros : List ℕ → ℕ
non_zeros [] = 0
non_zeros (b ∷ bs) = if b == 0 then non_zeros bs else non_zeros bs + 1

zeros-non_zeros : (bs : List ℕ) → zeros bs + non_zeros bs ≡ length bs
zeros-non_zeros [] = omega arith
zeros-non_zeros (b ∷ bs) = ground (arith, zeros-non_zeros bs)

intrinsic_gas_from-eq :
    (gas : ℕ) (bs : List ℕ)
    → gas + 16 * length bs < u64_mod
    → intrinsic_gas_from gas bs ≡ gas + 4 * zeros bs + 16 * non_zeros bs
unfolding intrinsic_gas_from
intrinsic_gas_from-eq gas [] h = omega arith
intrinsic_gas_from-eq gas (b ∷ bs) h =
    ground
      (arith, intrinsic_gas_from-eq (u64 (gas + 4)) bs, intrinsic_gas_from-eq (u64 (gas + 16)) bs)

-- Call data of fewer than 2 ^ 59 bytes costs the base gas, 4 for each zero byte and 16 for each
-- other byte.
pub relay_call_intrinsic_gas-eq :
    (bs : List ℕ)
    → length bs < 576460752303423488
    → relay_call_intrinsic_gas bs ≡ tx_base_gas + 4 * zeros bs + 16 * non_zeros bs
unfolding relay_call_intrinsic_gas
relay_call_intrinsic_gas-eq bs h = intrinsic_gas_from-eq tx_base_gas bs (omega arith)

pub relay_call_intrinsic_gas_bounds :
    (bs : List ℕ)
    → length bs < 576460752303423488
    → (tx_base_gas + 4 * length bs ≤ relay_call_intrinsic_gas bs)
      × (relay_call_intrinsic_gas bs ≤ tx_base_gas + 16 * length bs)
relay_call_intrinsic_gas_bounds bs h =
    omega (arith, relay_call_intrinsic_gas-eq bs h, zeros-non_zeros bs)

-- The whole guard: gas the hub needs before the user's call.
abbrev pub guard_gas : List ℕ → ℕ
guard_gas bs = relay_call_intrinsic_gas bs + relay_hub_guard_reserve_gas + relay_hub_pre_guard_gas

-- For call data of fewer than 2 ^ 58 bytes and a uint64 outer limit: the error arises exactly when
-- the outer limit does not exceed the guard's gas, and otherwise the maximum is the rest of it.
pub max_guard_relay_gas_limit-eq :
    (bs : List ℕ) (outer : ℕ)
    → length bs < 288230376151711744
    → outer < u64_mod
    → max_guard_relay_gas_limit bs outer ≡ (
        if leb outer (guard_gas bs)
        then err (relay_call_intrinsic_gas bs)
        else ok (record {
          max_gas = outer - guard_gas bs;
          relay_call_gas = relay_call_intrinsic_gas bs;
        }))
unfolding max_guard_relay_gas_limit
max_guard_relay_gas_limit-eq bs outer h k =
    ground (arith, relay_call_intrinsic_gas_bounds bs (omega arith))
