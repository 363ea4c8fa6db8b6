-- ===== src/Clob/Relayer/SignLaws.antt =====
-- The search for the largest signed gas limit, `signMaxGuardRelay` of clob/relayer.go.
use polymarket_go.Clob.Relayer.Gas.{relay_call_intrinsic_gas}
use polymarket_go.Clob.Onchain.{effective_relayer_outer_gas_limit, OnChainClient}
use polymarket_go.Clob.Deps.{Address, Deps}
use polymarket_go.Prelude.Words.{ℤ, u64_mod}
use polymarket_go.Clob.Relayer.GasLaws.{
  guard_gas, relay_call_intrinsic_gas_bounds, max_guard_relay_gas_limit-eq,
}
use polymarket_go.Prelude.{
  refl, ◌+◌, lit, err, ◌<◌, length, ◌==◌, subst, ==_iff, ℕ, zero, suc, ◌≤◌, ◌≡◌, ◌&&◌, Text, Result,
  Result-cases, ok, ltb, leb, arith, inl, inr, ◌⊎◌, Bool-cases,
}
use polymarket_go.Clob.Errors.{wrapped, GoError}
use polymarket_go.Clob.Relayer.Sign.{
  first_gas, no_best, sign_proxy_relay, sign_max_guard_relay, pack_relay_call, calldata_too_large,
  Best, search_gas, improve, guard_limit,
}

module _ (sign : ℕ → Result GoError Text) (pack : ℕ → Text → Result GoError Text) (outer : ℕ) where
  -- The signature is that of the gas limit, and the call packed with both passes the guard.
  pub record Fits (b : Best) : Type 0 where
    pub call : Text
    pub max_gas : ℕ
    pub signed : sign b.gas ≡ ok b.sig
    pub packed : pack b.gas b.sig ≡ ok call
    pub limit :
        guard_limit call outer ≡ ok (record { max_gas = max_gas; relay_call_gas = b.call_gas })
    pub within : b.gas ≤ max_gas

  FitsOrNone : Best → Type 0
  FitsOrNone b = (b.gas ≡ 0) ⊎ Fits b

  improve-FitsOrNone :
      (best : Best) (gas : ℕ) (sig call : Text) (m : record { max_gas : ℕ; relay_call_gas : ℕ })
      → sign gas ≡ ok sig
      → pack gas sig ≡ ok call
      → guard_limit call outer ≡ ok m
      → FitsOrNone best
      → FitsOrNone (improve sign pack outer best gas sig m)
  unfolding FitsOrNone
  improve-FitsOrNone best gas sig call m s p l h =
      elim (Bool-cases (leb gas m.max_gas && ltb best.gas gas)) [
        | inl yes' ↦ rw yes' (
            inr (record {
              call = call;
              max_gas = m.max_gas;
              signed = s;
              packed = p;
              limit = l;
              within = ground arith;
            }))
        | inr no' ↦ rw no' h
      ]

  last_round :
      (gas : ℕ) (best b : Best)
      → FitsOrNone best
      → search_gas sign pack outer zero gas best ≡ ok b
      → Fits b
  unfolding search_gas FitsOrNone
  last_round gas best b (inl h) e = absurd (ground arith)
  last_round gas best b (inr h) e = elim (Bool-cases (best.gas == 0)) [
    | inl t ↦ absurd (ground arith)
    | inr f ↦ let p : best ≡ b = ground arith in subst Fits p h
  ]

  found :
      (gas : ℕ) (sig call : Text) (m : record { max_gas : ℕ; relay_call_gas : ℕ }) (b : Best)
      → sign gas ≡ ok sig
      → pack gas sig ≡ ok call
      → guard_limit call outer ≡ ok m
      → gas ≡ m.max_gas
      → record { gas = gas; sig = sig; call_gas = m.relay_call_gas } ≡ b
      → Fits b
  found gas sig call m b s p l q e = subst Fits e (record {
    call = call;
    max_gas = m.max_gas;
    signed = s;
    packed = p;
    limit = l;
    within = omega arith;
  })

  search_gas-Fits :
      (rounds gas : ℕ) (best b : Best)
      → FitsOrNone best
      → search_gas sign pack outer rounds gas best ≡ ok b
      → Fits b
  unfolding search_gas
  search_gas-Fits zero gas best b h e = last_round gas best b h e
  search_gas-Fits (suc rounds) gas best b h e = elim (Result-cases (sign gas)) [
    | inr (x, es) ↦ absurd (ground arith)
    | inl (sig, es) ↦ elim (Result-cases (pack gas sig)) [
      | inr (x, ep) ↦ absurd (ground arith)
      | inl (call, ep) ↦ elim (Result-cases (guard_limit call outer)) [
        | inr (x, el) ↦ absurd (ground arith)
        | inl (m, el) ↦ elim (Bool-cases (gas == m.max_gas)) [
          | inl t ↦ found gas sig call m b es ep el ((==_iff _ _).0 t) (ground arith)
          | inr f ↦
              search_gas-Fits rounds m.max_gas (improve sign pack outer best gas sig m) b
                (improve-FitsOrNone best gas sig call m es ep el h) (ground arith)
        ]
      ]
    ]
  ]

  search_gas_small :
      (rounds gas : ℕ) (best : Best)
      → ((g : ℕ) (sig call : Text) → pack g sig ≡ ok call → length call < 288230376151711744)
      → outer ≤ 396000
      → (x : GoError) × (search_gas sign pack outer (suc rounds) gas best ≡ err x)
  unfolding search_gas
  search_gas_small rounds gas best short small = elim (Result-cases (sign gas)) [
    | inr (x, es) ↦ (wrapped (lit "sign") x, ground arith)
    | inl (sig, es) ↦ elim (Result-cases (pack gas sig)) [
      | inr (x, ep) ↦ (x, ground arith)
      | inl (call, ep) ↦ (
        calldata_too_large (relay_call_intrinsic_gas call) outer,
        ground (
          arith,
          max_guard_relay_gas_limit-eq call outer (short gas sig call ep) (omega arith),
          relay_call_intrinsic_gas_bounds call (omega (arith, short gas sig call ep)),
        ),
      )
    ]
  ]

guard_limit-within :
    (call : Text) (outer gas : ℕ) (max_gas call_gas : ℕ)
    → length call < 288230376151711744
    → outer < u64_mod
    → guard_limit call outer ≡ ok (record { max_gas = max_gas; relay_call_gas = call_gas })
    → gas ≤ max_gas
    → (gas + guard_gas call ≤ outer) × (call_gas ≡ relay_call_intrinsic_gas call)
guard_limit-within call outer gas max_gas call_gas h k e le =
    ground (arith, max_guard_relay_gas_limit-eq call outer h k)

module _ {W : Type 0} (d : Deps W) (oc : OnChainClient) (encoded_function : Text)
    (relay_addr : Address) (nonce : ℤ) where
  -- Every relay call packed is shorter than 2 ^ 58 bytes.
  abbrev pub ShortCalls : Type 0
  ShortCalls =
      (gas : ℕ) (sig call : Text)
      → pack_relay_call d oc encoded_function gas relay_addr nonce sig ≡ ok call
      → length call < 288230376151711744

  abbrev signer : ℕ → Result GoError Text
  signer gas = sign_proxy_relay d oc encoded_function gas relay_addr nonce

  abbrev packer : ℕ → Text → Result GoError Text
  packer gas sig = pack_relay_call d oc encoded_function gas relay_addr nonce sig

  -- A gas limit that the search returns is the one that is signed and packed, and with the guard's
  -- gas for that very call it does not exceed the outer limit; the intrinsic gas returned is that
  -- call's. Calls are shorter than 2 ^ 58 bytes and the outer limit is a uint64.
  pub sign_max_guard_relay-within :
      (b : Best)
      → ShortCalls
      → effective_relayer_outer_gas_limit oc < u64_mod
      → sign_max_guard_relay d oc encoded_function relay_addr nonce ≡ ok b
      → (call : Text) × (sign_proxy_relay d oc encoded_function b.gas relay_addr nonce ≡ ok b.sig)
        × (pack_relay_call d oc encoded_function b.gas relay_addr nonce b.sig ≡ ok call)
        × (b.gas + guard_gas call ≤ effective_relayer_outer_gas_limit oc)
        × (b.call_gas ≡ relay_call_intrinsic_gas call)
  unfolding sign_max_guard_relay FitsOrNone
  sign_max_guard_relay-within b short u e =
      let outer = effective_relayer_outer_gas_limit oc in
      let f = search_gas-Fits signer packer outer 12 (first_gas outer) no_best b (inl refl) e in
      let (le, eq) =
        guard_limit-within f.call outer b.gas f.max_gas b.call_gas
          (short b.gas b.sig f.call f.packed) u f.limit f.within in
      (f.call, f.signed, f.packed, le, eq)

  -- With an outer limit of at most 396,000, where the first guess of the search wraps round, the
  -- search always ends in an error. Calls are shorter than 2 ^ 58 bytes.
  pub sign_max_guard_relay_small :
      ShortCalls
      → effective_relayer_outer_gas_limit oc ≤ 396000
      → (x : GoError) × (sign_max_guard_relay d oc encoded_function relay_addr nonce ≡ err x)
  unfolding sign_max_guard_relay
  sign_max_guard_relay_small short small =
      let outer = effective_relayer_outer_gas_limit oc in
      search_gas_small signer packer outer 11 (first_gas outer) no_best short small
