-- ===== src/Clob/Onchain/Setup.antt =====
-- `NewOnChainClient` of clob/onchain.go, with the contract addresses.
use polymarket_go.Prelude.{
  ◌++◌, ◌∷◌, List, ◌>>=◌, ℕ, ◌<◌, ◌≡◌, ◌≢◌, true, [], Text, lit, is_empty, Result, Result-cases, ok,
  err, wrap_err, Option, none, some, if◌then◌else◌, ◌==◌, arith, inl, inr,
}
use polymarket_go.Clob.Errors.{GoError, failed, wrapped}
use polymarket_go.Clob.Deps.{
  relay_hub, proxy_wallet_factory, erc20_approve, neg_risk, ctf, Abi, Deps, Address,
}
use polymarket_go.Clob.Onchain.{OnChainClient, effective_relayer_outer_gas_limit}
use polymarket_go.Clob.Relayer.Gas.{default_relayer_outer_gas_limit}

pub record OnChainConfig : Type 0 where
  -- the address of the private key
  pub key_address : Address
  pub relayer_api_key : Text
  pub polygon_rpc : Text
  pub relayer_outer_gas_limit : ℕ

unfoldable pub abi_name : Abi → Text
abi_name ctf = lit "CTF"
abi_name neg_risk = lit "NegRisk"
abi_name erc20_approve = lit "ERC20"
abi_name proxy_wallet_factory = lit "ProxyWalletFactory"
abi_name relay_hub = lit "RelayHub"

-- The loop of `initABIs`, with what `abi.JSON` comes to on each text; the error that it leaves.
unfoldable pub init_from : (Abi → Result GoError (Unit {0})) → List Abi → Option GoError
unfolding abi_name
init_from parse [] = none
init_from parse (p ∷ ps) = elim (parse p) [
  | err e ↦ some (wrapped (lit "parse " ++ (abi_name p ++ lit " ABI")) e)
  | ok u ↦ init_from parse ps
]

unfoldable pub init_abis : (Abi → Result GoError (Unit {0})) → Option GoError
unfolding init_from
init_abis parse =
    init_from parse (ctf ∷ neg_risk ∷ erc20_approve ∷ proxy_wallet_factory ∷ relay_hub ∷ [])

module _ {W : Type 0} (d : Deps W) where
  -- `abiInitErr` is what `initABIs` left, `dial` what `ethclient.Dial` gives.
  unfoldable pub new_on_chain_client :
      Option GoError
      → (Text → Result GoError (Unit {0}))
      → OnChainConfig
      → Result GoError OnChainClient
  new_on_chain_client (some abi_init_err) dial cfg = err abi_init_err
  new_on_chain_client none dial cfg =
      let client = wrap_err (wrapped (lit "dial polygon rpc")) (dial cfg.polygon_rpc) >>= λ u.
      ok (record {
        from_addr = cfg.key_address;
        factory_addr = d.hex_to_address (lit "0xaB45c5A4B0c941a2F231C04C3f49182e1A254052");
        ctf_addr = d.hex_to_address (lit "0x4D97DCd97eC945f40cF65F87097ACe5EA0476045");
        ctf_collateral_adapter_addr =
            d.hex_to_address (lit "0xADa100874d00e3331D00F2007a9c336a65009718");
        neg_risk_ctf_addr = d.hex_to_address (lit "0xd91e80cF2E7be2e162c6513ceD06f1dD0dA35296");
        neg_risk_collateral_adapter_addr =
            d.hex_to_address (lit "0xAdA200001000ef00D07553cEE7006808F895c6F1");
        collateral_addr = d.hex_to_address (lit "0xC011a7E12a19f7B1f670d46F03B03f3342E82DFB");
        relay_hub = d.hex_to_address (lit "0xD216153c06E857cD7f72665E0aF1d7D82172F494");
        relayer_api_key = cfg.relayer_api_key;
        relayer_outer_gas_limit =
            if cfg.relayer_outer_gas_limit == 0
            then default_relayer_outer_gas_limit
            else cfg.relayer_outer_gas_limit;
        approved = [];
        has_eth = true;
      }) in
      if is_empty cfg.relayer_api_key
      then err (failed (lit "OnChainConfig.RelayerAPIKey is required"))
      else if is_empty cfg.polygon_rpc
      then err (failed (lit "OnChainConfig.PolygonRPC is required"))
      else client

  -- A client that was made has both settings, no approval cached, and an outer gas limit that is the
  -- effective one and is not 0.
  pub new_on_chain_client_lem :
      (init : Option GoError) (dial : Text → Result GoError (Unit {0})) (cfg : OnChainConfig)
      (oc : OnChainClient)
      → new_on_chain_client init dial cfg ≡ ok oc
      → (cfg.relayer_api_key ≢ [])
        × (cfg.polygon_rpc ≢ [])
        × (oc.approved ≡ [])
        × (effective_relayer_outer_gas_limit oc ≡ oc.relayer_outer_gas_limit)
        × (0 < oc.relayer_outer_gas_limit)
  unfolding new_on_chain_client effective_relayer_outer_gas_limit
  new_on_chain_client_lem (some e) dial cfg oc h = absurd (ground arith)
  new_on_chain_client_lem none dial cfg oc h = elim (Result-cases (dial cfg.polygon_rpc)) [
    | inr (x, e) ↦ absurd (ground arith)
    | inl (u, e) ↦ (ground arith, ground arith, ground arith, ground arith, ground arith)
  ]
