-- ===== src/Clob/Auth.antt =====
-- clob/auth.go: the EIP-712 encodings that are signed, and the values derived from an order's id.
use polymarket_go.Prelude.{
  ℕ, zero, ◌+◌, ◌-◌, ◌*◌, ◌%◌, ◌≤◌, ◌<◌, Bool, not, [], ◌∷◌, ◌++◌, Text, lit, Result, ok, err,
  wrap_err, ◌>>=◌, none, some, if◌then◌else◌, leb, length, take, drop, replicate, arith,
}
use polymarket_go.Prelude.Words.{ℤ, pos}
use polymarket_go.Prelude.Strings.{decimal}
use polymarket_go.Clob.Errors.{GoError, failed, wrapped, message}
use polymarket_go.Clob.Deps.{Deps, Address, address}
use polymarket_go.Clob.Types.{get_contract_config, OrderData}
use polymarket_go.Clob.Relayer.Sign.{add_recovery_id}
use polymarket_go.Clob.Auth.Bytes.{be_bytes, from_be, fill_bytes}
pub mod Bytes
pub mod Injective
use polymarket_go.Clob.Auth.Bytes.{be_bytes, from_be, fill_bytes}

-- `padTo32`.
unfoldable pub pad_to_32 : Text → Text
pad_to_32 b = if leb 32 (length b) then drop (length b - 32) b else replicate (32 - length b) 0 ++ b

-- `writeUint256` into 32 bytes: `FillBytes` of a value that does not fit panics.
abbrev pub write_uint256 : ℤ → Result GoError Text
write_uint256 v = fill_bytes 32 v

-- `writeAddress` into 32 bytes that are zero: the address fills the last 20.
unfoldable pub write_address : Address → Text
write_address addr = replicate 12 0 ++ (take 20 addr ++ replicate (20 - length addr) 0)

-- `writeUint8` into 32 bytes that are zero.
unfoldable pub write_uint8 : ℕ → Text
write_uint8 v = replicate 31 0 ++ (v % 256) ∷ []

abbrev pub salt_mask : ℕ
salt_mask = 9223372036854775808

abbrev pub base_millis : ℕ
base_millis = 1713398400000

abbrev pub range_millis : ℕ
range_millis = 2 * 365 * 24 * 60 * 60 * 1000

module _ {W : Type 0} (d : Deps W) where
  abbrev pub clob_auth_type_hash : Text
  clob_auth_type_hash =
      d.keccak256 (lit "ClobAuth(address address,string timestamp,uint256 nonce,string message)")

  abbrev pub order_type_hash : Text
  order_type_hash = d.keccak256 (
      lit
        "Order(uint256 salt,address maker,address signer,uint256 tokenId,uint256 makerAmount,uint256 takerAmount,uint8 side,uint8 signatureType,uint256 timestamp,bytes32 metadata,bytes32 builder)")

  abbrev pub eip712_domain_type_hash_clob : Text
  eip712_domain_type_hash_clob =
      d.keccak256 (lit "EIP712Domain(string name,string version,uint256 chainId)")

  abbrev pub eip712_domain_type_hash_ctf : Text
  eip712_domain_type_hash_ctf =
      d.keccak256
        (lit "EIP712Domain(string name,string version,uint256 chainId,address verifyingContract)")

  unfoldable pub build_clob_auth_domain_separator : ℕ → Result GoError Text
  build_clob_auth_domain_separator chain_id = do
    chain ← write_uint256 (pos chain_id)
    ok (
        d.keccak256 (
          eip712_domain_type_hash_clob
          ++ (d.keccak256 (lit "ClobAuthDomain") ++ (d.keccak256 (lit "1") ++ chain))))

  unfoldable pub build_clob_auth_struct_hash : Address → Text → ℕ → Result GoError Text
  build_clob_auth_struct_hash addr timestamp nonce = do
    n ← write_uint256 (pos nonce)
    ok (
        d.keccak256 (
          clob_auth_type_hash
          ++ (write_address addr
              ++ (d.keccak256 timestamp
                  ++ (n
                      ++ d.keccak256
                          (lit "This message attests that I control the given wallet"))))))

  unfoldable pub build_ctf_domain_separator : ℕ → Address → Result GoError Text
  build_ctf_domain_separator chain_id exchange_addr = do
    chain ← write_uint256 (pos chain_id)
    ok (
        d.keccak256 (
          eip712_domain_type_hash_ctf
          ++ (d.keccak256 (lit "Polymarket CTF Exchange")
              ++ (d.keccak256 (lit "2") ++ (chain ++ write_address exchange_addr)))))

  -- The twelve words of `buildOrderStructHash`.
  unfoldable pub order_words : OrderData → Result GoError Text
  order_words o = do
    salt ← write_uint256 (pos o.salt)
    token_id ← write_uint256 o.token_id
    maker_amount ← write_uint256 o.maker_amount
    taker_amount ← write_uint256 o.taker_amount
    timestamp ← write_uint256 o.timestamp
    ok (
        order_type_hash
        ++ (salt
            ++ (write_address o.maker
                ++ (write_address o.signer
                    ++ (token_id
                        ++ (maker_amount
                            ++ (taker_amount
                                ++ (write_uint8 o.side
                                    ++ (write_uint8 o.signature_type
                                        ++ (timestamp ++ (o.metadata ++ o.builder)))))))))))

  unfoldable pub build_order_struct_hash : OrderData → Result GoError Text
  unfolding order_words
  build_order_struct_hash o = order_words o >>= λ buf. ok (d.keccak256 buf)

  -- `sig[64] += 27` and the hexadecimal text.
  unfoldable pub sign_eip712_digest : Text → Text → Result GoError Text
  sign_eip712_digest domain_separator struct_hash = do
    sig ←
        wrap_err (wrapped (lit "crypto.Sign"))
          (d.sign (d.keccak256 (25 ∷ 1 ∷ (domain_separator ++ struct_hash))))
    signed ← add_recovery_id sig
    ok (lit "0x" ++ d.bytes_to_hex signed)

  unfoldable pub sign_clob_auth_message : Address → ℕ → ℕ → ℕ → Result GoError Text
  sign_clob_auth_message addr chain_id timestamp nonce = do
    domain_sep ← build_clob_auth_domain_separator chain_id
    struct_hash ← build_clob_auth_struct_hash addr (decimal timestamp) nonce
    sign_eip712_digest domain_sep struct_hash

  unfoldable pub sign_order : ℕ → OrderData → Bool → Result GoError Text
  sign_order chain_id o neg = elim (get_contract_config chain_id neg) [
    | none ↦ err (failed (lit "no contract config for chainID"))
    | some cfg ↦
        build_ctf_domain_separator chain_id (d.hex_to_address cfg.exchange) >>= λ domain_sep.
        build_order_struct_hash o >>= λ struct_hash. sign_eip712_digest domain_sep struct_hash
  ]

  -- The low 63 bits of the first 8 bytes of the hash.
  unfoldable pub salt_from_id : Text → ℕ
  salt_from_id id = from_be (take 8 (d.keccak256 id)) % salt_mask

  unfoldable pub timestamp_from_id : Text → ℕ
  timestamp_from_id id =
      base_millis + from_be (take 8 (d.keccak256 (lit "timestamp:" ++ id))) % range_millis

  unfoldable pub build_hmac_signature : Text → Text → Text → Text → Text → Result GoError Text
  build_hmac_signature secret timestamp method request_path body =
      let message' = timestamp ++ (method ++ (request_path ++ body)) in
      elim (d.url_decode secret) [
        | ok key ↦ ok (d.url_encode (d.hmac_sha256 key message'))
        | err e ↦ elim (d.raw_url_decode secret) [
          | ok key ↦ ok (d.url_encode (d.hmac_sha256 key message'))
          | err e2 ↦ err (wrapped (lit "decode api secret") e2)
        ]
      ]

  -- A derived salt is a non-negative int64.
  pub salt_from_id-lt : (id : Text) → salt_from_id id < salt_mask
  unfolding salt_from_id
  salt_from_id-lt id = omega arith

  -- A derived timestamp lies in the two years from the base.
  pub timestamp_from_id_bounds :
      (id : Text)
      → (base_millis ≤ timestamp_from_id id) × (timestamp_from_id id < base_millis + 63072000000)
  unfolding timestamp_from_id
  timestamp_from_id_bounds id = omega arith
