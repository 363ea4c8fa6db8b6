-- ===== src/Clob/Deps.antt =====
-- What the on-chain client takes from go-ethereum, the network and the JSON decoder, as one record
-- that the code's model is given. Byte strings and addresses are lists of bytes.
use polymarket_go.Prelude.{ℕ, Bool, List, Option, Text, Result}
use polymarket_go.Prelude.Words.{ℤ}
use polymarket_go.Clob.Errors.{GoError}
use polymarket_go.Clob.Effects.{Io}

abbrev pub Address : Type 0
Address = Text

-- `proxyCallArg` of clob/relayer.go.
pub record ProxyCallArg : Type 0 where
  pub type_code : ℕ
  pub to : Address
  pub value : ℤ
  pub calldata : Text

-- An argument of `abi.Pack`.
pub data AbiArg : Type 0 where
  address : Address → AbiArg
  fixed32 : Text → AbiArg
  uint : ℤ → AbiArg
  uints : List ℤ → AbiArg
  flag : Bool → AbiArg
  dynamic : Text → AbiArg
  calls : List ProxyCallArg → AbiArg

-- The contracts whose ABI clob/onchain.go holds.
pub data Abi : Type 0 where
  ctf neg_risk erc20_approve proxy_wallet_factory relay_hub : Abi

-- What `abi.Unpack` gives for one output.
pub data AbiOut : Type 0 where
  out_int : ℤ → AbiOut
  out_bool : Bool → AbiOut
  out_other : AbiOut

pub record Request : Type 0 where
  pub method : Text
  pub url : Text
  pub headers : List (Text × Text)
  pub body : Text

-- `io.ReadAll(resp.Body)` may fail.
pub record Response : Type 0 where
  pub status : ℕ
  pub body : Result GoError Text
  -- the header Content-Encoding is gzip
  pub gzipped : Bool

-- `ethereum.CallMsg`; gas 0 leaves the limit to the node.
pub record CallMsg : Type 0 where
  pub from : Option Address
  pub to : Address
  pub gas : ℕ
  pub calldata : Text

pub record Receipt : Type 0 where
  pub status : ℕ
  pub gas_used : ℕ

-- `json.Unmarshal` into the anonymous structs of clob/relayer.go.
pub record RelayPayload : Type 0 where
  pub address : Text
  pub nonce : Text

pub record SubmitReply : Type 0 where
  pub transaction_id : Text
  pub tx_hash : Text

pub record RelayerTx : Type 0 where
  pub state : Text
  pub tx_hash : Text
  pub error_msg : Text

pub record RelayerSignatureParams : Type 0 where
  pub gas_price : Text
  pub relayer_fee : Text
  pub gas_limit : Text
  pub relay : Text
  pub relay_hub : Text

pub record RelayerSubmitBody : Type 0 where
  pub type : Text
  pub from : Text
  pub to : Text
  pub proxy_wallet : Text
  pub calldata : Text
  pub value : Text
  pub nonce : Text
  pub signature : Text
  pub signature_params : RelayerSignatureParams

pub record Deps (W : Type 0) : Type 0 where
  -- go-ethereum: crypto.Keccak256, math.U256Bytes, crypto.Sign with the client's key, Address.Hex,
  -- common.HexToAddress, common.FromHex, common.BytesToAddress, common.Bytes2Hex, abi.Pack and abi.Unpack
  pub keccak256 : Text → Text
  pub u256_bytes : ℤ → Text
  pub sign : Text → Result GoError Text
  pub address_hex : Address → Text
  pub hex_to_address : Text → Address
  pub from_hex : Text → Text
  pub bytes_to_address : Text → Address
  pub abi_pack : Abi → Text → List AbiArg → Result GoError Text
  pub abi_unpack : Abi → Text → Text → Result GoError (List AbiOut)
  pub bytes_to_hex : Text → Text
  -- base64.URLEncoding, base64.RawURLEncoding, crypto/hmac with sha256
  pub url_decode : Text → Result GoError Text
  pub raw_url_decode : Text → Result GoError Text
  pub url_encode : Text → Text
  pub hmac_sha256 : Text → Text → Text
  -- time.Now and math/rand
  pub now_unix : W → ℕ × W
  pub now_millis : W → ℕ × W
  pub now_nanos : W → ℕ × W
  pub random_salt : W → ℕ × W
  -- compress/gzip: the reader, and what it reads
  pub gunzip : Text → Result GoError (Result GoError Text)
  -- the JSON library
  pub decode_relay_payload : Text → Result GoError RelayPayload
  pub decode_submit_reply : Text → Result GoError SubmitReply
  pub decode_txs : Text → Result GoError (List RelayerTx)
  pub decode_tx : Text → Result GoError RelayerTx
  pub encode_submit_body : RelayerSubmitBody → Text
  -- the context, the HTTP client of the relayer and the Ethereum client
  pub cancelled : W → Bool
  pub new_request : Request → Result GoError Request
  pub http_do : Request → Io W Response
  pub estimate_gas : CallMsg → Io W ℕ
  pub call_contract : CallMsg → Io W Text
  pub transaction_receipt : Text → Io W (Option Receipt)
  pub transaction_gas : Text → Io W (Option ℕ)
  -- the select of a ticker and the context: true is a tick, false is a context that is done
  pub await_tick : W → Bool × W
  -- time.Sleep, in seconds
  pub sleep : ℕ → W → W
