-- ===== src/Clob/Types.antt =====
-- clob/types.go: orders, the contracts and the rounding of each tick size.
use polymarket_go.Prelude.{
  ℕ, ◌+◌, ◌≤◌, ◌≡◌, Bool, ◌++◌, Text, lit, text_eq, Option, none, some, if◌then◌else◌, ◌==◌, arith,
}
use polymarket_go.Prelude.Words.{ℤ}
use polymarket_go.Prelude.Strings.{decimal_int}
use polymarket_go.Clob.Deps.{Deps, Address}

pub record ContractConfig : Type 0 where
  pub exchange : Text
  pub collateral : Text
  pub conditional_tokens : Text

-- `contractConfigs` and `negRiskConfigs`, the addresses by their hexadecimal texts.
unfoldable pub contract_configs : ℕ → Option ContractConfig
contract_configs chain_id =
    if chain_id == 137
    then some (record {
      exchange = lit "0xE111180000d2663C0091e4f400237545B87B996B";
      collateral = lit "0xC011a7E12a19f7B1f670d46F03B03f3342E82DFB";
      conditional_tokens = lit "0x4D97DCd97eC945f40cF65F87097ACe5EA0476045";
    })
    else if chain_id == 80002
    then some (record {
      exchange = lit "0xdFE02Eb6733538f8Ea35D585af8DE5958AD99E40";
      collateral = lit "0x9c4e1703476e875070ee25b56a58b008cfb8fa78";
      conditional_tokens = lit "0x69308FB512518e39F9b16112fA8d994F4e2Bf8bB";
    })
    else none

unfoldable pub neg_risk_configs : ℕ → Option ContractConfig
neg_risk_configs chain_id =
    if chain_id == 137
    then some (record {
      exchange = lit "0xe2222d279d744050d28e00520010520000310F59";
      collateral = lit "0xC011a7E12a19f7B1f670d46F03B03f3342E82DFB";
      conditional_tokens = lit "0x4D97DCd97eC945f40cF65F87097ACe5EA0476045";
    })
    else if chain_id == 80002
    then some (record {
      exchange = lit "0xd91E80cF2E7be2e162c6513ceD06f1dD0dA35296";
      collateral = lit "0x9c4e1703476e875070ee25b56a58b008cfb8fa78";
      conditional_tokens = lit "0x69308FB512518e39F9b16112fA8d994F4e2Bf8bB";
    })
    else none

unfoldable pub get_contract_config : ℕ → Bool → Option ContractConfig
unfolding contract_configs neg_risk_configs
get_contract_config chain_id neg =
    if neg then neg_risk_configs chain_id else contract_configs chain_id

pub record RoundConfig : Type 0 where
  pub price : ℕ
  pub size : ℕ
  pub amount : ℕ

-- `RoundingConfigs`.
unfoldable pub rounding_configs : Text → Option RoundConfig
rounding_configs tick_size =
    if text_eq tick_size (lit "0.1")
    then some (record { price = 1; size = 2; amount = 3 })
    else if text_eq tick_size (lit "0.01")
    then some (record { price = 2; size = 2; amount = 4 })
    else if text_eq tick_size (lit "0.001")
    then some (record { price = 3; size = 2; amount = 5 })
    else if text_eq tick_size (lit "0.0001")
    then some (record { price = 4; size = 2; amount = 6 })
    else none

abbrev pub side_buy_int : ℕ
side_buy_int = 0

abbrev pub side_sell_int : ℕ
side_sell_int = 1

abbrev pub side_buy : Text
side_buy = lit "BUY"

abbrev pub side_sell : Text
side_sell = lit "SELL"

pub record OrderData : Type 0 where
  pub salt : ℕ
  pub maker : Address
  pub signer : Address
  pub token_id : ℤ
  pub maker_amount : ℤ
  pub taker_amount : ℤ
  pub side : ℕ
  pub signature_type : ℕ
  pub timestamp : ℤ
  pub metadata : Text
  pub builder : Text

pub record SignedOrder : Type 0 where
  pub order : OrderData
  -- none is a nil pointer
  pub expiration : Option ℤ
  pub signature : Text

pub record SignedOrderJson : Type 0 where
  pub salt : ℕ
  pub maker : Text
  pub signer : Text
  pub token_id : Text
  pub maker_amount : Text
  pub taker_amount : Text
  pub side : Text
  pub expiration : Text
  pub signature_type : ℕ
  pub timestamp : Text
  pub metadata : Text
  pub builder : Text
  pub signature : Text

unfoldable pub signed_order_expiration : Option ℤ → Text
signed_order_expiration none = lit "0"
signed_order_expiration (some e) = decimal_int e

-- `SignedOrder.Marshal`.
unfoldable pub marshal : {W : Type 0} → Deps W → SignedOrder → SignedOrderJson
unfolding signed_order_expiration
marshal d so = record {
  salt = so.order.salt;
  maker = d.address_hex so.order.maker;
  signer = d.address_hex so.order.signer;
  token_id = decimal_int so.order.token_id;
  maker_amount = decimal_int so.order.maker_amount;
  taker_amount = decimal_int so.order.taker_amount;
  side = if so.order.side == side_sell_int then side_sell else side_buy;
  expiration = signed_order_expiration so.expiration;
  signature_type = so.order.signature_type;
  timestamp = decimal_int so.order.timestamp;
  metadata = lit "0x" ++ d.bytes_to_hex so.order.metadata;
  builder = lit "0x" ++ d.bytes_to_hex so.order.builder;
  signature = so.signature;
}

-- none is a nil order.
pub record PostOrderArg : Type 0 where
  pub order : Option SignedOrder
  pub order_type : Text
  pub post_only : Bool
  pub defer_exec : Bool

pub record PostOrderRequest : Type 0 where
  pub order : SignedOrderJson
  pub owner : Text
  pub order_type : Text
  pub post_only : Bool
  pub defer_exec : Bool

pub record ApiCreds : Type 0 where
  pub api_key : Text
  pub api_secret : Text
  pub api_passphrase : Text

-- Every known tick size has two digits of size, one to four of price, and their sum for amounts.
pub rounding_configs_grid :
    (tick_size : Text) (rc : RoundConfig)
    → rounding_configs tick_size ≡ some rc
    → (rc.size ≡ 2) × (1 ≤ rc.price) × (rc.price ≤ 4) × (rc.amount ≡ rc.price + rc.size)
unfolding rounding_configs
rounding_configs_grid tick_size rc h = ground arith
