-- ===== src/Clob/Fixture.antt =====
-- Concrete inputs for the witnesses: a world that counts the calls made, libraries with fixed
-- replies, and clients.
use polymarket_go.Prelude.{
  arith, ℕ, suc, ◌+◌, ◌-◌, ◌*◌, ◌/◌, ◌≡◌, refl, Bool, true, false, List, [], ◌∷◌, lit, Result, ok,
  err, none, some, ltb, leb, replicate,
}
use polymarket_go.Prelude.Words.{pos}
use polymarket_go.Clob.Errors.{failed}
use polymarket_go.Clob.Deps.{Deps, ProxyCallArg, out_bool}
use polymarket_go.Clob.Onchain.{OnChainClient}
use polymarket_go.Clob.Onchain.Builder.{call_type_call}
use polymarket_go.Clob.Orders.Build.{Client}
use polymarket_go.Clob.Floats.{Floats}
use polymarket_go.Clob.Json.{Json}

-- What a result holds that is not an error.
abbrev pub is_ok : {E A : Type 0} → Result E A → Bool
is_ok (ok a) = true
is_ok (err e) = false

abbrev pub value_or : {E A : Type 0} → A → Result E A → A
value_or d (ok a) = a
value_or d (err e) = d

abbrev pub value_of : {E A : Type 0} (r : Result E A) → is_ok r ≡ true → A
value_of (ok a) h = a
value_of (err e) h = absurd (ground arith)

pub value_of-ok :
    {E A W : Type 0} (p : Result E A × W) (h : is_ok p.0 ≡ true) → p ≡ (ok (value_of p.0 h), p.1)
value_of-ok (ok a, w) h = refl
value_of-ok (err e, w) h = absurd (ground arith)

pub value_of-result : {E A : Type 0} (r : Result E A) (h : is_ok r ≡ true) → r ≡ ok (value_of r h)
value_of-result (ok a) h = refl
value_of-result (err e) h = absurd (ground arith)

abbrev pub libraries : Deps ℕ
libraries = record {
  keccak256 = λ t. replicate 32 1;
  u256_bytes = λ n. replicate 32 0;
  sign = λ t. ok (replicate 65 5);
  address_hex = λ a. a;
  hex_to_address = λ t. t;
  from_hex = λ t. [];
  bytes_to_address = λ t. t;
  abi_pack = λ abi method args. ok (lit "call");
  abi_unpack = λ abi method raw. ok (out_bool true ∷ []);
  bytes_to_hex = λ t. t;
  url_decode = λ t. ok t;
  raw_url_decode = λ t. ok t;
  url_encode = λ t. t;
  hmac_sha256 = λ key t. t;
  now_unix = λ w. (w, suc w);
  now_millis = λ w. (w, suc w);
  now_nanos = λ w. (w, suc w);
  random_salt = λ w. (w, suc w);
  gunzip = λ t. ok (ok t);
  decode_relay_payload = λ t. ok (record { address = lit "relay"; nonce = lit "7" });
  decode_submit_reply = λ t. ok (record { transaction_id = lit "tx"; tx_hash = [] });
  decode_txs =
      λ t. ok (record { state = lit "STATE_CONFIRMED"; tx_hash = lit "hash"; error_msg = [] } ∷ []);
  decode_tx = λ t. err (failed []);
  encode_submit_body = λ body. [];
  cancelled = λ w. false;
  new_request = λ r. ok r;
  http_do = λ r w. (ok (record { status = 200; body = ok []; gzipped = false }), suc w);
  estimate_gas = λ m w. (ok 100000, suc w);
  call_contract = λ m w. (ok [], suc w);
  transaction_receipt = λ t w. (ok (some (record { status = 1; gas_used = 90000 })), suc w);
  transaction_gas = λ t w. (ok (some 200000), suc w);
  await_tick = λ w. (true, suc w);
  sleep = λ n w. w + n;
}

abbrev pub wallet : OnChainClient
wallet = record {
  from_addr = lit "from";
  factory_addr = lit "factory";
  ctf_addr = lit "ctf";
  ctf_collateral_adapter_addr = lit "adapter";
  neg_risk_ctf_addr = lit "negctf";
  neg_risk_collateral_adapter_addr = lit "negadapter";
  collateral_addr = lit "collateral";
  relay_hub = lit "hub";
  relayer_api_key = lit "key";
  relayer_outer_gas_limit = 1000000;
  approved = [];
  has_eth = true;
}

abbrev pub one_call : List ProxyCallArg
one_call =
    record { type_code = call_type_call; to = lit "ctf"; value = pos 0; calldata = lit "x" } ∷ []

abbrev pub trader : Client
trader = record {
  host = lit "https://clob";
  address = replicate 20 3;
  funder = replicate 20 4;
  creds = some (record { api_key = lit "k"; api_secret = lit "s"; api_passphrase = lit "p" });
  chain_id = 137;
  sig_type = 1;
}

-- A JSON library that reads tick sizes only.
abbrev pub shapes : Json
shapes = record {
  encode_order = λ o. [];
  encode_orders = λ os. [];
  encode_ids = λ ids. [];
  encode_heartbeat = λ id. [];
  decode_post_order = λ t. err (failed []);
  decode_post_orders = λ t. ok [];
  decode_cancel = λ t. err (failed []);
  decode_orders = λ t. ok [];
  decode_orders_page = λ t. err (failed []);
  decode_order = λ t. err (failed []);
  decode_text = λ t. ok (lit "0.01");
  decode_tick_size = λ t. err (failed []);
  decode_fee_rate = λ t. ok (pos 0);
  decode_heartbeat = λ t. ok [];
  decode_trades_data = λ t. ok none;
  decode_trades = λ t. ok [];
}

-- Ten-thousandths in place of floats.
abbrev pub fixed_point : Floats
fixed_point = record {
  F = ℕ;
  ratio = λ a b. a * 10000 / b;
  sub = λ a b. a - b;
  mul = λ a b. a * b / 10000;
  div = λ a b. a * 10000 / b;
  lt = λ a b. ltb a b;
  le = λ a b. leb a b;
  floor = λ a. a / 10000 * 10000;
  ceil = λ a. (a + 9999) / 10000 * 10000;
  round = λ a. (a + 5000) / 10000 * 10000;
  abs = λ a. a;
  to_word = λ a. a / 10000;
  D = ℕ;
  from_float = λ a. a;
  from_int = λ n. n * 10000;
  round_to = λ a n. a;
  floor_to = λ a n. a;
  prod3 = λ a b c. a * b / 10000 * c / 10000;
  prod2 = λ a b. a * b / 10000;
  whole = λ a. pos (a / 10000);
}
