-- ===== src/Clob/OrderWitnesses.antt =====
-- The theorems on orders, their preimages and the tick sizes at concrete inputs.
use polymarket_go.Clob.Orders.PostLaws.{post_orders-IsPosted, IsPosted}
use polymarket_go.Clob.Account.Laws.{get_orders-Pages, Pages}
use polymarket_go.Clob.Account.{get_orders}
use polymarket_go.Clob.Json.{Order, Json}
use polymarket_go.Clob.Market.Laws.{
  new_cache-IsPaired, get_tick_size_again, get_tick_size-IsPaired, IsPaired,
}
use polymarket_go.Clob.Orders.Post.{send_orders, requests_of, request_of, post_orders}
use polymarket_go.Prelude.Words.{pos}
use polymarket_go.Clob.Fixture.{
  value_of-result, value_of-ok, value_of, trader, shapes, libraries, is_ok, fixed_point,
}
use polymarket_go.Prelude.Strings.{
  parse_int, parse_digits_from, parse_digits, decimal_from, decimal,
}
use polymarket_go.Clob.Http.{
  send_signed, sign_path, read_response, l2_headers, exchange, do_request, check_status,
}
use polymarket_go.Clob.Market.{
  store, read_tick_size, new_cache, lookup, get_tick_size, fetch_tick_size, cached,
}
use polymarket_go.Clob.Auth.Bytes.{from_be_acc, from_be-be_bytes, from_be, fill_bytes, be_bytes}
use polymarket_go.Clob.Auth.{
  write_uint8, write_address, sign_order, sign_eip712_digest, salt_from_id, pad_to_32, order_words,
  build_order_struct_hash, build_hmac_signature, build_ctf_domain_separator,
}
use polymarket_go.Clob.Orders.Amounts.{compute_order_amounts, amounts_of_units}
use polymarket_go.Clob.Relayer.Sign.{add_recovery_id}
use polymarket_go.Clob.Orders.Build.{
  with_market, with_deterministic_id, with_buy, parse_token_id, no_opts, fee_adjusted, check_size,
  check_opts, as_gtc, OrderOpts, OrderOption, order_of, finish_order, choose_timestamp, choose_salt,
  sign_built, check_order, build_order, build_with,
}
use polymarket_go.Clob.Types.{
  rounding_configs, get_contract_config, contract_configs, RoundConfig, PostOrderArg, OrderData,
}
use polymarket_go.Prelude.{
  ◌≤◌, ◌≡◌, ◌∷◌, ◌↔◌, ◌++◌, ℕ, true, some, replicate, refl, ok, false, err, arith, [], Result, List,
  text_eq, lit,
}
use polymarket_go.Clob.Auth.Injective.{order_words-injective, IsProper}
use polymarket_go.Clob.Market.Laws.{get_tick_size_again, get_tick_size-IsPaired, IsPaired}
use polymarket_go.Clob.Orders.BuildLaws.{IsBuilt, build_order_deterministic, build_with-IsBuilt}
use polymarket_go.Clob.Errors.{failed, GoError}

abbrev plain_order : OrderData
plain_order = record {
  salt = 5;
  maker = replicate 20 4;
  signer = replicate 20 3;
  token_id = pos 77;
  maker_amount = pos 1000000;
  taker_amount = pos 2000000;
  side = 0;
  signature_type = 1;
  timestamp = pos 1700000000000;
  metadata = replicate 32 0;
  builder = replicate 32 0;
}

plain_order-IsProper : IsProper plain_order
plain_order-IsProper = record {
  token = refl;
  maker_amt = refl;
  taker_amt = refl;
  time = refl;
  maker_len = refl;
  signer_len = refl;
  side_byte = omega arith;
  type_byte = omega arith;
  metadata_len = refl;
  builder_len = refl;
}

words_ok : is_ok (order_words libraries plain_order) ≡ true
unfolding order_words fill_bytes
words_ok = refl

order_words-injective_example : plain_order ≡ plain_order
order_words-injective_example =
    order_words-injective libraries plain_order plain_order
      (value_of (order_words libraries plain_order) words_ok) plain_order-IsProper
      plain_order-IsProper (value_of-result (order_words libraries plain_order) words_ok)
      (value_of-result (order_words libraries plain_order) words_ok)

from_be-be_bytes_example : from_be (be_bytes 2 258) ≡ 258
from_be-be_bytes_example = from_be-be_bytes 2 258 (omega arith)

abbrev two_digits : RoundConfig
two_digits = record { price = 2; size = 2; amount = 4 }

abbrev buy_options : List (OrderOption fixed_point)
buy_options = with_buy ∷ with_market (lit "0.01") false ∷ as_gtc ∷ []

abbrev buy_opts : OrderOpts fixed_point
buy_opts = record (no_opts fixed_point) {
  id = lit "a";
  side = lit "BUY";
  tick_size = lit "0.01";
  order_type = lit "GTC";
}

abbrev bought : Result GoError PostOrderArg × ℕ
bought = build_with fixed_point libraries trader buy_opts (lit "77") 5000 60000 0

bought_ok : is_ok bought.0 ≡ true
unfolding build_with check_order check_opts rounding_configs text_eq fee_adjusted check_size
    parse_token_id parse_int parse_digits parse_digits_from sign_built choose_salt choose_timestamp
    finish_order order_of salt_from_id sign_order get_contract_config contract_configs
    build_ctf_domain_separator build_order_struct_hash order_words fill_bytes sign_eip712_digest
    add_recovery_id compute_order_amounts amounts_of_units write_address write_uint8 from_be
    from_be_acc be_bytes pad_to_32
bought_ok = refl

build_with-IsBuilt_example :
    IsBuilt fixed_point libraries trader buy_opts
      (lit "77")
      5000
      60000
      (value_of bought.0 bought_ok)
build_with-IsBuilt_example =
    build_with-IsBuilt fixed_point libraries trader buy_opts (lit "77") 5000 60000 0 bought.1
      (value_of bought.0 bought_ok) (value_of-ok bought bought_ok)

build_order_deterministic_example :
    (build_order fixed_point libraries trader
      (lit "77")
      5000
      60000
      (buy_options ++ with_deterministic_id (lit "a") ∷ [])
      0).0
    ≡ (build_order fixed_point libraries trader
        (lit "77")
        5000
        60000
        (buy_options ++ with_deterministic_id (lit "a") ∷ [])
        9).0
build_order_deterministic_example =
    build_order_deterministic fixed_point libraries trader (lit "77") 5000 60000 buy_options
      (lit "a") 0 9 (λ e. cc)

-- An order that may only rest in the book.
abbrev resting_orders : List PostOrderArg
resting_orders =
    record {
      order = some (record { order = plain_order; expiration = some (pos 0); signature = lit "s" });
      order_type = lit "GTC";
      post_only = true;
      defer_exec = false;
    }
    ∷ []

resting_posted : post_orders libraries shapes trader resting_orders 0 ≡ (ok [], 2)
unfolding post_orders requests_of request_of send_orders do_request send_signed l2_headers
    build_hmac_signature sign_path exchange read_response check_status decimal decimal_from
resting_posted = refl

post_orders-IsPosted_example : IsPosted libraries shapes trader resting_orders 0 2 []
post_orders-IsPosted_example =
    post_orders-IsPosted libraries shapes trader resting_orders 0 2 [] resting_posted

get_tick_size-IsPaired_example :
    IsPaired (get_tick_size libraries shapes trader new_cache (lit "t") 0).1
get_tick_size-IsPaired_example =
    get_tick_size-IsPaired libraries shapes trader new_cache (lit "t") 0 new_cache-IsPaired

get_tick_size_again_example :
    (get_tick_size libraries shapes trader new_cache (lit "t") 0
      ≡ (ok (lit "0.01"), store new_cache (lit "t") (lit "0.01") 2, 3))
    × (get_tick_size libraries shapes trader (store new_cache (lit "t") (lit "0.01") 2) (lit "t") 8
        ≡ (ok (lit "0.01"), store new_cache (lit "t") (lit "0.01") 2, 9))
unfolding new_cache cached lookup fetch_tick_size read_tick_size do_request l2_headers
    build_hmac_signature sign_path exchange read_response check_status decimal decimal_from
get_tick_size_again_example =
    get_tick_size_again libraries shapes trader new_cache (lit "t") (lit "0.01") 0 2 3 8 9 2 8 refl
      refl refl refl (omega arith)

abbrev open_order : Order
open_order = record {
  id = lit "o";
  status = lit "LIVE";
  owner = [];
  maker_address = [];
  market = [];
  asset_id = [];
  side = lit "BUY";
  original_size = lit "5";
  size_matched = [];
  price = lit "0.5";
  outcome = [];
  expiration = [];
  order_type = lit "GTC";
  associate_trades = [];
  created_at = pos 0;
}

abbrev one_page : Json
one_page = record shapes {
  decode_orders = λ t. err (failed []);
  decode_orders_page = λ t. ok (record { orders = open_order ∷ []; next_cursor = lit "LTE=" });
}

get_orders-Pages_example :
    (get_orders libraries one_page trader 3 0 ≡ some (ok (open_order ∷ []), 2))
    ↔ ((n : ℕ) × (n ≤ 3) × Pages libraries one_page trader n (lit "MA==") 0 (open_order ∷ []) 2)
get_orders-Pages_example = get_orders-Pages libraries one_page trader 3 0 2 (open_order ∷ [])
