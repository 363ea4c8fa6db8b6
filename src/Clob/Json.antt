-- ===== src/Clob/Json.antt =====
-- The JSON library as the trading client uses it: one decoder for each shape, one encoder for each
-- body (clob/types.go, clob/cache.go, clob/prefetch.go, clob/dataapi.go).
use polymarket_go.Prelude.{Bool, List, Text, Result, Option}
use polymarket_go.Prelude.Words.{ℤ}
use polymarket_go.Clob.Errors.{GoError}
use polymarket_go.Clob.Types.{PostOrderRequest}

pub record Order : Type 0 where
  pub id : Text
  pub status : Text
  pub owner : Text
  pub maker_address : Text
  pub market : Text
  pub asset_id : Text
  pub side : Text
  pub original_size : Text
  pub size_matched : Text
  pub price : Text
  pub outcome : Text
  pub expiration : Text
  pub order_type : Text
  pub associate_trades : List Text
  pub created_at : ℤ

pub record MakerOrder : Type 0 where
  pub order_id : Text
  pub owner : Text
  pub maker_address : Text
  pub matched_amount : Text
  pub price : Text
  pub fee_rate_bps : Text
  pub asset_id : Text
  pub outcome : Text
  pub side : Text

pub record Trade : Type 0 where
  pub id : Text
  pub taker_order_id : Text
  pub market : Text
  pub asset_id : Text
  pub side : Text
  pub size : Text
  pub fee_rate_bps : Text
  pub price : Text
  pub status : Text
  pub match_time : Text
  pub match_time_nano : Text
  pub last_update : Text
  pub outcome : Text
  pub bucket_index : ℤ
  pub owner : Text
  pub maker_address : Text
  pub transaction_hash : Text
  pub trader_side : Text
  pub maker_orders : List MakerOrder
  pub err_msg : Text

pub record PostOrderResponse : Type 0 where
  pub success : Bool
  pub order_id : Text
  pub status : Text
  pub making_amount : Text
  pub taking_amount : Text
  pub transactions_hashes : List Text
  pub trade_ids : List Text
  pub error_msg : Text

pub record CancelResponse : Type 0 where
  pub canceled : List Text
  pub not_canceled : List (Text × Text)

pub record OrdersPage : Type 0 where
  pub orders : List Order
  pub next_cursor : Text

-- `tickSizeResponse`, its fields as texts.
pub record TickSizeResponse : Type 0 where
  pub minimum_tick_size : Text
  pub tick_size : Text

pub record Json : Type 0 where
  pub encode_order : PostOrderRequest → Text
  pub encode_orders : List PostOrderRequest → Text
  pub encode_ids : List Text → Text
  pub encode_heartbeat : Option Text → Text
  pub decode_post_order : Text → Result GoError PostOrderResponse
  pub decode_post_orders : Text → Result GoError (List PostOrderResponse)
  pub decode_cancel : Text → Result GoError CancelResponse
  pub decode_orders : Text → Result GoError (List Order)
  pub decode_orders_page : Text → Result GoError OrdersPage
  pub decode_order : Text → Result GoError Order
  pub decode_text : Text → Result GoError Text
  pub decode_tick_size : Text → Result GoError TickSizeResponse
  pub decode_fee_rate : Text → Result GoError ℤ
  pub decode_heartbeat : Text → Result GoError Text
  pub decode_trades_data : Text → Result GoError (Option (List Trade))
  pub decode_trades : Text → Result GoError (List Trade)
