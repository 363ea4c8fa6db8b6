-- ===== src/Clob/Account/Queries.antt =====
-- The other queries of an account (clob/prefetch.go, clob/dataapi.go): balance, one order, heartbeat
-- and trades.
use polymarket_go.Prelude.Words.{ℤ}
use polymarket_go.Prelude.Digits.{to_byte, from_byte}
use polymarket_go.Clob.Http.{do_request}
use polymarket_go.Prelude.Strings.{to_lower, decimal_int, decimal}
use polymarket_go.Prelude.{
  is_empty, if◌then◌else◌, lit, Text, ◌++◌, wrap_err, some, ok, none, err, [], Result, Option, List,
}
use polymarket_go.Clob.Json.{Trade, Order, Json}
use polymarket_go.Clob.Errors.{message, wrapped, failed, GoError}
use polymarket_go.Clob.Floats.{Floats}
use polymarket_go.Clob.Deps.{Deps}
use polymarket_go.Clob.Orders.Build.{Client}
use polymarket_go.Clob.Effects.{or_wrap, lift, fail, Io, ◌>>=◌}

pub record BalanceAllowance : Type 0 where
  pub balance : Text
  pub allowance : Text
  pub allowances : List (Text × Text)

-- Without a brace that closes, the part is all that is left.
abbrev pub closed_part : Text → Option Text → Option Text
closed_part rest none = some rest
closed_part rest (some part) = some part

abbrev pub part_from : Option Text → Option Text
part_from none = none
part_from (some rest) = closed_part rest (to_byte b'}' rest)

-- The part of an error's message from the first brace to the last one that closes.
unfoldable pub json_part : Text → Option Text
json_part text = part_from (from_byte b'{' text)

module _ {W : Type 0} (d : Deps W) (j : Json) (c : Client) where
  -- `PostHeartbeat` after a failed request: the id that the message holds, or the failure.
  unfoldable pub recover_heartbeat : GoError → Option Text → Result GoError Text
  recover_heartbeat e none = err e
  recover_heartbeat e (some part) = elim (j.decode_heartbeat part) [
    | err e2 ↦ err e
    | ok id ↦ if is_empty id then err e else ok id
  ]

  unfoldable pub read_heartbeat : Result GoError Text × W → Result GoError Text × W
  unfolding recover_heartbeat json_part
  read_heartbeat (err e, w) = (recover_heartbeat e (json_part (message e)), w)
  read_heartbeat (ok raw, w) =
      or_wrap (lit "parse heartbeat response") (lift (j.decode_heartbeat raw)) w

  abbrev pub heartbeat_body : Text → Text
  heartbeat_body id = j.encode_heartbeat (if is_empty id then none else some id)

  unfoldable pub post_heartbeat : Text → Io W Text
  unfolding read_heartbeat
  post_heartbeat id w =
      read_heartbeat (do_request d c (lit "POST") (lit "/v1/heartbeats") (heartbeat_body id) w)

  unfoldable pub get_order : Text → Io W Order
  get_order order_id =
      if is_empty order_id
      then fail (failed (lit "GetOrder: orderID is empty"))
      else do_request d c (lit "GET") (lit "/data/order/" ++ order_id) [] >>= λ raw.
          or_wrap (lit "parse order response") (lift (j.decode_order raw))

  -- An object whose field is there, or a bare array.
  unfoldable pub read_trades : Text → Result GoError (List Trade)
  read_trades raw = elim (j.decode_trades_data raw) [
    | ok (some trades) ↦ ok trades
    | ok none ↦ wrap_err (wrapped (lit "parse trades response")) (j.decode_trades raw)
    | err e ↦ wrap_err (wrapped (lit "parse trades response")) (j.decode_trades raw)
  ]

  unfoldable pub get_trades : ℤ → Io W (List Trade)
  unfolding read_trades
  get_trades after_unix = do
    raw ←
        do_request d c (lit "GET")
          (lit "/data/trades?maker_address="
            ++ (to_lower (d.address_hex c.funder) ++ (lit "&after=" ++ decimal_int after_unix)))
          []
    lift (read_trades raw)

  -- The decoder of the reply, and `fmt.Sscanf` with `%f`.
  module _ (f : Floats) (decode_balance : Text → Result GoError BalanceAllowance)
      (scan_float : Text → Result GoError f.F) where
    unfoldable pub get_balance_allowance : Io W BalanceAllowance
    get_balance_allowance = do
      raw ←
          do_request d c (lit "GET")
            (lit "/balance-allowance?asset_type=COLLATERAL&signature_type=" ++ decimal c.sig_type)
            []
      or_wrap (lit "parse balance_allowance response") (lift (decode_balance raw))

    unfoldable pub read_balance : BalanceAllowance → Result GoError f.F
    read_balance ba =
        if is_empty ba.balance
        then ok (f.ratio 0 1)
        else wrap_err (wrapped (lit "parse balance " ++ ba.balance)) (scan_float ba.balance)

    unfoldable pub get_balance : Io W f.F
    unfolding get_balance_allowance read_balance
    get_balance = do ba ← get_balance_allowance; lift (read_balance ba)
