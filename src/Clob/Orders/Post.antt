-- ===== src/Clob/Orders/Post.antt =====
-- `PostOrder`, `PostOrders`, `CancelOrders` and `CancelAll` of clob/client.go.
use polymarket_go.Prelude.{◌∷◌, Option, Bool}
use polymarket_go.Clob.Types.{ApiCreds}
use polymarket_go.Clob.Errors.{panicked}
use polymarket_go.Prelude.{
  ℕ, false, List, [], ◌++◌, Text, lit, is_empty, Result, ok, err, wrap_err, Option, none, some,
  if◌then◌else◌, ltb, length,
}
use polymarket_go.Prelude.Strings.{decimal}
use polymarket_go.Clob.Errors.{GoError, failed, wrapped}
use polymarket_go.Clob.Deps.{Deps}
use polymarket_go.Clob.Types.{SignedOrder, marshal, PostOrderArg, PostOrderRequest}
use polymarket_go.Clob.Orders.Build.{Client}
use polymarket_go.Clob.Http.{do_request}
use polymarket_go.Clob.Json.{Json, PostOrderResponse, CancelResponse}
use polymarket_go.Clob.Effects.{◌>>=◌, Io, lift, fail, or_wrap}

abbrev pub max_batch : ℕ
max_batch = 15

-- A use of nil credentials panics.
abbrev pub credentials : Option ApiCreds → Result GoError ApiCreds
credentials none = err panicked
credentials (some creds) = ok creds

module _ {W : Type 0} (d : Deps W) (j : Json) (c : Client) where
  -- The wire shape of an order for the owner of the credentials.
  abbrev pub wire_request : SignedOrder → ApiCreds → Text → Bool → Bool → PostOrderRequest
  wire_request so creds order_type post_only defer_exec = record {
    order = marshal d so;
    owner = creds.api_key;
    order_type = order_type;
    post_only = post_only;
    defer_exec = defer_exec;
  }

  -- A nil order or nil credentials panic.
  abbrev pub owned_request :
      Option SignedOrder → Option ApiCreds → PostOrderArg → Result GoError PostOrderRequest
  owned_request none creds arg = err panicked
  owned_request (some so) none arg = err panicked
  owned_request (some so) (some creds) arg =
      ok (wire_request so creds arg.order_type arg.post_only arg.defer_exec)

  unfoldable pub request_of : PostOrderArg → Result GoError PostOrderRequest
  request_of arg = owned_request arg.order c.creds arg

  unfoldable pub requests_of : List PostOrderArg → Result GoError (List PostOrderRequest)
  unfolding request_of
  requests_of [] = ok []
  requests_of (arg ∷ args) = elim (request_of arg) [
    | err e ↦ err e
    | ok request ↦ elim (requests_of args) [ err e ↦ err e | ok rest ↦ ok (request ∷ rest) ]
  ]

  -- none is a nil order.
  unfoldable pub post_order : Option SignedOrder → Text → Io W PostOrderResponse
  post_order none order_type = fail (failed (lit "PostOrder: signedOrder is nil"))
  post_order (some so) order_type = do
    creds ← lift (credentials c.creds)
    raw ←
        do_request d c (lit "POST") (lit "/order")
          (j.encode_order (wire_request so creds order_type false false))
    or_wrap (lit "parse post_order response") (lift (j.decode_post_order raw))

  unfoldable pub send_orders : List PostOrderRequest → Io W (List PostOrderResponse)
  send_orders requests = do
    raw ← do_request d c (lit "POST") (lit "/orders") (j.encode_orders requests)
    or_wrap (lit "parse post_orders response") (lift (j.decode_post_orders raw))

  unfoldable pub post_orders : List PostOrderArg → Io W (List PostOrderResponse)
  unfolding requests_of send_orders
  post_orders orders w =
      let sent = (lift (requests_of orders) >>= send_orders) w in
      if ltb max_batch (length orders)
      then (
        err (failed (lit "PostOrders: max 15 orders per batch, got " ++ decimal (length orders))),
        w,
      )
      else sent

  -- An empty reply is a response with nothing in it.
  unfoldable pub read_cancel : Text → Text → Result GoError CancelResponse
  read_cancel what raw =
      if is_empty raw
      then ok (record { canceled = []; not_canceled = [] })
      else wrap_err (wrapped what) (j.decode_cancel raw)

  unfoldable pub cancel_orders : List Text → Io W CancelResponse
  unfolding read_cancel
  cancel_orders order_ids = do
    raw ← do_request d c (lit "DELETE") (lit "/orders") (j.encode_ids order_ids)
    lift (read_cancel (lit "parse cancel_orders response") raw)

  unfoldable pub cancel_all : Io W CancelResponse
  unfolding read_cancel
  cancel_all = do
    raw ← do_request d c (lit "DELETE") (lit "/cancel-all") []
    lift (read_cancel (lit "parse cancel_all response") raw)
