-- ===== src/Clob/Account.antt =====
-- `GetOrders` of clob/prefetch.go: the pages of the open orders, by a cursor.
use polymarket_go.Clob.Effects.{◌>>=◌}
use polymarket_go.Clob.Http.{do_request}
use polymarket_go.Prelude.{
  text_eq, is_empty, if◌then◌else◌, lit, Text, ◌||◌, ◌++◌, ℕ, zero, suc, some, ok, none, err, [],
  Result, Option, List,
}
use polymarket_go.Clob.Json.{Order, Json}
use polymarket_go.Clob.Effects.{lift, Io}
use polymarket_go.Clob.Errors.{wrapped, GoError}
use polymarket_go.Clob.Deps.{Deps}
use polymarket_go.Clob.Orders.Build.{Client}
pub mod Laws
pub mod Queries
pub mod Inventory
pub mod InventoryLaws
pub mod HeartbeatLaws

-- The orders of a page, and the cursor of the next, or none where the loop stops.
pub record Page : Type 0 where
  pub orders : List Order
  pub next : Option Text

unfoldable pub next_of : Text → Option Text
next_of cursor = if is_empty cursor || text_eq cursor (lit "LTE=") then none else some cursor

module _ {W : Type 0} (d : Deps W) (j : Json) (c : Client) where
  -- A bare array, or an object with the cursor of the next page.
  unfoldable pub read_page : Text → Result GoError Page
  unfolding next_of
  read_page raw = elim (j.decode_orders raw) [
    | ok orders ↦ ok (record { orders = orders; next = none })
    | err e ↦ elim (j.decode_orders_page raw) [
      | err e2 ↦ err (wrapped (lit "parse orders response") e2)
      | ok p ↦ ok (record { orders = p.orders; next = next_of p.next_cursor })
    ]
  ]

  unfoldable pub fetch_page : Text → Io W Page
  unfolding read_page
  fetch_page cursor = do
    raw ← do_request d c (lit "GET") (lit "/data/orders?next_cursor=" ++ cursor) []
    lift (read_page raw)

  -- The loop on fuel, with the orders so far; none is out of fuel.
  unfoldable pub get_orders_from :
      ℕ → Text → List Order → W → Option (Result GoError (List Order) × W)
  get_orders_from zero cursor all w = none
  get_orders_from (suc fuel) cursor all w =
      let (r, v) = fetch_page cursor w in
      elim r [
        | err e ↦ some (err e, v)
        | ok page ↦ elim page.next [
          | none ↦ some (ok (all ++ page.orders), v)
          | some cursor1 ↦ get_orders_from fuel cursor1 (all ++ page.orders) v
        ]
      ]

  unfoldable pub get_orders : ℕ → W → Option (Result GoError (List Order) × W)
  unfolding get_orders_from
  get_orders fuel w = get_orders_from fuel (lit "MA==") [] w
