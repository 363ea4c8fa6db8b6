-- ===== src/Clob/Account/Inventory.antt =====
-- `GetInventory` of clob/dataapi.go: the positions of the funder by pages of 500.
use polymarket_go.Prelude.Words.{ℤ}
use polymarket_go.Prelude.Strings.{to_lower, decimal}
use polymarket_go.Clob.Errors.{wrapped, failed, GoError}
use polymarket_go.Clob.Floats.{Floats}
use polymarket_go.Clob.Deps.{Response, Deps}
use polymarket_go.Clob.Orders.Build.{Client}
use polymarket_go.Prelude.{
  if◌then◌else◌, lit, Text, ◌∷◌, ◌==◌, ◌+◌, ◌++◌, ℕ, zero, wrap_err, true, suc, some, ok, none, ltb,
  length, false, err, [], Result, Option, List, Bool,
}
use polymarket_go.Clob.Effects.{decode_with, or_wrap, lift, Io, ◌>>=◌}

module _ (f : Floats) where
  open f use {F}

  pub record Position : Type 0 where
    pub proxy_wallet : Text
    pub asset : Text
    pub condition_id : Text
    pub size : F
    pub avg_price : F
    pub initial_value : F
    pub current_value : F
    pub cash_pnl : F
    pub percent_pnl : F
    pub total_bought : F
    pub realized_pnl : F
    pub percent_realized_pnl : F
    pub cur_price : F
    pub redeemable : Bool
    pub mergeable : Bool
    pub title : Text
    pub slug : Text
    pub icon : Text
    pub event_slug : Text
    pub outcome : Text
    pub outcome_index : ℤ
    pub opposite_outcome : Text
    pub opposite_asset : Text
    pub end_date : Text
    pub negative_risk : Bool

abbrev pub page_size : ℕ
page_size = 500

-- The body of an error reply, also where reading it fails.
abbrev pub body_or_empty : Result GoError Text → Text
body_or_empty (ok body) = body
body_or_empty (err e) = []

module _ {P W : Type 0} (d : Deps W) (c : Client)
    (decode_positions : Text → Result GoError (List P)) where
  unfoldable pub inventory_url : ℕ → Text
  inventory_url offset =
      lit "https://data-api.polymarket.com/positions?user="
      ++ (to_lower (d.address_hex c.funder)
          ++ (lit "&sizeThreshold=0&limit="
              ++ (decimal page_size ++ (lit "&offset=" ++ decimal offset))))

  -- The decoder reads the body: what fails in reading fails in decoding.
  unfoldable pub read_positions : Response → Result GoError (List P)
  read_positions resp =
      if resp.status == 200
      then wrap_err (wrapped (lit "parse positions")) (decode_with decode_positions resp.body)
      else err (
          failed (
            lit "data-api /positions returned "
            ++ (decimal resp.status ++ (lit ": " ++ body_or_empty resp.body))))

  unfoldable pub fetch_positions : ℕ → Io W (List P)
  unfolding inventory_url read_positions
  fetch_positions offset = do
    req ← or_wrap (lit "get inventory") (
        lift (
          d.new_request (record {
            method = lit "GET";
            url = inventory_url offset;
            headers = (lit "Accept", lit "application/json") ∷ [];
            body = [];
          })))
    resp ← or_wrap (lit "get inventory") (d.http_do req)
    lift (read_positions resp)

  -- The loop on fuel, with the positions so far; none is out of fuel.
  unfoldable pub get_inventory_from : ℕ → ℕ → List P → W → Option (Result GoError (List P) × W)
  get_inventory_from zero offset all w = none
  get_inventory_from (suc fuel) offset all w =
      let (r, v) = fetch_positions offset w in
      elim r [
        | err e ↦ some (err e, v)
        | ok page ↦ elim (ltb (length page) page_size) [
          | true ↦ some (ok (all ++ page), v)
          | false ↦ get_inventory_from fuel (offset + page_size) (all ++ page) v
        ]
      ]

  unfoldable pub get_inventory : ℕ → W → Option (Result GoError (List P) × W)
  unfolding get_inventory_from
  get_inventory fuel w = get_inventory_from fuel 0 [] w
