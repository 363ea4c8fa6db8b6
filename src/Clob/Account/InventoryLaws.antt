-- ===== src/Clob/Account/InventoryLaws.antt =====
-- What `GetInventory` returns is the pages of the data API by offset (clob/dataapi.go).
use polymarket_go.Clob.Account.Inventory.{
  page_size, get_inventory_from, get_inventory, fetch_positions,
}
use polymarket_go.Clob.Errors.{GoError}
use polymarket_go.Clob.Deps.{Deps}
use polymarket_go.Clob.Orders.Build.{Client}
use polymarket_go.Prelude.{
  ◌≤◌, ◌≡◌, ◌∙◌, ◌↔◌, ◌<◌, ◌+◌, ◌++◌, ℕ, zero, sym, suc, subst, some, ok, ltb, length, inr, inl,
  arith, append_assoc, ap, [], Text, Result-cases, Result, Option, List, Bool-cases,
}

module _ {P W : Type 0} (d : Deps W) (c : Client)
    (decode_positions : Text → Result GoError (List P)) where
  -- The n pages from an offset on: full ones, and a last one that is not.
  pub data PositionPages : ℕ → ℕ → W → List P → W → Type 0 where
    short_page :
        {offset : ℕ} {w v : W} (page : List P)
        → fetch_positions d c decode_positions offset w ≡ (ok page, v)
        → length page < page_size
        → PositionPages 1 offset w page v
    full_page :
        {n offset : ℕ} {w v u : W} (page rest : List P)
        → fetch_positions d c decode_positions offset w ≡ (ok page, v)
        → page_size ≤ length page
        → PositionPages n (offset + page_size) v rest u
        → PositionPages (suc n) offset w (page ++ rest) u

  get_inventory_from_short :
      (fuel offset : ℕ) (w v : W) (page all : List P)
      → fetch_positions d c decode_positions offset w ≡ (ok page, v)
      → length page < page_size
      → get_inventory_from d c decode_positions (suc fuel) offset all w ≡ some (ok (all ++ page), v)
  unfolding get_inventory_from
  get_inventory_from_short fuel offset w v page all e lt = ground arith

  get_inventory_from_full :
      (fuel offset : ℕ) (w v : W) (page all : List P)
      → fetch_positions d c decode_positions offset w ≡ (ok page, v)
      → page_size ≤ length page
      → get_inventory_from d c decode_positions (suc fuel) offset all w
        ≡ get_inventory_from d c decode_positions fuel (offset + page_size) (all ++ page) v
  unfolding get_inventory_from
  get_inventory_from_full fuel offset w v page all e le = ground arith

  get_inventory_from-PositionPages :
      (fuel : ℕ) {n offset : ℕ} {w v : W} {positions : List P} (all : List P)
      → n ≤ fuel
      → PositionPages n offset w positions v
      → get_inventory_from d c decode_positions fuel offset all w ≡ some (ok (all ++ positions), v)
  get_inventory_from-PositionPages zero all le (short_page page e lt) = absurd (omega arith)
  get_inventory_from-PositionPages zero all le (full_page page rest e ge p) = absurd (omega arith)
  get_inventory_from-PositionPages (suc fuel) all le (short_page page e lt) =
      get_inventory_from_short fuel _ _ _ page all e lt
  get_inventory_from-PositionPages (suc fuel) {v = v} all le (full_page page rest e ge p) =
      get_inventory_from_full fuel _ _ _ page all e ge
      ∙ (get_inventory_from-PositionPages fuel (all ++ page) (omega arith) p
          ∙ ap (λ l. some (ok l, v)) (append_assoc all page rest))

  found :
      (a b : List P) (v u : W)
      → ◌≡◌ {A = Option (Result GoError (List P) × W)} (some (ok a, v)) (some (ok b, u))
      → (a ≡ b) × (v ≡ u)
  found a b v u h = ground arith

  abbrev Found : ℕ → ℕ → W → List P → List P → W → Type 0
  Found fuel offset w all total v =
      (n : ℕ) × (rest : List P) × (n ≤ fuel)
      × PositionPages n offset w rest v
      × (total ≡ all ++ rest)

  get_inventory_from-Found :
      (fuel offset : ℕ) (all total : List P) (w v : W)
      → get_inventory_from d c decode_positions fuel offset all w ≡ some (ok total, v)
      → Found fuel offset w all total v
  unfolding get_inventory_from
  get_inventory_from-Found zero offset all total w v h = absurd (ground arith)
  get_inventory_from-Found (suc fuel) offset all total w v h =
      let v0 = (fetch_positions d c decode_positions offset w).1 in
      elim (Result-cases (fetch_positions d c decode_positions offset w).0) [
        | inr (x, e) ↦ absurd (ground arith)
        | inl (page, e) ↦
            let f : fetch_positions d c decode_positions offset w ≡ (ok page, v0) =
              λ i. (e i, v0) in
            elim (Bool-cases (ltb (length page) page_size)) [
              | inl s ↦
                  let (t, u) = found (all ++ page) total v0 v (
                    sym (get_inventory_from_short fuel offset w v0 page all f (ground arith))
                    ∙ h) in
                  (
                    1,
                    page,
                    omega arith,
                    subst (λ x. PositionPages 1 offset w page x) u
                        (short_page page f (ground arith)),
                    sym t,
                  )
              | inr s ↦
                  let (n, rest, le, p, t) =
                    get_inventory_from-Found fuel (offset + page_size) (all ++ page) total v0 v (
                      sym (get_inventory_from_full fuel offset w v0 page all f (ground arith))
                      ∙ h) in
                  (
                    suc n,
                    page ++ rest,
                    omega (arith, le),
                    full_page page rest f (ground arith) p,
                    t ∙ append_assoc all page rest,
                  )
            ]
      ]

  -- The call returns the positions of n pages exactly when the server gives these pages from offset 0
  -- on, each 500 after the one before, all but the last of at least 500 positions and the last of
  -- fewer, and the fuel is at least n.
  pub get_inventory-PositionPages :
      (fuel : ℕ) (w v : W) (positions : List P)
      → (get_inventory d c decode_positions fuel w ≡ some (ok positions, v))
        ↔ ((n : ℕ) × (n ≤ fuel) × PositionPages n 0 w positions v)
  unfolding get_inventory
  get_inventory-PositionPages fuel w v positions = (
    (λ h.
        let (n, rest, le, p, t) = get_inventory_from-Found fuel 0 [] positions w v h in
        (n, le, subst (λ ps. PositionPages n 0 w ps v) (sym t) p)),
    (λ p. get_inventory_from-PositionPages fuel [] p.1 p.2),
  )
