-- ===== src/Clob/Account/Laws.antt =====
-- What `GetOrders` returns is the pages that the server gave, each once and in order
-- (clob/prefetch.go).
use polymarket_go.Clob.Errors.{GoError}
use polymarket_go.Clob.Account.{get_orders_from, get_orders, fetch_page, Page, lit, Text}
use polymarket_go.Prelude.{
  ◌≤◌, ◌≡◌, ◌∙◌, ◌↔◌, ◌++◌, ℕ, zero, sym, suc, subst, some, ok, none, inr, inl, arith, append_assoc,
  ap, [], Result-cases, Result, Option-cases, Option, List,
}
use polymarket_go.Clob.Json.{Order, Json}
use polymarket_go.Clob.Deps.{Deps}
use polymarket_go.Clob.Orders.Build.{Client}

module _ {W : Type 0} (d : Deps W) (j : Json) (c : Client) where
  -- The n pages from a cursor on, with their orders and the world after them.
  pub data Pages : ℕ → Text → W → List Order → W → Type 0 where
    last_page :
        {cursor : Text} {w v : W} (page : List Order)
        → fetch_page d j c cursor w ≡ (ok (record { orders = page; next = none }), v)
        → Pages 1 cursor w page v
    page_more :
        {n : ℕ} {cursor : Text} {w v u : W} (page rest : List Order) (cursor1 : Text)
        → fetch_page d j c cursor w ≡ (ok (record { orders = page; next = some cursor1 }), v)
        → Pages n cursor1 v rest u
        → Pages (suc n) cursor w (page ++ rest) u

  get_orders_from_last :
      (fuel : ℕ) (cursor : Text) (w v : W) (page all : List Order)
      → fetch_page d j c cursor w ≡ (ok (record { orders = page; next = none }), v)
      → get_orders_from d j c (suc fuel) cursor all w ≡ some (ok (all ++ page), v)
  unfolding get_orders_from
  get_orders_from_last fuel cursor w v page all e = ground arith

  get_orders_from_more :
      (fuel : ℕ) (cursor cursor1 : Text) (w v : W) (page all : List Order)
      → fetch_page d j c cursor w ≡ (ok (record { orders = page; next = some cursor1 }), v)
      → get_orders_from d j c (suc fuel) cursor all w
        ≡ get_orders_from d j c fuel cursor1 (all ++ page) v
  unfolding get_orders_from
  get_orders_from_more fuel cursor cursor1 w v page all e = ground arith

  get_orders_from-Pages :
      (fuel : ℕ) {n : ℕ} {cursor : Text} {w v : W} {open_orders : List Order} (all : List Order)
      → n ≤ fuel
      → Pages n cursor w open_orders v
      → get_orders_from d j c fuel cursor all w ≡ some (ok (all ++ open_orders), v)
  get_orders_from-Pages zero all le (last_page page e) = absurd (omega arith)
  get_orders_from-Pages zero all le (page_more page rest cursor1 e p) = absurd (omega arith)
  get_orders_from-Pages (suc fuel) all le (last_page page e) =
      get_orders_from_last fuel _ _ _ page all e
  get_orders_from-Pages (suc fuel) {v = v} all le (page_more page rest cursor1 e p) =
      get_orders_from_more fuel _ cursor1 _ _ page all e
      ∙ (get_orders_from-Pages fuel (all ++ page) (omega arith) p
          ∙ ap (λ l. some (ok l, v)) (append_assoc all page rest))

  page_with :
      (page : Page) (o : Option Text)
      → page.next ≡ o
      → page ≡ record { orders = page.orders; next = o }
  page_with page o e i = record { orders = page.orders; next = e i }

  fetched_with :
      (cursor : Text) (w : W) (page : Page) (o : Option Text)
      → (fetch_page d j c cursor w).0 ≡ ok page
      → page.next ≡ o
      → fetch_page d j c cursor w
        ≡ (ok (record { orders = page.orders; next = o }), (fetch_page d j c cursor w).1)
  fetched_with cursor w page o e n i =
      ((e ∙ ap ok (page_with page o n)) i, (fetch_page d j c cursor w).1)

  returned :
      (a b : List Order) (v u : W)
      → ◌≡◌ {A = Option (Result GoError (List Order) × W)} (some (ok a, v)) (some (ok b, u))
      → (a ≡ b) × (v ≡ u)
  returned a b v u h = ground arith

  -- What a run that returned orders has read.
  abbrev Read : ℕ → Text → W → List Order → List Order → W → Type 0
  Read fuel cursor w all total v =
      (n : ℕ) × (rest : List Order) × (n ≤ fuel) × Pages n cursor w rest v × (total ≡ all ++ rest)

  get_orders_from-Read :
      (fuel : ℕ) (cursor : Text) (all total : List Order) (w v : W)
      → get_orders_from d j c fuel cursor all w ≡ some (ok total, v)
      → Read fuel cursor w all total v
  unfolding get_orders_from
  get_orders_from-Read zero cursor all total w v h = absurd (ground arith)
  get_orders_from-Read (suc fuel) cursor all total w v h =
      elim (Result-cases (fetch_page d j c cursor w).0) [
        | inr (x, e) ↦ absurd (ground arith)
        | inl (page, e) ↦ elim (Option-cases page.next) [
          | inl n ↦
              let f = fetched_with cursor w page none e n in
              let v0 = (fetch_page d j c cursor w).1 in
              let (t, u) =
                returned (all ++ page.orders) total v0 v
                  (sym (get_orders_from_last fuel cursor w v0 page.orders all f) ∙ h) in
              (
                1,
                page.orders,
                omega arith,
                subst (λ x. Pages 1 cursor w page.orders x) u (last_page page.orders f),
                sym t,
              )
          | inr (cursor1, n) ↦
              let f = fetched_with cursor w page (some cursor1) e n in
              let (k, rest, le, p, t) =
                get_orders_from-Read fuel cursor1 (all ++ page.orders) total
                  (fetch_page d j c cursor w).1 v
                  (sym (
                      get_orders_from_more fuel cursor cursor1 w (fetch_page d j c cursor w).1
                        page.orders all f)
                    ∙ h) in
              (
                suc k,
                page.orders ++ rest,
                omega (arith, le),
                page_more page.orders rest cursor1 f p,
                t ∙ append_assoc all page.orders rest,
              )
        ]
      ]

  -- The call returns the orders of n pages exactly when the server gives these pages from the first
  -- cursor on, the last without a next one, and the fuel is at least n: each page once, in order.
  pub get_orders-Pages :
      (fuel : ℕ) (w v : W) (open_orders : List Order)
      → (get_orders d j c fuel w ≡ some (ok open_orders, v))
        ↔ ((n : ℕ) × (n ≤ fuel) × Pages n (lit "MA==") w open_orders v)
  unfolding get_orders
  get_orders-Pages fuel w v open_orders = (
    (λ h.
        let (n, rest, le, p, t) = get_orders_from-Read fuel (lit "MA==") [] open_orders w v h in
        (n, le, subst (λ os. Pages n (lit "MA==") w os v) (sym t) p)),
    (λ p. get_orders_from-Pages fuel [] p.1 p.2),
  )
