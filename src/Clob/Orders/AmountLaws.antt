-- ===== src/Clob/Orders/AmountLaws.antt =====
-- The integer path of `computeOrderAmounts` (clob/client.go) is exact.
use polymarket_go.Prelude.{
  ℕ, zero, suc, ◌+◌, ◌-◌, ◌*◌, ◌^◌, ◌≤◌, ◌<◌, ◌≡◌, sym, subst, Text, text_eq, if◌then◌else◌, arith,
  inl, inr, Bool-cases,
}
use polymarket_go.Prelude.Words.{ℤ, pos, u64, to_int64}
use polymarket_go.Clob.Types.{RoundConfig, side_buy}
use polymarket_go.Prelude.{ℕ, ◌+◌, ◌-◌, ◌*◌, ◌^◌, ◌≤◌, ◌<◌, ◌≡◌, Text, text_eq, if◌then◌else◌}
use polymarket_go.Prelude.Words.{ℤ, pos}
use polymarket_go.Clob.Types.{RoundConfig, side_buy}
use polymarket_go.Clob.Orders.Amounts.{
  Amounts, token_decimals, amounts_of_units, shares_word, collateral_word,
}
use polymarket_go.Clob.Floats.{Floats}

-- Neither product leaves int64.
abbrev pub NoOverflow : RoundConfig → ℕ → ℕ → Type 0
NoOverflow rc s p =
    (s * 10000 < 9223372036854775808) × (s * p * 10 ^ (4 - rc.price) < 9223372036854775808)

-- The two amounts of the side that is bought and of the other.
abbrev pub shares_of : Text → Amounts → ℤ
shares_of side a = if text_eq side side_buy then a.taker_amount else a.maker_amount

abbrev pub collateral_of : Text → Amounts → ℤ
collateral_of side a = if text_eq side side_buy then a.maker_amount else a.taker_amount

-- What exactness says of the amounts for units of size s and of price p.
abbrev pub Exact : Text → RoundConfig → ℕ → ℕ → Amounts → Type 0
Exact side rc s p a =
    (n m : ℕ) × (shares_of side a ≡ pos n)
    × (collateral_of side a ≡ pos m)
    × (n * 10 ^ rc.size ≡ s * token_decimals)
    × (m * 10 ^ (rc.size + rc.price) ≡ s * p * token_decimals)

small_word : (a : ℕ) → a < 9223372036854775808 → to_int64 (u64 a) ≡ pos a
small_word a h = ground arith

small_product :
    (a c : ℕ) → 0 < c → a * c < 9223372036854775808 → to_int64 (u64 (u64 a * c)) ≡ pos (a * c)
small_product a c h k =
    let le : a ≤ a * c = grind arith in
    let e : u64 a ≡ a = omega arith in rw e (small_word (a * c) k)

abbrev grid : ℕ → ℕ → RoundConfig
grid k amount = record { price = k; size = 2; amount = amount }

split_amounts :
    (side : Text) (rc : RoundConfig) (s p n m : ℕ)
    → to_int64 (shares_word rc s) ≡ pos n
    → to_int64 (collateral_word rc s p) ≡ pos m
    → (shares_of side (amounts_of_units side rc s p) ≡ pos n)
      × (collateral_of side (amounts_of_units side rc s p) ≡ pos m)
unfolding amounts_of_units
split_amounts side rc s p n m h k = elim (Bool-cases (text_eq side side_buy)) [
  | inl t ↦ rw (t, amounts_of_units) (h, k)
  | inr f ↦ rw (f, amounts_of_units) (h, k)
]

grid-Exact :
    (side : Text) (k amount s p : ℕ)
    → 1 ≤ k
    → k ≤ 4
    → NoOverflow (grid k amount) s p
    → Exact side (grid k amount) s p (amounts_of_units side (grid k amount) s p)
grid-Exact side zero amount s p h1 h4 small = absurd (omega arith)
grid-Exact side (suc zero) amount s p h1 h4 small =
    let (a, b) =
      split_amounts side (grid 1 amount) s p (s * 10000) (s * p * 1000) (small_word _ small.0)
        (small_product _ 1000 (omega arith) small.1) in
    (s * 10000, s * p * 1000, a, b, omega arith, omega arith)
grid-Exact side (suc (suc zero)) amount s p h1 h4 small =
    let (a, b) =
      split_amounts side (grid 2 amount) s p (s * 10000) (s * p * 100) (small_word _ small.0)
        (small_product _ 100 (omega arith) small.1) in
    (s * 10000, s * p * 100, a, b, omega arith, omega arith)
grid-Exact side (suc (suc (suc zero))) amount s p h1 h4 small =
    let (a, b) =
      split_amounts side (grid 3 amount) s p (s * 10000) (s * p * 10) (small_word _ small.0)
        (small_product _ 10 (omega arith) small.1) in
    (s * 10000, s * p * 10, a, b, omega arith, omega arith)
grid-Exact side (suc (suc (suc (suc zero)))) amount s p h1 h4 small =
    let (a, b) =
      split_amounts side (grid 4 amount) s p (s * 10000) (s * p * 1) (small_word _ small.0)
        (small_product _ 1 (omega arith) small.1) in
    (s * 10000, s * p * 1, a, b, omega arith, omega arith)
grid-Exact side (suc (suc (suc (suc (suc k))))) amount s p h1 h4 small = absurd (omega arith)

-- For a tick size of the grid whose products stay in int64, the shares are the size's units and the
-- collateral the exact product of size and price, in millionths, with nothing rounded; on BUY the
-- maker gives collateral and on SELL shares.
pub amounts_of_units-Exact :
    (side : Text) (rc : RoundConfig) (s p : ℕ)
    → rc.size ≡ 2
    → 1 ≤ rc.price
    → rc.price ≤ 4
    → NoOverflow rc s p
    → Exact side rc s p (amounts_of_units side rc s p)
amounts_of_units-Exact side rc s p hs h1 h4 small =
    subst (λ (r : RoundConfig). Exact side r s p (amounts_of_units side r s p))
      (λ i. record { price = rc.price; size = sym hs i; amount = rc.amount })
      (grid-Exact side rc.price rc.amount s p h1 h4 small)
