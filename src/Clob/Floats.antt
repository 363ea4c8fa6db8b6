-- ===== src/Clob/Floats.antt =====
-- float64 and the decimal library of the client, as a record of operations that the model of the
-- order amounts is given. No law of rounding is assumed here; a theorem names what it needs.
use polymarket_go.Prelude.{ℕ, Bool}
use polymarket_go.Prelude.Words.{ℤ}

pub record Floats : Type 1 where
  pub F : Type 0
  -- the constant nearest to a / b
  pub ratio : ℕ → ℕ → F
  pub sub : F → F → F
  pub mul : F → F → F
  pub div : F → F → F
  pub lt : F → F → Bool
  pub le : F → F → Bool
  pub floor : F → F
  pub ceil : F → F
  pub round : F → F
  pub abs : F → F
  -- `int64(x)`, as its bit pattern
  pub to_word : F → ℕ
  -- github.com/govalues/decimal: NewFromFloat64, New(n, 0), Round, Floor, Prod of three, Mul,
  -- and the whole part of Int64(0)
  pub D : Type 0
  pub from_float : F → D
  pub from_int : ℕ → D
  pub round_to : D → ℕ → D
  pub floor_to : D → ℕ → D
  pub prod3 : D → D → D → D
  pub prod2 : D → D → D
  pub whole : D → ℤ
