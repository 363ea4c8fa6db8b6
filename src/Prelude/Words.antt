-- ===== src/Prelude/Words.antt =====
-- Machine integers: `uint64` wraps modulo 2 ^ 64, `int64` is its two's complement reading.
use Prim.Native.Nat.{ℕ, ◌+◌, ◌-◌, ◌%◌, ◌<◌, ◌≤◌}
use mathlib.Core.Path.{◌≡◌}
use native.Mathlib.Omega.{arith}
use polymarket_go.Prelude.Tests.{ltb, if◌then◌else◌}

-- `negsuc n` is -(n + 1).
pub data ℤ : Type 0 where
  pos : ℕ → ℤ
  negsuc : ℕ → ℤ

abbrev pub u64_mod : ℕ
u64_mod = 18446744073709551616

abbrev pub u64 : ℕ → ℕ
u64 n = n % u64_mod

-- `a - b` on uint64.
abbrev pub sub64 : ℕ → ℕ → ℕ
sub64 a b = (a + u64_mod - b) % u64_mod

abbrev pub to_int64 : ℕ → ℤ
to_int64 u = if ltb u 9223372036854775808 then pos u else negsuc (u64_mod - u - 1)

-- `-` on uint64 read as a signed number is the signed difference, where both are below 2 ^ 63.
pub to_int64-sub64 :
    (a b : ℕ) → a < 9223372036854775808 → b ≤ a → to_int64 (sub64 a b) ≡ pos (a - b)
to_int64-sub64 a b h k = ground arith
