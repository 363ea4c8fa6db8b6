-- ===== src/Clob/Auth/Bytes.antt =====
-- Big-endian bytes, as `FillBytes` and `SetBytes` of math/big write and read them.
use polymarket_go.Prelude.{
  ap, sym, ◌∙◌, ℕ, zero, suc, ◌+◌, ◌*◌, ◌/◌, ◌%◌, ◌^◌, ◌<◌, ◌≡◌, refl, [], ◌∷◌, ◌++◌, Text, Result,
  ok, err, if◌then◌else◌, ltb, length, length-append, arith,
}
use polymarket_go.Prelude.Words.{ℤ, pos, negsuc}
use polymarket_go.Clob.Errors.{GoError, panicked}
use native.Mathlib.Nat.{pow-suc}

-- The low n bytes of a value, the most significant first.
unfoldable pub be_bytes : ℕ → ℕ → Text
be_bytes zero v = []
be_bytes (suc n) v = be_bytes n (v / 256) ++ (v % 256) ∷ []

unfoldable pub from_be_acc : ℕ → Text → ℕ
from_be_acc acc [] = acc
from_be_acc acc (b ∷ bs) = from_be_acc (acc * 256 + b) bs

unfoldable pub from_be : Text → ℕ
unfolding from_be_acc
from_be bs = from_be_acc 0 bs

abbrev pub abs : ℤ → ℕ
abs (pos n) = n
abs (negsuc n) = suc n

-- `x.FillBytes(buf)` writes the absolute value, and panics where it needs more bytes.
unfoldable pub fill_bytes : ℕ → ℤ → Result GoError Text
unfolding be_bytes
fill_bytes n v = if ltb (abs v) (256 ^ n) then ok (be_bytes n (abs v)) else err panicked

pub length-be_bytes : (n v : ℕ) → length (be_bytes n v) ≡ n
unfolding be_bytes
length-be_bytes zero v = refl
length-be_bytes (suc n) v =
    omega
      (arith, length-append (be_bytes n (v / 256)) ((v % 256) ∷ []), length-be_bytes n (v / 256))

from_be_acc-append :
    (acc : ℕ) (xs : Text) (b : ℕ) → from_be_acc acc (xs ++ b ∷ []) ≡ from_be_acc acc xs * 256 + b
unfolding from_be_acc
from_be_acc-append acc [] b = refl
from_be_acc-append acc (x ∷ xs) b = from_be_acc-append (acc * 256 + x) xs b

div_fits : (n v : ℕ) → v < 256 ^ suc n → v / 256 < 256 ^ n
div_fits n v h = omega (arith, pow-suc 256 n)

-- Reading the bytes of a value that fits gives it back.
pub from_be-be_bytes : (n v : ℕ) → v < 256 ^ n → from_be (be_bytes n v) ≡ v
unfolding from_be be_bytes
from_be-be_bytes zero v h = omega arith
from_be-be_bytes (suc n) v h =
    from_be_acc-append 0 (be_bytes n (v / 256)) (v % 256)
    ∙ omega (arith, from_be-be_bytes n (v / 256) (div_fits n v h))

-- The same bytes are those of the same value, where both fit.
pub be_bytes-injective :
    (n v u : ℕ) → v < 256 ^ n → u < 256 ^ n → be_bytes n v ≡ be_bytes n u → v ≡ u
be_bytes-injective n v u hv hu e =
    sym (from_be-be_bytes n v hv) ∙ (ap from_be e ∙ from_be-be_bytes n u hu)

-- `FillBytes` that did not panic wrote the value in n bytes.
pub fill_bytes-ok :
    (n : ℕ) (v : ℤ) (bs : Text)
    → fill_bytes n v ≡ ok bs
    → (abs v < 256 ^ n) × (bs ≡ be_bytes n (abs v))
unfolding fill_bytes
fill_bytes-ok n v bs h = ground arith
