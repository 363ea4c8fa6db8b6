-- ===== src/Clob/Effects.antt =====
-- Code that calls the outside world: a state of the world is passed through, and a step may fail.
use polymarket_go.Prelude.{refl, arith, ◌≡◌, Result, ok, err}
use polymarket_go.Clob.Errors.{GoError, wrapped}
use polymarket_go.Prelude.{Text}

abbrev pub Io : Type 0 → Type 0 → Type 0
Io W A = W → Result GoError A × W

-- What follows a call that returned, and `if err != nil { return …, err }`.
abbrev pub continue : {W A B : Type 0} → Result GoError A × W → (A → Io W B) → Result GoError B × W
continue (ok a, w) f = f a w
continue (err e, w) f = (err e, w)

infixl 5 ◌>>=◌ ◌>>◌
abbrev pub ◌>>=◌ : {W A B : Type 0} → Io W A → (A → Io W B) → Io W B
◌>>=◌ m f w = continue (m w) f

abbrev pub ◌>>◌ : {W B : Type 0} → Io W (Unit {0}) → Io W B → Io W B
m >> k = m >>= λ _. k

abbrev pub return : {W A : Type 0} → A → Io W A
return a w = (ok a, w)

abbrev pub lift : {W A : Type 0} → Result GoError A → Io W A
lift r w = (r, w)

abbrev pub fail : {W A : Type 0} → GoError → Io W A
fail e w = (err e, w)

-- `fmt.Errorf("text: %w", err)` on failure.
abbrev pub annotate : {W A : Type 0} → Text → Result GoError A × W → Result GoError A × W
annotate t (ok a, w) = (ok a, w)
annotate t (err e, w) = (err (wrapped t e), w)

abbrev pub or_wrap : {W A : Type 0} → Text → Io W A → Io W A
or_wrap t m w = annotate t (m w)

-- What a decoder makes of a body that was read, or the failure to read it.
abbrev pub decode_with :
    {A : Type 0} → (Text → Result GoError A) → Result GoError Text → Result GoError A
decode_with decode (ok body) = decode body
decode_with decode (err e) = err e

-- A chain of calls that returned a value made each of its calls return one.
pub continue-ok :
    {W A B : Type 0} (r : Result GoError A × W) (f : A → Io W B) (b : B) (w : W)
    → continue r f ≡ (ok b, w)
    → (a : A) × (v : W) × (r ≡ (ok a, v)) × (f a v ≡ (ok b, w))
continue-ok (ok a, v) f b w h = (a, v, refl, h)
continue-ok (err e, v) f b w h = absurd (ground arith)

pub annotate-ok :
    {W A : Type 0} (t : Text) (r : Result GoError A × W) (a : A) (w : W)
    → annotate t r ≡ (ok a, w)
    → r ≡ (ok a, w)
annotate-ok t (ok a, v) b w h = h
annotate-ok t (err e, v) b w h = absurd (ground arith)
