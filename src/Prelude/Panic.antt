-- ===== src/Prelude/Panic.antt =====
-- Code that may panic: `none` stands for a run-time panic (an index or a slice out of range, a nil
-- pointer), `some` for a normal return.
use mathlib.Core.Option.{Option, none, some}
use mathlib.Core.Path.{◌≡◌}

infixl 5 ◌>>=◌
abbrev pub ◌>>=◌ {ℓ κ} : {A : Type ℓ} {B : Type κ} → Option A → (A → Option B) → Option B
none >>= f = none
some a >>= f = f a

-- A normal return whose value satisfies `P`.
abbrev pub Returns {ℓ} : {A : Type ℓ} → Option A → (A → Type 0) → Type 0
Returns none P = ⊥
Returns (some a) P = P a

pub >>=_some {ℓ κ} :
    {A : Type ℓ} {B : Type κ} (m : Option A) (f : A → Option B) {a : A}
    → m ≡ some a
    → (m >>= f) ≡ f a
>>=_some m f e = rw e
