-- ===== src/Prelude/Checked.antt =====
-- A value, or what is wrong: Go's `(value, error)` where the error has its own type.
use mathlib.Core.Path.{◌≡◌, refl}
use mathlib.Core.Logic.{◌⊎◌, inl, inr}

pub data Checked (E A : Type 0) : Type 0 where
  good : A → Checked E A
  bad : E → Checked E A

infixl 5 ◌>>=◌ ◌>>◌
abbrev pub ◌>>=◌ : {E A B : Type 0} → Checked E A → (A → Checked E B) → Checked E B
good a >>= f = f a
bad e >>= f = bad e

abbrev pub ◌>>◌ : {E B : Type 0} → Checked E (Unit {0}) → Checked E B → Checked E B
m >> k = m >>= λ _. k

abbrev pub bad_map : {E F A : Type 0} → (E → F) → Checked E A → Checked F A
bad_map f (good a) = good a
bad_map f (bad e) = bad (f e)

pub Checked-cases :
    {E A : Type 0} (c : Checked E A) → ((e : E) × (c ≡ bad e)) ⊎ ((a : A) × (c ≡ good a))
Checked-cases (good a) = inr (a, refl)
Checked-cases (bad e) = inl (e, refl)
