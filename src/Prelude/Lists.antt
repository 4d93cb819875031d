-- ===== src/Prelude/Lists.antt =====
-- Lists: their length as a native number, the elements that pass a test, and predicates by
-- recursion, which the tactics read.
use Prim.Native.Nat.{ℕ, suc}
use mathlib.Core.Path.{◌≡◌, refl, sym, ap, ◌∙◌, subst}
use mathlib.Core.Logic.{◌↔◌, ◌⊎◌, inl, inr}
use mathlib.Core.Bool.{Bool, true, false, false≢true}
use mathlib.Core.List.{List, [], ◌∷◌, Memᴰ}
use sentinel_api_platform.Prelude.Tests.{if◌then◌else◌}

module _ {ℓ} {A : Type ℓ} where
  abbrev pub length : List A → ℕ
  length [] = 0
  length (x ∷ xs) = suc (length xs)

  -- The elements that pass the test, in their order.
  abbrev pub keep : (A → Bool) → List A → List A
  keep p [] = []
  keep p (x ∷ xs) = if p x then x ∷ keep p xs else keep p xs

module _ {ℓ κ} {A : Type ℓ} (P : A → Type κ) where
  abbrev pub All : List A → Type κ
  All [] = Unit
  All (x ∷ xs) = P x × All xs

pub All-at {ℓ κ} : {A : Type ℓ} (P : A → Type κ) {x : A} (xs : List A) → All P xs → Memᴰ x xs → P x
All-at P [] h m = elim m [ ]
All-at P (y ∷ xs) (p, ps) (Memᴰ.head e) = subst P (sym e) p
All-at P (y ∷ xs) (p, ps) (Memᴰ.tail m) = All-at P xs ps m

module _ {ℓ} {A : Type ℓ} (p : A → Bool) {r x : A} {xs ys : List A} where
  keep_inv :
      (b : Bool)
      → p x ≡ b
      → (Memᴰ r ys → Memᴰ r xs × (p r ≡ true))
      → Memᴰ r (if b then x ∷ ys else ys)
      → Memᴰ r (x ∷ xs) × (p r ≡ true)
  keep_inv true e ih (Memᴰ.head q) = (Memᴰ.head q, subst (λ z. p z ≡ true) (sym q) e)
  keep_inv true e ih (Memᴰ.tail m) = (Memᴰ.tail (ih m).0, (ih m).1)
  keep_inv false e ih m = (Memᴰ.tail (ih m).0, (ih m).1)

  keep_mem :
      (b : Bool)
      → p x ≡ b
      → p r ≡ true
      → (Memᴰ r xs → Memᴰ r ys)
      → Memᴰ r (x ∷ xs)
      → Memᴰ r (if b then x ∷ ys else ys)
  keep_mem true e h ih (Memᴰ.head q) = Memᴰ.head q
  keep_mem true e h ih (Memᴰ.tail m) = Memᴰ.tail (ih m)
  keep_mem false e h ih (Memᴰ.head q) = absurd (false≢true (sym e ∙ ap p (sym q) ∙ h))
  keep_mem false e h ih (Memᴰ.tail m) = ih m

-- What is kept is what is there and passes the test.
pub mem-keep {ℓ} :
    {A : Type ℓ} (p : A → Bool) (r : A) (xs : List A)
    → Memᴰ r (keep p xs) ↔ (Memᴰ r xs × (p r ≡ true))
mem-keep p r [] = (λ m. elim m [ ], λ h. elim h.0 [ ])
mem-keep p r (x ∷ xs) = (
  keep_inv p (p x) refl (mem-keep p r xs).0,
  λ h. keep_mem p (p x) refl h.1 (λ m. (mem-keep p r xs).1 (m, h.1)) h.0,
)

pub List-cases {ℓ} :
    {A : Type ℓ} (xs : List A) → (xs ≡ []) ⊎ ((x : A) × (ys : List A) × (xs ≡ x ∷ ys))
List-cases [] = inl refl
List-cases (x ∷ xs) = inr (x, xs, refl)
