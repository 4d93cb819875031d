-- ===== src/Apis/Handlers/Import.antt =====
-- `ImportOpenAPI` of backend/internal/api/api.go: every operation of a document is created through
-- the service, and the refused ones are listed.
use sentinel_api_platform.Prelude.{
  ℕ, suc, ◌+◌, ◌≡◌, refl, ap, inl, inr, String, List, [], ◌∷◌, length, arith,
}
use Prim.Native.String
use sentinel_api_platform.Errs.{Error}
use sentinel_api_platform.Effects.{ok, err, Call, ◌>>=◌, Result-cases}
use sentinel_api_platform.Model.{Api}
use sentinel_api_platform.Http.{Request, Handler, Binder, answer, with_user, with_body}

-- The data of the answer; `skipped`, the number of the failures, and they are left out of it where
-- nothing failed.
pub record Imported : Type 0 where
  pub imported : ℕ
  pub total : ℕ
  pub failures : List String

abbrev pub label : Api → String
label a = Prim.Native.String.◌++◌ a.method (Prim.Native.String.◌++◌ " " a.path)

-- `create` is the service's, for the caller and the project; `load` is `contract.Load`, `extract`
-- is `contract.ExtractAPIs`, which draws an id for every API.
module _ {S : Type 0} (create : String → String → Api → Call S Api) (driver : ℕ → String) where
  -- the APIs that were created, then the failures, in the order of the document
  unfoldable pub import_all : String → String → List Api → S → (List Api × List String) × S
  import_all caller pid [] s = (([], []), s)
  import_all caller pid (a ∷ apis) s =
      let (made, s₁) = create caller pid a s in
      let ((created, failures), s₂) = import_all caller pid apis s₁ in
      elim made [
        | ok b ↦ ((b ∷ created, failures), s₂)
        | err _ ↦ ((created, label a ∷ failures), s₂)
      ]

  unfoldable pub import_apis : String → String → List Api → Call S Imported
  import_apis caller pid apis s =
      let ((created, failures), s') = import_all caller pid apis s in
      (ok (record { imported = length created; total = length apis; failures = failures }), s')

  unfoldable pub import_openapi :
      {D : Type 0}
      → (String → Call S D)
      → (D → String → Call S (List Api))
      → Binder String
      → Request
      → Handler S Imported
  import_openapi load extract bind r = with_user r (λ caller. with_body driver bind r (λ spec.
      answer driver (do
        doc ← load spec
        apis ← extract doc (r.param "pid")
        import_apis caller (r.param "pid") apis)))

  -- The operations are created in turn: how many of the calls succeed, and the labels of those that
  -- the service refuses, in the order of the document. Each call is made in the state after the one
  -- before it.
  pub data Creates (caller pid : String) : List Api → S → ℕ → List String → S → Type 0 where
    nothing : {s : S} → Creates caller pid [] s 0 [] s
    created :
        {a b : Api} {apis : List Api} {s s₁ t : S} {n : ℕ} {refused : List String}
        → create caller pid a s ≡ (ok b, s₁)
        → Creates caller pid apis s₁ n refused t
        → Creates caller pid (a ∷ apis) s (suc n) refused t
    failed :
        {a : Api} {e : Error} {apis : List Api} {s s₁ t : S} {n : ℕ} {refused : List String}
        → create caller pid a s ≡ (err e, s₁)
        → Creates caller pid apis s₁ n refused t
        → Creates caller pid (a ∷ apis) s n (label a ∷ refused) t

  pub import_all-Creates :
      (caller pid : String) (apis : List Api) (s : S)
      → let ((made, refused), t) = import_all caller pid apis s in
        Creates caller pid apis s (length made) refused t
  unfolding import_all
  import_all-Creates caller pid [] s = nothing
  import_all-Creates caller pid (a ∷ apis) s =
      let rest = import_all-Creates caller pid apis (create caller pid a s).1 in
      let s₁ = (create caller pid a s).1 in
      elim (Result-cases (create caller pid a s).0) [
        | inl (b, e) ↦ rw (e, import_all) (created (ap (λ r. (r, s₁)) e) rest)
        | inr (why, e) ↦ rw (e, import_all) (failed (ap (λ r. (r, s₁)) e) rest)
      ]

  pub Creates-sum :
      {caller pid : String} (apis : List Api) (s t : S) (n : ℕ) (refused : List String)
      → Creates caller pid apis s n refused t
      → n + length refused ≡ length apis
  Creates-sum [] s t n refused nothing = refl
  Creates-sum (a ∷ apis) s t n refused (created e rest) =
      let sum = Creates-sum apis _ t _ refused rest in ground arith
  Creates-sum (a ∷ apis) s t n (l ∷ refused) (failed e rest) =
      let sum = Creates-sum apis _ t n refused rest in ground arith
