-- ===== src/Contract/Differ/Laws.antt =====
-- When a comparison reports a breaking change.
mod Tests
use sentinel_api_platform.Prelude.{
  ◌≡◌, refl, sym, ap, ◌∙◌, ◌↔◌, inl, inr, String, Bool, true, false, ◌||◌, ◌==◌, eq_iff, Option,
  none, some, List, [], ◌∷◌, ◌++◌, All, arith, Bool-cases, Option-cases, some_injective,
  if◌then◌else◌,
}
use mathlib.Core.Bool.{false≢true}
use mathlib.Core.Path.{subst}
use sentinel_api_platform.Json.{lookup}
use sentinel_api_platform.Model.{Api}
use sentinel_api_platform.Contract.Differ.{
  Change, Operation, index_by_path, contains, collect_required, is_breaking, required_change,
  method_change, lost_required, required_changes, or_modified, diff_one, diff_old, diff_new, diff,
}

breaking-append : (xs ys : List Change) → is_breaking (xs ++ ys) ≡ is_breaking xs || is_breaking ys
unfolding is_breaking
breaking-append [] ys = refl
breaking-append (x ∷ xs) ys = let rest = breaking-append xs ys in ground arith

or_iff : (a b : Bool) → ((a || b) ≡ false) ↔ ((a ≡ false) × (b ≡ false))
or_iff true b = (λ h. ground arith, λ h. ground arith)
or_iff false b = (λ h. (refl, h), λ h. h.1)

append_iff :
    (xs ys : List Change)
    → (is_breaking (xs ++ ys) ≡ false) ↔ ((is_breaking xs ≡ false) × (is_breaking ys ≡ false))
append_iff xs ys = (
  λ h. (or_iff (is_breaking xs) (is_breaking ys)).0 (sym (breaking-append xs ys) ∙ h),
  λ h. breaking-append xs ys ∙ (or_iff (is_breaking xs) (is_breaking ys)).1 h,
)

module _ (operation : Api → Option Operation) where
  lost_iff :
      (a : Api) (fs now : List String)
      → (is_breaking (lost_required operation a fs now) ≡ false)
        ↔ All (λ f. contains now f ≡ true) fs
  unfolding is_breaking lost_required required_change
  lost_iff a [] now = (λ h. tt, λ h. refl)
  lost_iff a (f ∷ fs) now = elim (Bool-cases (contains now f)) [
    | inl e ↦ (
      λ h. (e, (lost_iff a fs now).0 (rw (e, lost_required) at h)),
      λ h. rw (e, lost_required) ((lost_iff a fs now).1 h.1),
    )
    | inr e ↦ (
      λ h. (let stuck = rw (e, lost_required) at h in ground arith),
      λ h. absurd (false≢true (sym e ∙ h.0)),
    )
  ]

  -- The two APIs have the same method, and where both have an operation, what the old one requires
  -- the new one requires too.
  pub record IsKept (a b : Api) : Type 0 where
    pub same_method : a.method ≡ b.method
    pub still_required :
        (old new : Operation)
        → operation a ≡ some old
        → operation b ≡ some new
        → All (λ f. contains (collect_required new) f ≡ true) (collect_required old)

  required_iff :
      (a b : Api)
      → (is_breaking (required_changes operation a b) ≡ false) ↔ (
          (old new : Operation)
          → operation a ≡ some old
          → operation b ≡ some new
          → All (λ f. contains (collect_required new) f ≡ true) (collect_required old))
  unfolding required_changes is_breaking
  required_iff a b = (
    λ h old new ea eb.
        (lost_iff a (collect_required old) (collect_required new)).0
          (rw (ea, required_changes, eb) at h),
    λ f. elim (Option-cases (operation a)) [
      | inl ea ↦ rw (ea, required_changes) refl
      | inr (old, ea) ↦ elim (Option-cases (operation b)) [
        | inl eb ↦ rw (ea, required_changes, eb) refl
        | inr (new, eb) ↦
            rw (ea, required_changes, eb)
              ((lost_iff a (collect_required old) (collect_required new)).1 (f old new ea eb))
      ]
    ],
  )

  modified-breaking :
      (a : Api) (cs : List Change) → is_breaking (or_modified operation a cs) ≡ is_breaking cs
  unfolding or_modified is_breaking
  modified-breaking a [] = refl
  modified-breaking a (c ∷ cs) = refl

  one_iff : (a b : Api) → (is_breaking (diff_one operation a b) ≡ false) ↔ IsKept a b
  unfolding diff_one is_breaking method_change or_modified
  one_iff a b = elim (Bool-cases (a.method == b.method)) [
    | inl e ↦ (
      λ h. record {
        same_method = (eq_iff a.method b.method).0 e;
        still_required =
            (required_iff a b).0 (
              sym (modified-breaking a (required_changes operation a b)) ∙ (rw (e, diff_one) at h));
      },
      λ k.
          rw (e, diff_one)
            (modified-breaking a (required_changes operation a b)
              ∙ (required_iff a b).1 k.still_required),
    )
    | inr e ↦ (
      λ h. (let stuck = rw (e, diff_one, or_modified) at h in ground arith),
      λ k. absurd (false≢true (sym e ∙ (eq_iff a.method b.method).1 k.same_method)),
    )
  ]

  abbrev pub StaysIn : List (String × Api) → String × Api → Type 0
  StaysIn newer (k, a) = (b : Api) × (lookup k newer ≡ some b) × IsKept a b

  old_iff :
      (old newer : List (String × Api))
      → (is_breaking (diff_old operation old newer) ≡ false) ↔ All (StaysIn newer) old
  unfolding diff_old is_breaking
  old_iff [] newer = (λ h. tt, λ h. refl)
  old_iff ((k, a) ∷ old) newer = elim (Option-cases (lookup k newer)) [
    | inl e ↦ (
      λ h. (let stuck = rw (e, diff_old) at h in ground arith),
      λ h. (let (b, there, _) = h.0 in let stuck = sym e ∙ there in ground arith),
    )
    | inr (b, e) ↦
        let parts = append_iff (diff_one operation a b) (diff_old operation old newer) in
        (
          λ h.
              let (here, rest) = parts.0 (rw (e, diff_old) at h) in
              ((b, e, (one_iff a b).0 here), (old_iff old newer).0 rest),
          λ h.
              let (b', there, kept) = h.0 in
              let same : b' ≡ b = some_injective (sym there ∙ e) in
              rw (e, diff_old)
                (parts.1 ((one_iff a b).1 (subst (IsKept a) same kept), (old_iff old newer).1 h.1)),
        )
  ]

  new_kept : (old newer : List (String × Api)) → is_breaking (diff_new operation old newer) ≡ false
  unfolding diff_new is_breaking
  new_kept old [] = refl
  new_kept old ((k, b) ∷ newer) = elim (Option-cases (lookup k old)) [
    | inl e ↦ rw (e, diff_new) (new_kept old newer)
    | inr (a, e) ↦ rw (e, diff_new) (new_kept old newer)
  ]

  -- A comparison reports no breaking change exactly when every indexed old API is still there under
  -- its key, with the same method, and requires nothing that the new one has ceased to require.
  pub diff_iff :
      (old newer : List Api)
      → (is_breaking (diff operation old newer) ≡ false)
        ↔ All (StaysIn (index_by_path newer)) (index_by_path old)
  unfolding diff
  diff_iff old newer =
      let parts =
        append_iff (diff_old operation (index_by_path old) (index_by_path newer))
          (diff_new operation (index_by_path old) (index_by_path newer)) in
      let kept = old_iff (index_by_path old) (index_by_path newer) in
      (
        λ h. kept.0 (parts.0 h).0,
        λ h. parts.1 (kept.1 h, new_kept (index_by_path old) (index_by_path newer)),
      )
