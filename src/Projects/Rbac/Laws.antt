-- ===== src/Projects/Rbac/Laws.antt =====
-- Which requests go on to their handler.
mod Tests
use sentinel_api_platform.Prelude.{
  ◌≡◌, refl, sym, ap, ◌∙◌, ◌↔◌, inl, inr, String, Bool, true, false, ◌||◌, ◌==◌, eq_iff, List, [],
  ◌∷◌, arith, Bool-cases, if◌then◌else◌,
}
use mathlib.Core.List.{Memᴰ}
use sentinel_api_platform.Errs.{Error, not_found, is}
use sentinel_api_platform.Errs.Mapper.{Failure, fail}
use sentinel_api_platform.Effects.{Result, ok, err, Call, Result-cases}
use sentinel_api_platform.Projects.Rbac.{
  Verdict, goes_on, writes, contains_role, judge_role, require_project_role,
}

contains_role_iff :
    (levels : List String) (role : String) → (contains_role levels role ≡ true) ↔ Memᴰ role levels
unfolding contains_role
contains_role_iff [] role = (λ h. ground arith, λ m. elim m [ ])
contains_role_iff (l ∷ levels) role = (
  λ h. elim (Bool-cases (l == role)) [
    | inl e ↦ Memᴰ.head (sym ((eq_iff l role).0 e))
    | inr e ↦ Memᴰ.tail ((contains_role_iff levels role).0 (rw (e, contains_role) at h))
  ],
  λ m. elim m [
    | Memᴰ.head e ↦ (let same = (eq_iff l role).1 (sym e) in rw (same, contains_role) refl)
    | Memᴰ.tail n ↦ (let rest = (contains_role_iff levels role).1 n in ground arith)
  ],
)

module _ {S : Type 0} (role_for : String → String → Call S String) (levels : List String) where
  -- The caller is known, the route names a project, and the resolver gives one of the levels.
  pub record Admitted (user pid : String) (s : S) : Type 0 where
    pub has_user : (user == "") ≡ false
    pub has_project : (pid == "") ≡ false
    pub role : String
    pub resolved : (role_for pid user s).0 ≡ ok role
    pub is_role : (role == "") ≡ false
    pub is_level : Memᴰ role levels

  judge-goes_on :
      (user pid : String) (s : S) (role : String)
      → (user == "") ≡ false
      → (pid == "") ≡ false
      → (role_for pid user s).0 ≡ ok role
      → judge_role levels (ok role) ≡ goes_on
      → Admitted user pid s
  unfolding judge_role
  judge-goes_on user pid s role u q e h = elim (Bool-cases (role == "")) [
    | inl empty ↦ (let stuck = rw (empty, judge_role) at h in ground arith)
    | inr named ↦ elim (Bool-cases (contains_role levels role)) [
      | inl there ↦ record {
        has_user = u;
        has_project = q;
        role = role;
        resolved = e;
        is_role = named;
        is_level = (contains_role_iff levels role).0 there;
      }
      | inr other ↦ (let stuck = rw (named, judge_role, other) at h in ground arith)
    ]
  ]

  judge_error : (e : Error) → judge_role levels (err e) ≡ goes_on → ⊥
  unfolding judge_role
  judge_error e h = ground arith

  -- The middleware calls the next handler itself exactly when the caller is known, the route names
  -- a project, and the resolver gives a role that is one of the levels and not empty.
  pub require_project_role-goes_on_iff :
      (user pid : String) (s : S)
      → ((require_project_role role_for levels user pid s).0 ≡ goes_on) ↔ Admitted user pid s
  unfolding require_project_role
  require_project_role-goes_on_iff user pid s = (
    λ h. elim (Bool-cases (user == "")) [
      | inl e ↦ (let stuck = rw (e, require_project_role) at h in ground arith)
      | inr u ↦ elim (Bool-cases (pid == "")) [
        | inl e ↦ (let stuck = rw (u, require_project_role, e) at h in ground arith)
        | inr q ↦ elim (Result-cases (role_for pid user s).0) [
          | inl (role, e) ↦
              judge-goes_on user pid s role u q e (rw (u, require_project_role, q, e) at h)
          | inr (why, e) ↦ absurd (judge_error why (rw (u, require_project_role, q, e) at h))
        ]
      ]
    ],
    λ a.
        rw (a.has_user, require_project_role)
          (rw (a.has_project, a.resolved)
            (rw (a.is_role, judge_role)
              (rw ((contains_role_iff levels a.role).1 a.is_level) refl))),
  )
