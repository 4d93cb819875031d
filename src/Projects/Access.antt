-- ===== src/Projects/Access.antt =====
-- The middleware of backend/internal/middleware/rbac.go with the project service as its resolver,
-- as backend/cmd/server/main.go wires them.
mod Tests
use sentinel_api_platform.Prelude.{
  ◌≡◌, refl, sym, ap, ◌∙◌, ◌⊎◌, inl, inr, String, Bool, true, false, ◌==◌, eq_iff, List, arith,
  Bool-cases, if◌then◌else◌,
}
use mathlib.Core.List.{Memᴰ}
use mathlib.Core.Path.{subst}
use mathlib.Core.Bool.{false≢true}
use sentinel_api_platform.Errs.{Error, is, not_found}
use sentinel_api_platform.Effects.{
  ok_injective, Result, ok, err, Call, ◌>>=◌, pure, map_err, sentinel_or, wrap, Result-cases,
  bind-ok, map_err-ok, map_err-state,
}
use sentinel_api_platform.Model.{Project, ProjectMember}
use sentinel_api_platform.Projects.Service.{ProjectStore, MemberStore, member_role, role_for}
use sentinel_api_platform.Projects.Rbac.{goes_on, require_project_role}
use sentinel_api_platform.Projects.Rbac.Laws.{Admitted, require_project_role-goes_on_iff}

module _ {S : Type 0} (projects : ProjectStore S) (members : MemberStore S) where
  -- The user owns the project and has the role "admin", or is a member with the role; a role that
  -- is empty is that of a user who is no member.
  pub data HasRole (pid user role : String) (s : S) : Type 0 where
    is_owner :
        (p : Project)
        → (projects.find_by_id pid s).0 ≡ ok p
        → p.owner_id ≡ user
        → role ≡ "admin"
        → HasRole pid user role s
    is_member :
        (m : ProjectMember)
        → (members.find pid user (projects.find_by_id pid s).1).0 ≡ ok m
        → m.role ≡ role
        → HasRole pid user role s
    is_stranger : role ≡ "" → HasRole pid user role s

  member_role-found :
      (pid user role : String) (s : S)
      → (member_role projects members pid user s).0 ≡ ok role
      → ((m : ProjectMember) × ((members.find pid user s).0 ≡ ok m) × (m.role ≡ role)) ⊎ (role ≡ "")
  unfolding member_role
  member_role-found pid user role s h = elim (Result-cases (members.find pid user s).0) [
    | inl (m, e) ↦ inl (m, e, ok_injective (rw (e, member_role) at h))
    | inr (why, e) ↦ elim (Bool-cases (is why not_found)) [
      | inl t ↦ inr (sym (ok_injective (rw (e, member_role, t) at h)))
      | inr f ↦ (let stuck = rw (e, member_role, f) at h in ground arith)
    ]
  ]

  role_for-HasRole :
      (pid user role : String) (s : S)
      → (role_for projects members pid user s).0 ≡ ok role
      → HasRole pid user role s
  unfolding role_for member_role
  role_for-HasRole pid user role s h =
      let context = sentinel_or not_found "find project for role: " in
      let find = projects.find_by_id pid in
      let next : Project → Call S String =
        λ p. if p.owner_id == user then pure "admin" else member_role projects members pid user in
      let (p, there, same) = bind-ok (map_err context find) next s role h in
      let h₁ : (next p (map_err context find s).1).0 ≡ ok role = ap (λ x. x.0) (sym same) ∙ h in
      let state = map_err-state context find s in
      elim (Bool-cases (p.owner_id == user)) [
        | inl e ↦
            is_owner p (map_err-ok context find s p there) ((eq_iff p.owner_id user).0 e)
              (sym (ok_injective (rw e at h₁)))
        | inr e ↦
            elim (member_role-found pid user role (find s).1 (
              subst (λ t. (member_role projects members pid user t).0 ≡ ok role) state
                (rw e at h₁))) [
                  | inl (m, found, same_role) ↦ is_member m found same_role
                  | inr empty ↦ is_stranger empty
                ]
      ]

  -- A request for which the middleware calls the next handler itself comes from the owner of the project, where "admin" is
  -- one of the levels, or from a member of it whose role is one of the levels.
  pub admitted_member :
      (levels : List String) (user pid : String) (s : S)
      → (require_project_role (role_for projects members) levels user pid s).0 ≡ goes_on
      → ((p : Project) × ((projects.find_by_id pid s).0 ≡ ok p)
          × (p.owner_id ≡ user)
          × Memᴰ "admin" levels)
        ⊎ ((m : ProjectMember) × ((members.find pid user (projects.find_by_id pid s).1).0 ≡ ok m)
            × Memᴰ m.role levels)
  admitted_member levels user pid s h =
      let a =
        (require_project_role-goes_on_iff (role_for projects members) levels user pid s).0 h in
      elim (role_for-HasRole pid user a.role s a.resolved) [
        | is_owner p there owns admin ↦
            inl (p, there, owns, subst (λ r. Memᴰ r levels) admin a.is_level)
        | is_member m found same ↦ inr (m, found, subst (λ r. Memᴰ r levels) (sym same) a.is_level)
        | is_stranger empty ↦ absurd (false≢true (sym a.is_role ∙ (eq_iff a.role "").1 empty))
      ]
