-- ===== src/Projects/Service/Laws.antt =====
-- Who may change a project, and what a new project has.
mod Tests
use sentinel_api_platform.Prelude.{
  ◌≡◌, refl, sym, ap, ◌∙◌, inl, inr, String, Bool, true, false, not, ◌&&◌, ◌||◌, ◌==◌, eq_iff, List,
  arith, Bool-cases, trim_space, if◌then◌else◌,
}
use sentinel_api_platform.Errs.{
  Error, Sentinel, sentinel, wrapped, is, not_found, bad_request, forbidden, conflict,
}
use sentinel_api_platform.Effects.{
  ok_injective, Result, ok, err, Call, pure, guard, ◌>>=◌, ◌>>◌, map_err, sentinel_or, wrap, is_ok,
  Result-cases, bind-ok, bind_guard, map_err-ok, map_err-state,
}
use sentinel_api_platform.Model.{Project, ProjectMember}
use sentinel_api_platform.Projects.Service.{
  ProjectStore, MemberStore, is_valid_project_role, role_for, new_project, create, update, delete,
  add_member, add_owner, store_revised,
}

module _ {S : Type 0} (projects : ProjectStore S) (members : MemberStore S) where
  -- A caller whose role is not "admin" can neither change a project nor add a member: the call
  -- fails, and it leaves the state in which the lookup of the role has left it.
  pub admin_needed :
      (caller pid : String) (s : S)
      → ((role : String)
          → (role_for projects members pid caller s).0 ≡ ok role
          → (role == "admin") ≡ false)
      → ((name description : String)
          → ((update projects members caller pid name description s).1
              ≡ (role_for projects members pid caller s).1)
            × (is_ok (update projects members caller pid name description s).0 ≡ false))
        × ((user role : String)
            → ((add_member projects members caller pid user role s).1
                ≡ (role_for projects members pid caller s).1)
              × (is_ok (add_member projects members caller pid user role s).0 ≡ false))
  unfolding update add_member
  admin_needed caller pid s h = (
    λ name description.
        bind_guard (role_for projects members pid caller) (λ role. role == "admin")
          (sentinel forbidden)
          (λ _.
            map_err (sentinel_or not_found "find project: ") (projects.find_by_id pid)
            >>= store_revised projects members name description)
          s h,
    λ user role'.
        bind_guard (role_for projects members pid caller) (λ role. role == "admin")
          (sentinel forbidden)
          (λ _.
            guard (is_valid_project_role role')
              (wrapped "" (sentinel bad_request) ": role must be admin/engineer/viewer")
            >> members.add (record { project_id = pid; user_id = user; role = role' }))
          s h,
  )

  -- Only the owner can delete a project: for any other caller the call fails, and the state is the
  -- one in which the lookup of the project has left it.
  pub delete_owner :
      (caller pid : String) (s : S)
      → ((p : Project) → (projects.find_by_id pid s).0 ≡ ok p → (p.owner_id == caller) ≡ false)
      → ((delete projects members caller pid s).1 ≡ (projects.find_by_id pid s).1)
        × (is_ok (delete projects members caller pid s).0 ≡ false)
  unfolding delete
  delete_owner caller pid s h =
      let found = map_err (sentinel_or not_found "find project: ") (projects.find_by_id pid) in
      let same =
        map_err-state (sentinel_or not_found "find project: ") (projects.find_by_id pid) s in
      let (state, failed) =
        bind_guard found (λ p. p.owner_id == caller) (sentinel forbidden)
          (λ _. map_err (wrap "delete project: ") (projects.delete pid)) s
          (λ p e. h p (
            map_err-ok (sentinel_or not_found "find project: ") (projects.find_by_id pid) s p e)) in
      (state ∙ same, failed)

  -- A project that is created has the name and the slug that were asked for, without the blanks
  -- round them and not empty, and both its row and its owner's membership as admin were stored.
  pub create_ok :
      (id owner name slug description : String) (s : S) (p : Project)
      → (create projects members id owner name slug description s).0 ≡ ok p
      → (p ≡ new_project projects members id owner name slug description)
        × ((trim_space name == "") ≡ false)
        × ((trim_space slug == "") ≡ false)
        × ((projects.create p s).0 ≡ ok tt)
        × ((members.add
              (record { project_id = id; user_id = owner; role = "admin" })
              (projects.create p s).1).0
            ≡ ok tt)
  unfolding create add_owner new_project
  create_ok id owner name slug description s p h = elim (Bool-cases (trim_space name == "")) [
    | inl e ↦ (let stuck = rw (e, create) at h in ground arith)
    | inr named ↦ elim (Bool-cases (trim_space slug == "")) [
      | inl e ↦ (let stuck = rw (named, create, e) at h in ground arith)
      | inr slugged ↦
          (let q = new_project projects members id owner name slug description in
            let admin : ProjectMember = record {
              project_id = id;
              user_id = owner;
              role = "admin";
            } in
            let context = sentinel_or conflict "create project: " in
            let first = map_err context (projects.create q) in
            let second = map_err (wrap "add owner as admin member: ") (members.add admin) in
            let h₁ : ((first >> add_owner projects members q) s).0 ≡ ok p =
              rw (named, create, slugged) at h in
            let (_, made, same₁) = bind-ok first (λ _. add_owner projects members q) s p h₁ in
            let h₂ = ap (λ x. x.0) (sym same₁) ∙ h₁ in
            let (_, added, same₂) = bind-ok second (λ _. pure q) (first s).1 p h₂ in
            let same : q ≡ p = ok_injective (ap (λ x. x.0) (sym same₂) ∙ h₂) in
            let stored =
              map_err-ok (wrap "add owner as admin member: ") (members.add admin) (first s).1 tt
                added in
            rw⁻¹ same (
              refl,
              named,
              slugged,
              map_err-ok context (projects.create q) s tt made,
              rw (map_err-state context (projects.create q) s) at stored,
            ))
    ]
  ]
