-- ===== src/Apis/Service/Laws.antt =====
-- Who may change the APIs of a project, and what a new API has.
mod Tests
use sentinel_api_platform.Prelude.{
  ◌≡◌, refl, sym, ap, ◌∙◌, inl, inr, String, Bool, true, false, not, ◌&&◌, ◌||◌, ◌==◌, arith,
  Bool-cases, trim_space, if◌then◌else◌,
}
use mathlib.Core.Path.{subst}
use sentinel_api_platform.Errs.{
  Error, Sentinel, sentinel, wrapped, is, not_found, bad_request, forbidden, conflict,
}
use sentinel_api_platform.Effects.{
  ok_injective, Result, ok, err, Call, pure, guard, draw, ◌>>=◌, ◌>>◌, map_err, sentinel_or, wrap,
  is_ok, bind-ok, bind_guard, bind-found, guard-ok, map_err-ok, map_err-state,
}
use sentinel_api_platform.Model.{Api, Columns}
use sentinel_api_platform.Apis.Service.{
  ApiStore, RoleChecker, is_editor, is_valid_method, require_editor, new_api, store_new, create,
  create_checked, update, update_checked, delete,
}

-- What a call has done that was stopped in the state `s`.
abbrev pub Stopped : {S A : Type 0} → Result A × S → S → Type 0
Stopped (r, s') s = (s' ≡ s) × (is_ok r ≡ false)

module _ {S : Type 0} (role_for : RoleChecker S) where
  -- The caller is no editor of the project, as far as its role is known.
  abbrev pub IsOutsider : String → String → S → Type 0
  IsOutsider caller pid s =
      (role : String) → (role_for pid caller s).0 ≡ ok role → is_editor role ≡ false

  pub require_editor-Stopped :
      {A : Type 0} (caller pid : String) (k : Call S A) (s : S)
      → IsOutsider caller pid s
      → Stopped (require_editor role_for caller pid k s) (role_for pid caller s).1
  unfolding require_editor
  require_editor-Stopped caller pid k s h =
      bind_guard (role_for pid caller) is_editor (sentinel forbidden) (λ _. k) s h

  pub require_editor-ok :
      {A : Type 0} (caller pid : String) (k : Call S A) (s : S) (a : A)
      → (require_editor role_for caller pid k s).0 ≡ ok a
      → (role : String) × ((role_for pid caller s).0 ≡ ok role)
        × (is_editor role ≡ true)
        × ((k (role_for pid caller s).1).0 ≡ ok a)
  unfolding require_editor
  require_editor-ok caller pid k s a h =
      let next : String → Call S _ = λ role. guard (is_editor role) (sentinel forbidden) >> k in
      let (role, found, same) = bind-ok (role_for pid caller) next s a h in
      let h₁ : (next role (role_for pid caller s).1).0 ≡ ok a = ap (λ x. x.0) (sym same) ∙ h in
      let (editor, rest) =
        guard-ok (is_editor role) (sentinel forbidden) k (role_for pid caller s).1 a h₁ in
      (role, found, editor, ap (λ x. x.0) (sym rest) ∙ h₁)

editor-admin : (role : String) → is_editor role ≡ false → (role == "admin") ≡ false
editor-admin role h = elim (Bool-cases (role == "admin")) [
  | inl e ↦ (let stuck = rw e at h in ground arith)
  | inr e ↦ e
]

module _ {S : Type 0} (apis : ApiStore S) (role_for : RoleChecker S) (new_id : S → String × S)
    (to_upper : String → String) where
  -- A caller who is neither admin nor engineer of a project can create no API in it, and neither
  -- update nor delete one of its APIs, where reading an API changes nothing: the calls fail, and
  -- they leave the state in which the lookup of the role has left it.
  pub editor_needed :
      (caller pid : String) (s : S) (a : Api)
      → IsOutsider role_for caller pid s
      → apis.find_by_id a.id s ≡ (ok a, s)
      → a.project_id ≡ pid
      → ((name method path operation_id : String)
          → Stopped
              (create apis role_for new_id to_upper caller pid name method path operation_id s)
              (role_for pid caller s).1)
        × ((fields : Columns)
            → Stopped
                (update apis role_for new_id to_upper caller a.id fields s)
                (role_for pid caller s).1)
        × Stopped (delete apis role_for new_id to_upper caller a.id s) (role_for pid caller s).1
  unfolding create update delete
  editor_needed caller pid s a h found same =
      let h₁ = subst (λ q. IsOutsider role_for caller q s) (sym same) h in
      let updated = λ (fields : Columns).
        bind-found (sentinel_or not_found "find api for update: ") (apis.find_by_id a.id)
          (λ b.
            require_editor role_for caller b.project_id
              (update_checked apis role_for new_id to_upper a.id fields))
          s a found in
      let deleted =
        bind-found (sentinel_or not_found "find api for delete: ") (apis.find_by_id a.id)
          (λ b. role_for b.project_id caller >>= λ role.
            guard (role == "admin") (sentinel forbidden)
            >> map_err (wrap "delete api: ") (apis.delete a.id))
          s a found in
      (
        λ name method path operation_id.
            require_editor-Stopped role_for caller pid
              (create_checked apis role_for new_id to_upper pid name method path operation_id) s h,
        λ fields. rw⁻¹ same (
            subst (λ x. Stopped x (role_for a.project_id caller s).1) (sym (updated fields))
              (require_editor-Stopped role_for caller a.project_id
                (update_checked apis role_for new_id to_upper a.id fields) s h₁)),
        rw⁻¹ same (
            subst (λ x. Stopped x (role_for a.project_id caller s).1) (sym deleted)
              (bind_guard (role_for a.project_id caller) (λ role. role == "admin")
                (sentinel forbidden) (λ _. map_err (wrap "delete api: ") (apis.delete a.id)) s
                (λ role e. editor-admin role (h₁ role e)))),
      )

  store_new-ok :
      (a b : Api) (s : S)
      → (store_new apis role_for new_id to_upper b s).0 ≡ ok a
      → (b ≡ a) × ((apis.create a s).0 ≡ ok tt)
  unfolding store_new
  store_new-ok a b s h =
      let context = sentinel_or conflict "create api: " in
      let (_, made, same) = bind-ok (map_err context (apis.create b)) (λ _. pure b) s a h in
      let same_api : b ≡ a = ok_injective (ap (λ x. x.0) (sym same) ∙ h) in
      (same_api, rw⁻¹ same_api (map_err-ok context (apis.create b) s tt made))

  -- The tests on what was asked for, of a creation that succeeds.
  create_checked-ok :
      (pid name method path operation_id : String) (s : S) (a : Api)
      → (create_checked apis role_for new_id to_upper pid name method path operation_id s).0 ≡ ok a
      → ((trim_space name == "") ≡ false)
        × ((trim_space path == "") ≡ false)
        × (is_valid_method (to_upper (trim_space method)) ≡ true)
        × ((store_new apis role_for new_id to_upper
              (new_api apis role_for new_id to_upper (new_id s).0 pid name method path operation_id)
              (new_id s).1).0
            ≡ ok a)
  unfolding create_checked
  create_checked-ok pid name method path operation_id s a h =
      elim (Bool-cases (trim_space name == "")) [
        | inl e ↦ (let stuck = rw (e, create_checked) at h in ground arith)
        | inr named ↦ elim (Bool-cases (trim_space path == "")) [
          | inl e ↦ (let stuck = rw (named, create_checked, e) at h in ground arith)
          | inr placed ↦ elim (Bool-cases (is_valid_method (to_upper (trim_space method)))) [
            | inr e ↦ (let stuck = rw (named, create_checked, placed, e) at h in ground arith)
            | inl valid ↦ (named, placed, valid, rw (named, create_checked, placed, valid) at h)
          ]
        ]
      ]

  -- An API that is created has the project that was asked for, a name and a path that are not
  -- empty, one of the seven methods, and the source "manual"; its caller is an admin or an engineer
  -- of the project, and its row was stored.
  pub create_api_ok :
      (caller pid name method path operation_id : String) (s : S) (a : Api)
      → (create apis role_for new_id to_upper caller pid name method path operation_id s).0 ≡ ok a
      → ((role : String) × ((role_for pid caller s).0 ≡ ok role) × (is_editor role ≡ true))
        × (a.project_id ≡ pid)
        × ((a.name == "") ≡ false)
        × ((a.path == "") ≡ false)
        × (is_valid_method a.method ≡ true)
        × (a.source ≡ "manual")
        × ((apis.create a (new_id (role_for pid caller s).1).1).0 ≡ ok tt)
  unfolding create create_checked new_api
  create_api_ok caller pid name method path operation_id s a h =
      let (role, found, editor, h₁) =
        require_editor-ok role_for caller pid
          (create_checked apis role_for new_id to_upper pid name method path operation_id) s a h in
      let s₁ = (role_for pid caller s).1 in
      let (named, placed, valid, stored) =
        create_checked-ok pid name method path operation_id s₁ a h₁ in
      let (same, row) = store_new-ok a _ (new_id s₁).1 stored in
      rw⁻¹ same ((role, found, editor), refl, named, placed, valid, refl, rw same row)
