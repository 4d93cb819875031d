-- ===== src/Apis/Repo/Laws.antt =====
-- The API service over its repository.
mod Tests
use sentinel_api_platform.Prelude.{
  ℕ, ◌≡◌, refl, sym, ap, ◌∙◌, inl, inr, String, Bool, true, false, ◌==◌, Option, none, some, List,
  [], ◌∷◌, Bool-cases, eq_iff, arith, if◌then◌else◌,
}
use mathlib.Core.Path.{subst}
use sentinel_api_platform.Errs.{Error, Sentinel, sentinel, is, not_found, forbidden}
use sentinel_api_platform.Effects.{
  Result, ok, err, Call, pure, guard, ◌>>=◌, ◌>>◌, map_err, sentinel_or, wrap, bind-ok, guard-ok,
  map_err-ok, map_err-state,
}
use sentinel_api_platform.Model.{Api, Columns}
use sentinel_api_platform.Gorm.{Table, DeletesRows, first, delete_all}
use sentinel_api_platform.Apis.Service.{RoleChecker}
use sentinel_api_platform.Apis.Service
use sentinel_api_platform.Apis.Repo.{has_id, find_by_id, delete, api_store}

first-delete_all : {R : Type 0} (p : R → Bool) (rows : List R) → first p (delete_all p rows) ≡ none
first-delete_all p [] = refl
first-delete_all p (r ∷ rows) = elim (Bool-cases (p r)) [
  | inl e ↦ rw e (first-delete_all p rows)
  | inr e ↦ rw e (rw e (first-delete_all p rows))
]

then-state : {S A : Type 0} (m : Call S A) (s : S) → ((m >> pure tt) s).1 ≡ (m s).1
then-state m s = ground arith

module _ {S : Type 0} (table : Table S Api) (apply : Columns → Api → Api) (role_for : RoleChecker S)
    (new_id : S → String × S) (to_upper : String → String) (rows : S → List Api)
    (deletes : DeletesRows table rows) where
  delete-state :
      (id : String) (s : S)
      → (delete table apply id s).0 ≡ ok tt
      → first (has_id id) (rows (delete table apply id s).1) ≡ none
  unfolding delete
  delete-state id s h =
      let call = table.delete_where (has_id id) in
      let context = wrap "delete api: " in
      let (n, counted, _) = bind-ok (map_err context call) (λ _. pure tt) s tt h in
      let (emptied, _) = deletes.deleted (has_id id) s n (map_err-ok context call s n counted) in
      ap (λ t. first (has_id id) (rows t))
        (then-state (map_err context call) s ∙ map_err-state context call s)
      ∙ ap (first (has_id id)) emptied
      ∙ first-delete_all (has_id id) (rows s)

  -- Over a table whose deletions keep the law, an API that the service has deleted is no row any more, and its caller is an admin of the
  -- project that the row had.
  pub delete_gone :
      (caller id : String) (s : S)
      → (Service.delete (api_store table apply) role_for new_id to_upper caller id s).0 ≡ ok tt
      → (first
            (has_id id)
            (rows (Service.delete (api_store table apply) role_for new_id to_upper caller id s).1)
          ≡ none)
        × ((a : Api) × ((find_by_id table apply id s).0 ≡ ok a)
            × ((role_for a.project_id caller (find_by_id table apply id s).1).0 ≡ ok "admin"))
  unfolding Service.delete
  delete_gone caller id s h =
      let context = sentinel_or not_found "find api for delete: " in
      let find = find_by_id table apply id in
      let erase = map_err (wrap "delete api: ") (delete table apply id) in
      let check : String → Call S (Unit {0}) =
        λ role. guard (role == "admin") (sentinel forbidden) >> erase in
      let next : Api → Call S (Unit {0}) = λ a. role_for a.project_id caller >>= check in
      let (a, found, same₁) = bind-ok (map_err context find) next s tt h in
      let s₁ = (map_err context find s).1 in
      let h₁ : (next a s₁).0 ≡ ok tt = ap (λ x. x.0) (sym same₁) ∙ h in
      let (role, known, same₂) = bind-ok (role_for a.project_id caller) check s₁ tt h₁ in
      let s₂ = (role_for a.project_id caller s₁).1 in
      let (admin, same₃) =
        guard-ok (role == "admin") (sentinel forbidden) erase s₂ tt
          (ap (λ x. x.0) (sym same₂) ∙ h₁) in
      let erased : (erase s₂).0 ≡ ok tt =
        ap (λ x. x.0) (sym same₃) ∙ ap (λ x. x.0) (sym same₂) ∙ h₁ in
      let role_known = known ∙ ap ok ((eq_iff role "admin").0 admin) in
      (
        ap (λ x. first (has_id id) (rows x.1)) (same₁ ∙ same₂ ∙ same₃)
            ∙ ap (λ t. first (has_id id) (rows t))
                (map_err-state (wrap "delete api: ") (delete table apply id) s₂)
            ∙ delete-state id s₂
                (map_err-ok (wrap "delete api: ") (delete table apply id) s₂ tt erased),
        (
          a,
          map_err-ok context find s a found,
          subst (λ t. (role_for a.project_id caller t).0 ≡ ok "admin")
              (map_err-state context find s) role_known,
        ),
      )
