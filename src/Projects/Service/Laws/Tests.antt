-- ===== src/Projects/Service/Laws/Tests.antt =====
-- The theorems on the project service at stores that hold one project and count their changes.
use sentinel_api_platform.Prelude.{
  ℕ, suc, ◌≡◌, refl, String, false, ◌==◌, [], if◌then◌else◌, trim_space,
}
use sentinel_api_platform.Errs.{sentinel, not_found}
use sentinel_api_platform.Effects.{ok_injective, ok, err, is_ok}
use sentinel_api_platform.Model.{Project}
use sentinel_api_platform.Projects.Service.{
  ProjectStore, MemberStore, role_for, new_project, add_owner, create, update, delete, add_member,
}
use sentinel_api_platform.Projects.Service.Laws.{admin_needed, delete_owner}

abbrev pets : Project
pets = record { id = "p1"; name = "Pets"; slug = "pets"; owner_id = "ann"; description = "" }

abbrev projects : ProjectStore ℕ
projects = record {
  create = λ p n. (ok tt, suc n);
  find_by_id = λ id n. (if id == "p1" then ok pets else err (sentinel not_found), n);
  find_by_slug = λ slug n. (if slug == "pets" then ok pets else err (sentinel not_found), n);
  list_by_owner = λ owner n. (ok [], n);
  update = λ p n. (ok tt, suc n);
  delete = λ id n. (ok tt, suc n);
}

-- Bob is a viewer.
abbrev members : MemberStore ℕ
members = record {
  add = λ m n. (ok tt, suc n);
  list_by_project = λ pid n. (ok [], n);
  find = λ pid user n. (
    if user == "bob"
        then ok (record { project_id = pid; user_id = "bob"; role = "viewer" })
        else err (sentinel not_found),
    n,
  );
}

bob_refused :
    (role : String)
    → (role_for projects members "p1" "bob" 0).0 ≡ ok role
    → (role == "admin") ≡ false
unfolding role_for
bob_refused role e = rw⁻¹ (ok_injective e) refl

pets_refused : (p : Project) → (projects.find_by_id "p1" 0).0 ≡ ok p → (p.owner_id == "bob") ≡ false
pets_refused p e = rw⁻¹ (ok_injective e) refl

bob_role : (role_for projects members "p1" "bob" 0).0 ≡ ok "viewer"
unfolding role_for
bob_role = refl

admin_needed_example :
    ((name description : String)
      → ((update projects members "bob" "p1" name description 0).1
          ≡ (role_for projects members "p1" "bob" 0).1)
        × (is_ok (update projects members "bob" "p1" name description 0).0 ≡ false))
    × ((user role : String)
        → ((add_member projects members "bob" "p1" user role 0).1
            ≡ (role_for projects members "p1" "bob" 0).1)
          × (is_ok (add_member projects members "bob" "p1" user role 0).0 ≡ false))
admin_needed_example = admin_needed projects members "bob" "p1" 0 (λ role e. bob_refused role e)

delete_owner_example :
    ((delete projects members "bob" "p1" 0).1 ≡ 0)
    × (is_ok (delete projects members "bob" "p1" 0).0 ≡ false)
delete_owner_example = delete_owner projects members "bob" "p1" 0 (λ p e. pets_refused p e)

abbrev dogs : Project
dogs = record { id = "p2"; name = "Dogs"; slug = "dogs"; owner_id = "bob"; description = "" }

create_run : (create projects members "p2" "bob" " Dogs" "dogs" "" 0).0 ≡ ok dogs
unfolding create add_owner new_project trim_space
create_run = refl
