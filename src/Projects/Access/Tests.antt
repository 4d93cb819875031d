-- ===== src/Projects/Access/Tests.antt =====
-- The theorem on admitted requests at stores with one project and one viewer.
use sentinel_api_platform.Prelude.{ℕ, ◌≡◌, refl, ◌⊎◌, String, ◌==◌, List, [], ◌∷◌, if◌then◌else◌}
use mathlib.Core.List.{Memᴰ}
use sentinel_api_platform.Errs.{sentinel, not_found}
use sentinel_api_platform.Effects.{ok, err}
use sentinel_api_platform.Model.{Project, ProjectMember}
use sentinel_api_platform.Projects.Service.{ProjectStore, MemberStore, role_for, member_role}
use sentinel_api_platform.Projects.Rbac.{goes_on, require_project_role}
use sentinel_api_platform.Projects.Access.{admitted_member}

abbrev pets : Project
pets = record { id = "p1"; name = "Pets"; slug = "pets"; owner_id = "ann"; description = "" }

abbrev project_store : ProjectStore ℕ
project_store = record {
  create = λ p n. (ok tt, n);
  find_by_id = λ id n. (if id == "p1" then ok pets else err (sentinel not_found), n);
  find_by_slug = λ slug n. (ok pets, n);
  list_by_owner = λ owner n. (ok [], n);
  update = λ p n. (ok tt, n);
  delete = λ id n. (ok tt, n);
}

abbrev member_store : MemberStore ℕ
member_store = record {
  add = λ m n. (ok tt, n);
  list_by_project = λ pid n. (ok [], n);
  find = λ pid user n. (
    if user == "bob"
        then ok (record { project_id = pid; user_id = "bob"; role = "viewer" })
        else err (sentinel not_found),
    n,
  );
}

abbrev levels : List String
levels = "admin" ∷ "viewer" ∷ []

bob_run :
    (require_project_role (role_for project_store member_store) levels "bob" "p1" 0).0 ≡ goes_on
unfolding require_project_role role_for member_role
bob_run = refl

admitted_member_example :
    ((p : Project) × ((project_store.find_by_id "p1" 0).0 ≡ ok p)
      × (p.owner_id ≡ "bob")
      × Memᴰ "admin" levels)
    ⊎ ((m : ProjectMember) × ((member_store.find "p1" "bob" 0).0 ≡ ok m) × Memᴰ m.role levels)
admitted_member_example = admitted_member project_store member_store levels "bob" "p1" 0 bob_run
