-- ===== src/Auth/Users.antt =====
-- backend/internal/repository/user_repo.go: the rows of users.
use sentinel_api_platform.Prelude.{String, ◌==◌}
use sentinel_api_platform.Effects.{Call, map_err, wrap}
use sentinel_api_platform.Model.{User}
use sentinel_api_platform.Gorm.{Table, missing_or}
use sentinel_api_platform.Auth.Service.{UserStore}

module _ {S : Type 0} (table : Table S User) where
  pub create : User → Call S (Unit {0})
  create u = map_err (wrap "create user: ") (table.insert u)

  pub find_by_email : String → Call S User
  find_by_email email =
      map_err (missing_or "user_repo: " "find user by email: ")
        (table.first_where (λ u. u.email == email))

  pub find_by_id : String → Call S User
  find_by_id id =
      map_err (missing_or "user_repo: " "find user by id: ") (table.first_where (λ u. u.id == id))

  abbrev pub user_store : UserStore S
  user_store = record { create = create; find_by_email = find_by_email; find_by_id = find_by_id }
