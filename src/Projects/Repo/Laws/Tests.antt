-- ===== src/Projects/Repo/Laws/Tests.antt =====
-- A project at a table of projects whose slugs are unique.
use sentinel_api_platform.Prelude.{
  ℕ, refl, String, Bool, ◌==◌, List, [], ◌∷◌, ◌++◌, trim_space, if◌then◌else◌,
}
use sentinel_api_platform.Errs.{mysql_error}
use sentinel_api_platform.Effects.{ok, err, Call}
use sentinel_api_platform.Model.{Project, ProjectMember}
use sentinel_api_platform.Gorm.{Table, first, count, update_all, delete_all, result_of, is_some}
use sentinel_api_platform.Projects.Service
use sentinel_api_platform.Projects.Repo.{project_store, member_store}
use sentinel_api_platform.Projects.Repo.Laws.{Internal, project_duplicate-Internal}

abbrev Rows : Type 0
Rows = List Project

abbrev is_taken : Project → Rows → Bool
is_taken p rows = is_some (first (λ q. q.slug == p.slug) rows)

abbrev projects : Table Rows Project
projects = record {
  insert = λ p rows. (
    if is_taken p rows then err (mysql_error 1062) else ok tt,
    if is_taken p rows then rows else rows ++ (p ∷ []),
  );
  first_where = λ p rows. (result_of (first p rows), rows);
  find_where = λ p before rows. (ok [], rows);
  update_where = λ p f rows. (ok (count p rows), update_all p f rows);
  delete_where = λ p rows. (ok (count p rows), delete_all p rows);
}

abbrev members : Table Rows ProjectMember
members = record {
  insert = λ m rows. (ok tt, rows);
  first_where = λ p rows. (result_of (first p []), rows);
  find_where = λ p before rows. (ok [], rows);
  update_where = λ p f rows. (ok 0, rows);
  delete_where = λ p rows. (ok 0, rows);
}

abbrev save : Project → Call Rows (Unit {0})
save p rows = (ok tt, update_all (λ q. q.id == p.id) (λ q. p) rows)

abbrev driver : ℕ → String
driver n = "Duplicate entry"

abbrev taken : Project
taken = record { id = "p1"; name = "Shop"; slug = "shop"; owner_id = "ann"; description = "" }

project_duplicate-Internal_example :
    Internal projects save members driver
      (Service.create
        (project_store projects save)
        (member_store members)
        "p2"
        "bob"
        "My shop"
        " shop "
        ""
        (taken ∷ [])).0
unfolding trim_space Service.new_project
project_duplicate-Internal_example =
    project_duplicate-Internal projects save members driver 1062 (taken ∷ []) "p2" "bob" "My shop"
      " shop " "" refl refl refl
