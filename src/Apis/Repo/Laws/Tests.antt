-- ===== src/Apis/Repo/Laws/Tests.antt =====
-- A deletion at a table that is a list of rows.
use sentinel_api_platform.Prelude.{
  ◌≡◌, refl, sym, arith, String, Bool, ◌==◌, ◌||◌, ◌&&◌, none, List, [], ◌∷◌, ◌++◌, false,
  if◌then◌else◌,
}
use sentinel_api_platform.Errs.{mysql_error}
use sentinel_api_platform.Effects.{ok, err, Call, ok_injective}
use sentinel_api_platform.Model.{Api, Columns}
use sentinel_api_platform.Gorm.{
  Table, DeletesRows, first, count, update_all, delete_all, result_of, is_some,
}
use sentinel_api_platform.Apis.Service
use sentinel_api_platform.Apis.Repo.{has_id, find_by_id, delete, api_store}
use sentinel_api_platform.Apis.Repo.Laws.{delete_gone}

abbrev Rows : Type 0
Rows = List Api

-- A row with the same id, or with the same project, method and path
abbrev clashes : Api → Rows → Bool
clashes a rows = is_some (
    first
      (λ b.
        b.id == a.id || (b.project_id == a.project_id && b.method == a.method && b.path == a.path))
      rows)

abbrev table : Table Rows Api
table = record {
  insert = λ a rows. (
    if clashes a rows then err (mysql_error 1062) else ok tt,
    if clashes a rows then rows else rows ++ (a ∷ []),
  );
  first_where = λ p rows. (result_of (first p rows), rows);
  find_where = λ p before rows. (ok [], rows);
  update_where = λ p f rows. (ok (count p rows), update_all p f rows);
  delete_where = λ p rows. (ok (count p rows), delete_all p rows);
}

deletes : DeletesRows table (λ rows. rows)
deletes = record {
  deleted = λ p s n h. (refl, sym (ok_injective h));
  not_deleted = λ p s e h. ground arith;
}

abbrev sample : Api
sample = record {
  id = "a1";
  project_id = "p1";
  name = "List pets";
  method = "GET";
  path = "/pets";
  operation_id = "";
  tags_json = "";
  request_schema_json = "";
  response_schema_json = "";
  spec_json = "";
  source = "manual";
  deprecated = false;
}

abbrev apply : Columns → Api → Api
apply fields a = a

abbrev role_of : String → String → Call Rows String
role_of pid user rows = (ok (if user == "ann" then "admin" else "viewer"), rows)

abbrev new_id : Rows → String × Rows
new_id rows = ("a2", rows)

abbrev same : String → String
same m = m

delete_run :
    (Service.delete (api_store table apply) role_of new_id same "ann" "a1" (sample ∷ [])).0 ≡ ok tt
unfolding Service.delete delete find_by_id
delete_run = refl

delete_gone_example :
    (first
        (has_id "a1")
        (Service.delete (api_store table apply) role_of new_id same "ann" "a1" (sample ∷ [])).1
      ≡ none)
    × ((a : Api) × ((find_by_id table apply "a1" (sample ∷ [])).0 ≡ ok a)
        × ((role_of a.project_id "ann" (find_by_id table apply "a1" (sample ∷ [])).1).0
            ≡ ok "admin"))
delete_gone_example =
    delete_gone table apply role_of new_id same (λ rows. rows) deletes "ann" "a1" (sample ∷ [])
      delete_run
