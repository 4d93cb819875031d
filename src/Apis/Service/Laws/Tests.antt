-- ===== src/Apis/Service/Laws/Tests.antt =====
-- The theorems on the API service at a store that holds one API and counts its changes.
use sentinel_api_platform.Prelude.{
  ℕ, suc, ◌≡◌, refl, String, true, false, ◌==◌, [], if◌then◌else◌, trim_space,
}
use mathlib.Core.Path.{subst}
use sentinel_api_platform.Errs.{sentinel, not_found}
use sentinel_api_platform.Effects.{ok_injective, ok, err, Call}
use sentinel_api_platform.Model.{Api, Columns}
use sentinel_api_platform.Apis.Service.{
  ApiStore, is_editor, is_valid_method, require_editor, new_api, store_new, create, create_checked,
  update, delete,
}
use sentinel_api_platform.Apis.Service.Laws.{Stopped, IsOutsider, editor_needed, create_api_ok}

abbrev pets_api : Api
pets_api = record {
  id = "a1";
  project_id = "p1";
  name = "List pets";
  method = "GET";
  path = "/pets";
  operation_id = "";
  tags_json = "";
  request_schema_json = "";
  response_schema_json = "";
  spec_json = "";
  source = "manual";
  deprecated = false;
}

abbrev apis : ApiStore ℕ
apis = record {
  create = λ a n. (ok tt, suc n);
  find_by_id = λ id n. (if id == "a1" then ok pets_api else err (sentinel not_found), n);
  list_by_project = λ pid n. (ok [], n);
  delete = λ id n. (ok tt, suc n);
  update = λ id fields n. (ok tt, suc n);
}

-- Ann is an engineer of every project, the others are viewers.
abbrev role_of : String → String → Call ℕ String
role_of pid user n = (ok (if user == "ann" then "engineer" else "viewer"), n)

abbrev new_id : ℕ → String × ℕ
new_id n = ("a2", n)

abbrev shout : String → String
shout m = if m == "get" then "GET" else m

bob_outside : IsOutsider role_of "bob" "p1" 4
bob_outside role e = subst (λ r. is_editor r ≡ false) (ok_injective e) refl

editor_needed_example :
    ((name method path operation_id : String)
      → Stopped (create apis role_of new_id shout "bob" "p1" name method path operation_id 4) 4)
    × ((fields : Columns) → Stopped (update apis role_of new_id shout "bob" "a1" fields 4) 4)
    × Stopped (delete apis role_of new_id shout "bob" "a1" 4) 4
editor_needed_example =
    editor_needed apis role_of new_id shout "bob" "p1" 4 pets_api bob_outside refl refl

abbrev dogs_api : Api
dogs_api = record pets_api { id = "a2"; name = "List dogs"; path = "/dogs" }

create_run :
    (create apis role_of new_id shout "ann" "p1" " List dogs" "get " "/dogs" "" 4).0 ≡ ok dogs_api
unfolding create require_editor create_checked new_api store_new trim_space
create_run = refl

create_api_ok_example :
    ((role : String) × ((role_of "p1" "ann" 4).0 ≡ ok role) × (is_editor role ≡ true))
    × (dogs_api.project_id ≡ "p1")
    × ((dogs_api.name == "") ≡ false)
    × ((dogs_api.path == "") ≡ false)
    × (is_valid_method dogs_api.method ≡ true)
    × (dogs_api.source ≡ "manual")
    × ((apis.create dogs_api (new_id (role_of "p1" "ann" 4).1).1).0 ≡ ok tt)
create_api_ok_example =
    create_api_ok apis role_of new_id shout "ann" "p1" " List dogs" "get " "/dogs" "" 4 dogs_api
      create_run
