-- ===== src/Apis/Service.antt =====
-- backend/internal/service/api_service.go: the APIs of a project, over the store and the role of
-- the caller in the project.
pub mod Laws
use sentinel_api_platform.Prelude.{
  String, Bool, false, not, ◌&&◌, ◌||◌, ◌==◌, List, trim_space, if◌then◌else◌,
}
use sentinel_api_platform.Errs.{
  Error, Sentinel, sentinel, wrapped, is, not_found, bad_request, forbidden, conflict,
}
use sentinel_api_platform.Effects.{
  Result, ok, err, Call, pure, guard, draw, ◌>>=◌, ◌>>◌, map_err, sentinel_or, wrap,
}
use sentinel_api_platform.Model.{Api, Columns}

-- The interface `apiStore`.
pub record ApiStore (S : Type 0) : Type 0 where
  pub create : Api → Call S (Unit {0})
  pub find_by_id : String → Call S Api
  pub list_by_project : String → Call S (List Api)
  pub delete : String → Call S (Unit {0})
  pub update : String → Columns → Call S (Unit {0})

-- The interface `projectRoleChecker`: the project, then the user.
abbrev pub RoleChecker : Type 0 → Type 0
RoleChecker S = String → String → Call S String

abbrev pub is_valid_method : String → Bool
is_valid_method m =
    m == "GET"
    || m == "POST"
    || m == "PUT"
    || m == "PATCH"
    || m == "DELETE"
    || m == "HEAD"
    || m == "OPTIONS"

-- `role == ProjectRoleAdmin || role == ProjectRoleEngineer`
abbrev pub is_editor : String → Bool
is_editor role = role == "admin" || role == "engineer"

-- The check of the caller that the services of a project share.
unfoldable pub require_editor :
    {S A : Type 0} → RoleChecker S → String → String → Call S A → Call S A
require_editor role_for caller pid k = do
  role ← role_for pid caller
  guard (is_editor role) (sentinel forbidden)
  k

-- `new_id` is `id.New`, and `to_upper` is `strings.ToUpper`.
module _ {S : Type 0} (apis : ApiStore S) (role_for : RoleChecker S) (new_id : S → String × S)
    (to_upper : String → String) where
  pub new_api : String → String → String → String → String → String → Api
  new_api id pid name method path operation_id = record {
    id = id;
    project_id = pid;
    name = trim_space name;
    method = to_upper (trim_space method);
    path = trim_space path;
    operation_id = trim_space operation_id;
    tags_json = "";
    request_schema_json = "";
    response_schema_json = "";
    spec_json = "";
    source = "manual";
    deprecated = false;
  }

  pub store_new : Api → Call S Api
  store_new a = do map_err (sentinel_or conflict "create api: ") (apis.create a); pure a

  -- what follows the check of the caller
  pub create_checked : String → String → String → String → String → Call S Api
  create_checked pid name method path operation_id = do
    guard (not (trim_space name == "") && not (trim_space path == ""))
        (wrapped "" (sentinel bad_request) ": name and path are required")
    guard (is_valid_method (to_upper (trim_space method))) (
        wrapped "" (sentinel bad_request)
          (": method must be GET/POST/PUT/PATCH/DELETE/HEAD/OPTIONS"))
    id ← draw new_id
    store_new (new_api id pid name method path operation_id)

  unfoldable pub create : String → String → String → String → String → String → Call S Api
  create caller pid name method path operation_id =
      require_editor role_for caller pid (create_checked pid name method path operation_id)

  unfoldable pub find_by_id : String → Call S Api
  find_by_id id = map_err (sentinel_or not_found "find api: ") (apis.find_by_id id)

  unfoldable pub list_by_project : String → Call S (List Api)
  list_by_project pid = map_err (wrap "list apis: ") (apis.list_by_project pid)

  unfoldable pub delete : String → String → Call S (Unit {0})
  delete caller id = do
    a ← map_err (sentinel_or not_found "find api for delete: ") (apis.find_by_id id)
    role ← role_for a.project_id caller
    guard (role == "admin") (sentinel forbidden)
    map_err (wrap "delete api: ") (apis.delete id)

  -- what follows the check of the caller; the row that is read again is returned with no context
  pub update_checked : String → Columns → Call S Api
  update_checked id fields = do
    map_err (sentinel_or not_found "update api: ") (apis.update id fields)
    apis.find_by_id id

  unfoldable pub update : String → String → Columns → Call S Api
  update caller id fields = do
    a ← map_err (sentinel_or not_found "find api for update: ") (apis.find_by_id id)
    require_editor role_for caller a.project_id (update_checked id fields)
