-- ===== src/Apis/Handlers.antt =====
-- backend/internal/api/api.go: the HTTP handlers of the APIs, over the service. The import of an
-- OpenAPI document is in Apis/Handlers/Import.
pub mod Tags
pub mod Import
pub mod Laws
use sentinel_api_platform.Prelude.{
  ℕ, String, Bool, ◌==◌, Option, none, some, List, [], ◌∷◌, ◌++◌, if◌then◌else◌,
}
use sentinel_api_platform.Effects.{Call, ◌>>=◌}
use sentinel_api_platform.Model.{Api, Value, text, flag, bytes, Columns}
use sentinel_api_platform.Http.{Request, Handler, Binder, answer, with_user, with_body}
use sentinel_api_platform.Apis.Service.{ApiStore, RoleChecker}
use sentinel_api_platform.Apis.Service
use Tags.{append_unique, remove_tag, decode_tags}

-- The interface `apiService`; the caller stands first, where a method is given one.
pub record ApiService (S : Type 0) : Type 0 where
  pub create : String → String → String → String → String → String → Call S Api
  pub list_by_project : String → Call S (List Api)
  pub find_by_id : String → Call S Api
  pub update : String → String → Columns → Call S Api
  pub delete : String → String → Call S (Unit {0})

-- The service as backend/cmd/server/main.go makes it.
abbrev pub api_service :
    {S : Type 0} → ApiStore S → RoleChecker S → (S → String × S) → (String → String) → ApiService S
api_service apis role_for new_id to_upper = record {
  create = Service.create apis role_for new_id to_upper;
  list_by_project = Service.list_by_project apis role_for new_id to_upper;
  find_by_id = Service.find_by_id apis role_for new_id to_upper;
  update = Service.update apis role_for new_id to_upper;
  delete = Service.delete apis role_for new_id to_upper;
}

pub record CreateApiRequest : Type 0 where
  pub name : String
  pub method : String
  pub path : String
  pub operation_id : String

pub record UpdateApiRequest : Type 0 where
  pub name : String
  pub method : String
  pub path : String
  pub operation_id : String
  pub deprecated : Option Bool

-- `if v != "" { fields[key] = v }`
abbrev pub text_column : String → String → Columns
text_column key v = if v == "" then [] else (key, text v) ∷ []

abbrev pub flag_column : String → Option Bool → Columns
flag_column key none = []
flag_column key (some b) = (key, flag b) ∷ []

pub update_fields : UpdateApiRequest → Columns
update_fields q =
    text_column "name" q.name
    ++ (text_column "method" q.method
        ++ (text_column "path" q.path
            ++ (text_column "operation_id" q.operation_id
                ++ flag_column "deprecated" q.deprecated)))

-- `driver` gives the texts of the MySQL driver's errors; the binders are gin's. `unmarshal` is the
-- list that `json.Unmarshal` leaves of a tags column, and `encode_tags` is `json.Marshal`.
module _ {S : Type 0} (svc : ApiService S) (driver : ℕ → String) (unmarshal : String → List String)
    (encode_tags : List String → String) where
  unfoldable pub create_api : Binder CreateApiRequest → Request → Handler S Api
  create_api bind r = with_user r (λ caller. with_body driver bind r (λ q.
      answer driver (svc.create caller (r.param "pid") q.name q.method q.path q.operation_id)))

  unfoldable pub list_apis : Request → Handler S (List Api)
  list_apis r = with_user r (λ _. answer driver (svc.list_by_project (r.param "pid")))

  unfoldable pub get_api : Request → Handler S Api
  get_api r = with_user r (λ _. answer driver (svc.find_by_id (r.param "apiId")))

  unfoldable pub update_api : Binder UpdateApiRequest → Request → Handler S Api
  update_api bind r = with_user r (λ caller.
      with_body driver bind r
        (λ q. answer driver (svc.update caller (r.param "apiId") (update_fields q))))

  unfoldable pub delete_api : Request → Handler S (Unit {0})
  delete_api r = with_user r (λ caller. answer driver (svc.delete caller (r.param "apiId")))

  -- The tags are read, changed and written back.
  pub change_tags : (List String → List String) → String → String → Call S Api
  change_tags change caller id = do
    a ← svc.find_by_id id
    svc.update caller id
        (("tags_json", bytes (encode_tags (change (decode_tags unmarshal a.tags_json)))) ∷ [])

  unfoldable pub add_tag : Binder String → Request → Handler S Api
  add_tag bind r = with_user r (λ caller. with_body driver bind r (λ tag.
      answer driver (change_tags (λ tags. append_unique tags tag) caller (r.param "apiId"))))

  unfoldable pub delete_tag : Request → Handler S Api
  delete_tag r = with_user r (λ caller.
      answer driver
        (change_tags (λ tags. remove_tag tags (r.param "tag")) caller (r.param "apiId")))
