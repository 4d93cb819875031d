-- ===== src/Apis/Repo.antt =====
-- backend/internal/repository/api_repo.go: the rows of apis.
pub mod Laws
use sentinel_api_platform.Prelude.{ℕ, String, Bool, false, ◌==◌, List, if◌then◌else◌}
use sentinel_api_platform.Errs.{Error}
use sentinel_api_platform.Effects.{Result, ok, err, Call, pure, ◌>>=◌, ◌>>◌, map_err, wrap}
use sentinel_api_platform.Model.{Api, Columns}
use sentinel_api_platform.Gorm.{Table, missing_or, row_needed}
use sentinel_api_platform.Apis.Service.{ApiStore}

abbrev pub has_id : String → Api → Bool
has_id id a = a.id == id

-- `find_where` is given no order here: the query has none.
abbrev pub unordered : Api → Api → Bool
unordered a b = false

-- `apply` is what gorm's `Updates` makes of a row.
module _ {S : Type 0} (table : Table S Api) (apply : Columns → Api → Api) where
  pub create : Api → Call S (Unit {0})
  create a = map_err (wrap "create api: ") (table.insert a)

  unfoldable pub find_by_id : String → Call S Api
  find_by_id id =
      map_err (missing_or "api_repo: " "find api by id: ") (table.first_where (has_id id))

  pub list_by_project : String → Call S (List Api)
  list_by_project pid =
      map_err (wrap "list apis by project: ")
        (table.find_where (λ a. a.project_id == pid) unordered)

  -- The number of the rows is not looked at.
  unfoldable pub delete : String → Call S (Unit {0})
  delete id = map_err (wrap "delete api: ") (table.delete_where (has_id id)) >> pure tt

  pub update : String → Columns → Call S (Unit {0})
  update id fields =
      map_err (wrap "update api: ") (table.update_where (has_id id) (apply fields))
      >>= row_needed "api_repo: "

  -- The repository as the store of the API service.
  abbrev pub api_store : ApiStore S
  api_store = record {
    create = create;
    find_by_id = find_by_id;
    list_by_project = list_by_project;
    delete = delete;
    update = update;
  }
