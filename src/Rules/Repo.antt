-- ===== src/Rules/Repo.antt =====
-- backend/internal/repository/mock_rule_repo.go: the rows of mock_rules.
pub mod RuleMap
pub mod Refines
use sentinel_api_platform.Prelude.{
  ℕ, suc, pos, true, String, Bool, ◌&&◌, ◌||◌, ◌==◌, List, int_lt, int_eq, str_lt, if◌then◌else◌,
}
use sentinel_api_platform.Errs.{Error}
use sentinel_api_platform.Effects.{Result, ok, err, Call, ◌>>=◌, map_err, wrap}
use sentinel_api_platform.Model.{MockRule, Api, Columns}
use sentinel_api_platform.Gorm.{Table, missing_or, row_needed}
use sentinel_api_platform.Rules.Service.{RuleStore}

abbrev pub has_id : String → MockRule → Bool
has_id id r = r.id == id

abbrev pub bump : MockRule → MockRule
bump r = record r { hit_count = suc r.hit_count }

-- The row that gorm writes for a rule that is created: a field with its zero value takes the default
-- of its tag in backend/internal/model/mock_rule.go, so that no rule is created disabled.
abbrev pub with_defaults : MockRule → MockRule
with_defaults r = record r {
  response_status = if int_eq r.response_status (pos 0) then pos 200 else r.response_status;
  priority = if int_eq r.priority (pos 0) then pos 100 else r.priority;
  enabled = true;
}

-- The row as it is read again: `column` is the text that a JSON column of MySQL gives back for one.
abbrev pub stored_rule : (String → String) → MockRule → MockRule
stored_rule column r = record (with_defaults r) {
  match_json = column r.match_json;
  response_headers_json = column r.response_headers_json;
  response_body_json = column r.response_body_json;
  extractor_json = column r.extractor_json;
}

-- `ORDER BY priority ASC, id ASC`
abbrev pub before : MockRule → MockRule → Bool
before a b = int_lt a.priority b.priority || (int_eq a.priority b.priority && str_lt a.id b.id)

-- `apply` is what gorm's `Updates` makes of a row, and `join_apis` the rules that meet a condition
-- with their API.
module _ {S : Type 0} (table : Table S MockRule) (apply : Columns → MockRule → MockRule)
    (join_apis : (MockRule → Api → Bool)
      → (MockRule → MockRule → Bool)
      → Call S (List MockRule)) where
  pub create : MockRule → Call S (Unit {0})
  create r = map_err (wrap "create mock_rule: ") (table.insert r)

  pub find_by_id : String → Call S MockRule
  find_by_id id =
      map_err (missing_or "mock_rule_repo: " "find mock_rule by id: ")
        (table.first_where (has_id id))

  pub list_by_api : String → Call S (List MockRule)
  list_by_api api_id =
      map_err (wrap "list mock_rules by api: ")
        (table.find_where (λ r. r.api_id == api_id && r.enabled) before)

  pub list_by_project : String → Call S (List MockRule)
  list_by_project pid =
      map_err (wrap "list mock_rules by project: ")
        (join_apis (λ r a. a.id == r.api_id && a.project_id == pid && r.enabled) before)

  pub increment_hit_count : String → Call S (Unit {0})
  increment_hit_count id =
      map_err (wrap "increment hit_count: ") (table.update_where (has_id id) bump)
      >>= row_needed "mock_rule_repo: "

  pub update : String → Columns → Call S (Unit {0})
  update id fields =
      map_err (wrap "update mock_rule: ") (table.update_where (has_id id) (apply fields))
      >>= row_needed "mock_rule_repo: "

  pub delete : String → Call S (Unit {0})
  delete id =
      map_err (wrap "delete mock_rule: ") (table.delete_where (has_id id))
      >>= row_needed "mock_rule_repo: "

  -- The repository as the store of the rule service.
  abbrev pub rule_store : RuleStore S
  rule_store = record {
    create = create;
    find_by_id = find_by_id;
    list_by_api = list_by_api;
    delete = delete;
    update = update;
    increment_hit_count = increment_hit_count;
  }
