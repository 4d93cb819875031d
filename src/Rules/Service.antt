-- ===== src/Rules/Service.antt =====
-- backend/internal/service/mock_rule_service.go: the mock rules, over the store and the role of the
-- caller in the project that the handler names.
pub mod Laws
use sentinel_api_platform.Prelude.{
  ℕ, ℤ, pos, String, Bool, true, not, ◌==◌, List, trim_space, int_eq, if◌then◌else◌,
}
use sentinel_api_platform.Errs.{
  Error, Sentinel, sentinel, wrapped, is, not_found, bad_request, conflict,
}
use sentinel_api_platform.Effects.{
  Result, ok, err, Call, pure, guard, draw, ◌>>=◌, ◌>>◌, map_err, sentinel_or, wrap,
}
use sentinel_api_platform.Model.{MockRule, Columns}
use sentinel_api_platform.Apis.Service.{RoleChecker, require_editor}

-- The interface `mockRuleStore`.
pub record RuleStore (S : Type 0) : Type 0 where
  pub create : MockRule → Call S (Unit {0})
  pub find_by_id : String → Call S MockRule
  pub list_by_api : String → Call S (List MockRule)
  pub delete : String → Call S (Unit {0})
  pub update : String → Columns → Call S (Unit {0})
  pub increment_hit_count : String → Call S (Unit {0})

pub record CreateRuleSpec : Type 0 where
  pub name : String
  pub match_json : String
  pub response_status : ℤ
  pub response_headers : String
  pub response_body : String
  pub extractor_json : String
  pub priority : ℤ
  pub delay_ms : ℤ

-- `if n == 0 { n = default }`
abbrev pub or_default : ℤ → ℤ → ℤ
or_default n default = if int_eq n (pos 0) then default else n

-- `new_id` is `id.New`, and `valid` is `json.Valid`.
module _ {S : Type 0} (rules : RuleStore S) (role_for : RoleChecker S) (new_id : S → String × S)
    (valid : String → Bool) where
  pub new_rule : String → String → CreateRuleSpec → MockRule
  new_rule id api_id spec = record {
    id = id;
    api_id = api_id;
    name = trim_space spec.name;
    match_json = spec.match_json;
    response_status = or_default spec.response_status (pos 200);
    response_headers_json = spec.response_headers;
    response_body_json = spec.response_body;
    extractor_json = spec.extractor_json;
    priority = or_default spec.priority (pos 100);
    delay_ms = spec.delay_ms;
    enabled = true;
    hit_count = 0;
  }

  pub store_new : MockRule → Call S MockRule
  store_new r = do map_err (sentinel_or conflict "create mock_rule: ") (rules.create r); pure r

  -- what follows the check of the caller
  pub create_checked : String → CreateRuleSpec → Call S MockRule
  create_checked api_id spec = do
    guard (not (trim_space spec.name == ""))
        (wrapped "" (sentinel bad_request) ": name is required")
    guard (not (spec.match_json == ""))
        (wrapped "" (sentinel bad_request) ": match_json is required")
    guard (valid spec.match_json)
        (wrapped "" (sentinel bad_request) ": match_json is not valid JSON")
    id ← draw new_id
    store_new (new_rule id api_id spec)

  unfoldable pub create : String → String → String → CreateRuleSpec → Call S MockRule
  create caller pid api_id spec = require_editor role_for caller pid (create_checked api_id spec)

  unfoldable pub find_by_id : String → Call S MockRule
  find_by_id id = map_err (sentinel_or not_found "find mock_rule: ") (rules.find_by_id id)

  unfoldable pub list_by_api : String → Call S (List MockRule)
  list_by_api api_id = map_err (wrap "list mock_rules: ") (rules.list_by_api api_id)

  pub update_checked : String → Columns → Call S MockRule
  update_checked id fields = do
    map_err (sentinel_or not_found "update mock_rule: ") (rules.update id fields)
    find_by_id id

  unfoldable pub update : String → String → String → Columns → Call S MockRule
  update caller pid id fields = require_editor role_for caller pid (update_checked id fields)

  unfoldable pub increment_hit_count : String → Call S (Unit {0})
  increment_hit_count id = map_err (wrap "increment hit count: ") (rules.increment_hit_count id)

  pub delete_checked : String → Call S (Unit {0})
  delete_checked id = map_err (sentinel_or not_found "delete mock_rule: ") (rules.delete id)

  unfoldable pub delete : String → String → String → Call S (Unit {0})
  delete caller pid id = require_editor role_for caller pid (delete_checked id)

  unfoldable pub get_hit_count : String → Call S ℕ
  get_hit_count id = do
    r ← map_err (sentinel_or not_found "get hit count: ") (rules.find_by_id id)
    pure r.hit_count
