-- ===== src/Rules/Handlers.antt =====
-- backend/internal/api/mock_rule.go: the HTTP handlers of the mock rules. Their routes name no
-- project, and the handlers give the service the empty text as one.
pub mod Laws
use sentinel_api_platform.Prelude.{ℕ, String, Bool, ◌==◌, List, if◌then◌else◌}
use sentinel_api_platform.Errs.Mapper.{fail}
use sentinel_api_platform.Effects.{Call}
use sentinel_api_platform.Model.{MockRule, Columns}
use sentinel_api_platform.Http.{Request, failed, Handler, Binder, answer, with_body}
use sentinel_api_platform.Rules.Service.{CreateRuleSpec, RuleStore}
use sentinel_api_platform.Rules.Service
use sentinel_api_platform.Apis.Service.{RoleChecker}

-- The interface `mockRuleService`: the caller, the project, then the API or the rule.
pub record MockRuleService (S : Type 0) : Type 0 where
  pub create_rule : String → String → String → CreateRuleSpec → Call S MockRule
  pub get_rule : String → Call S MockRule
  pub update_rule : String → String → String → Columns → Call S MockRule
  pub delete_rule : String → String → String → Call S (Unit {0})
  pub list_rules : String → Call S (List MockRule)
  pub record_hit : String → Call S (Unit {0})
  pub list_hits : String → Call S ℕ

-- The aliases that make `MockRuleService` of the service package one.
abbrev pub rule_service :
    {S : Type 0}
    → RuleStore S
    → RoleChecker S
    → (S → String × S)
    → (String → Bool)
    → MockRuleService S
rule_service rules role_for new_id valid = record {
  create_rule = Service.create rules role_for new_id valid;
  get_rule = Service.find_by_id rules role_for new_id valid;
  update_rule = Service.update rules role_for new_id valid;
  delete_rule = Service.delete rules role_for new_id valid;
  list_rules = Service.list_by_api rules role_for new_id valid;
  record_hit = Service.increment_hit_count rules role_for new_id valid;
  list_hits = Service.get_hit_count rules role_for new_id valid;
}

-- `driver` gives the texts of the MySQL driver's errors. The two request types of a rule, the
-- handler's and the service's, have the same fields and are one here.
module _ {S : Type 0} (svc : MockRuleService S) (driver : ℕ → String) where
  unfoldable pub create_rule : Binder CreateRuleSpec → Request → Handler S MockRule
  create_rule bind r s =
      if r.query "api_id" == ""
      then (failed (fail 400 40000 "api_id is required"), s)
      else with_body driver bind r
          (λ spec. answer driver (svc.create_rule r.user_id "" (r.query "api_id") spec)) s

  unfoldable pub get_rule : Request → Handler S MockRule
  get_rule r = answer driver (svc.get_rule (r.param "rid"))

  unfoldable pub update_rule : Binder Columns → Request → Handler S MockRule
  update_rule bind r =
      with_body driver bind r
        (λ fields. answer driver (svc.update_rule r.user_id "" (r.param "rid") fields))

  unfoldable pub delete_rule : Request → Handler S (Unit {0})
  delete_rule r = answer driver (svc.delete_rule r.user_id "" (r.param "rid"))

  unfoldable pub list_rules : Request → Handler S (List MockRule)
  list_rules r = answer driver (svc.list_rules (r.param "apiId"))

  unfoldable pub record_hit : Request → Handler S (Unit {0})
  record_hit r = answer driver (svc.record_hit (r.param "rid"))

  unfoldable pub list_hits : Request → Handler S ℕ
  list_hits r = answer driver (svc.list_hits (r.param "rid"))
