-- ===== src/Rules/Handlers/Laws/Tests.antt =====
-- A project's owner and a request to the routes of the mock rules.
use sentinel_api_platform.Prelude.{pos, ℕ, suc, refl, String, Bool, true, ◌==◌, [], if◌then◌else◌}
use sentinel_api_platform.Errs.{sentinel, not_found}
use sentinel_api_platform.Effects.{ok, err}
use sentinel_api_platform.Model.{Project, Columns}
use sentinel_api_platform.Http.{Request, Binder}
use sentinel_api_platform.Projects.Service.{ProjectStore, MemberStore, role_for}
use sentinel_api_platform.Rules.Service.{RuleStore, CreateRuleSpec}
use sentinel_api_platform.Rules.Handlers.{rule_service, create_rule, update_rule, delete_rule}
use sentinel_api_platform.Rules.Handlers.Laws.{NotFound, rule_routes_refuse}

abbrev pets : Project
pets = record { id = "p1"; name = "Pets"; slug = "pets"; owner_id = "ann"; description = "" }

abbrev projects : ProjectStore ℕ
projects = record {
  create = λ p n. (ok tt, suc n);
  find_by_id = λ id n. (if id == "p1" then ok pets else err (sentinel not_found), n);
  find_by_slug = λ slug n. (err (sentinel not_found), n);
  list_by_owner = λ owner n. (ok [], n);
  update = λ p n. (ok tt, suc n);
  delete = λ id n. (ok tt, suc n);
}

abbrev members : MemberStore ℕ
members = record {
  add = λ m n. (ok tt, suc n);
  list_by_project = λ pid n. (ok [], n);
  find = λ pid user n. (err (sentinel not_found), n);
}

abbrev rules : RuleStore ℕ
rules = record {
  create = λ r n. (ok tt, suc n);
  find_by_id = λ id n. (err (sentinel not_found), n);
  list_by_api = λ id n. (ok [], n);
  delete = λ id n. (ok tt, suc n);
  update = λ id fields n. (ok tt, suc n);
  increment_hit_count = λ id n. (ok tt, suc n);
}

abbrev new_id : ℕ → String × ℕ
new_id n = ("r1", suc n)

abbrev is_json : String → Bool
is_json s = true

abbrev driver : ℕ → String
driver n = ""

abbrev by_ann : Request
by_ann = record { user_id = "ann"; param = λ _. "r1"; query = λ _. "a1"; body = "" }

abbrev asked : CreateRuleSpec
asked = record {
  name = "any";
  match_json = "{}";
  response_status = pos 0;
  response_headers = "";
  response_body = "";
  extractor_json = "";
  priority = pos 0;
  delay_ms = pos 0;
}

abbrev read_spec : Binder CreateRuleSpec
read_spec body = ok asked

abbrev read_fields : Binder Columns
read_fields body = ok []

rule_routes_refuse_example :
    let svc = rule_service rules (role_for projects members) new_id is_json in
    NotFound (create_rule svc driver read_spec by_ann 7) 7
    × NotFound (update_rule svc driver read_fields by_ann 7) 7
    × NotFound (delete_rule svc driver by_ann 7) 7
rule_routes_refuse_example =
    rule_routes_refuse projects members rules new_id is_json driver by_ann 7 (sentinel not_found)
      read_spec asked read_fields [] refl refl refl refl refl
