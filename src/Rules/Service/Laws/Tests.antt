-- ===== src/Rules/Service/Laws/Tests.antt =====
-- The theorems on the rule service at a store that counts its changes.
use sentinel_api_platform.Prelude.{
  ℕ, suc, pos, ◌≡◌, refl, String, Bool, true, false, ◌==◌, [], if◌then◌else◌, trim_space,
}
use mathlib.Core.Path.{subst}
use sentinel_api_platform.Errs.{sentinel, not_found}
use sentinel_api_platform.Effects.{ok_injective, ok, err, Call}
use sentinel_api_platform.Model.{MockRule}
use sentinel_api_platform.Apis.Service.{is_editor, require_editor}
use sentinel_api_platform.Apis.Service.Laws.{IsOutsider}
use sentinel_api_platform.Rules.Service.{
  RuleStore, CreateRuleSpec, new_rule, store_new, create, create_checked,
}

abbrev rules : RuleStore ℕ
rules = record {
  create = λ r n. (ok tt, suc n);
  find_by_id = λ id n. (err (sentinel not_found), n);
  list_by_api = λ id n. (ok [], n);
  delete = λ id n. (ok tt, suc n);
  update = λ id fields n. (ok tt, suc n);
  increment_hit_count = λ id n. (ok tt, suc n);
}

abbrev role_of : String → String → Call ℕ String
role_of pid user n = (ok (if user == "ann" then "admin" else ""), n)

abbrev new_id : ℕ → String × ℕ
new_id n = ("r1", suc n)

abbrev is_object : String → Bool
is_object s = s == "{}"

abbrev asked : CreateRuleSpec
asked = record {
  name = " any pet ";
  match_json = "{}";
  response_status = pos 0;
  response_headers = "";
  response_body = "[]";
  extractor_json = "";
  priority = pos 0;
  delay_ms = pos 0;
}

abbrev made : MockRule
made = record {
  id = "r1";
  api_id = "a1";
  name = "any pet";
  match_json = "{}";
  response_status = pos 200;
  response_headers_json = "";
  response_body_json = "[]";
  extractor_json = "";
  priority = pos 100;
  delay_ms = pos 0;
  enabled = true;
  hit_count = 0;
}

bob_outside : IsOutsider role_of "bob" "p1" 4
bob_outside role e = subst (λ r. is_editor r ≡ false) (ok_injective e) refl

create_run : (create rules role_of new_id is_object "ann" "p1" "a1" asked 4).0 ≡ ok made
unfolding create require_editor create_checked new_rule store_new trim_space
create_run = refl
