-- ===== src/Ai/Service/Laws/Tests.antt =====
-- The AI service at a project whose only engineer is Ann.
use sentinel_api_platform.Prelude.{
  ℕ, suc, ◌≡◌, refl, String, false, ◌==◌, Option, none, List, [], pos, if◌then◌else◌,
}
use mathlib.Core.Path.{subst}
use sentinel_api_platform.Errs.{sentinel, forbidden, other}
use sentinel_api_platform.Effects.{ok_injective, ok, err, Call}
use sentinel_api_platform.Model.{Api, TestCase}
use sentinel_api_platform.Apis.Service.{is_editor}
use sentinel_api_platform.Apis.Service.Laws.{IsOutsider}
use sentinel_api_platform.Ai.Types.{noop_provider}
use sentinel_api_platform.Ai.Engine.{Engine}
use sentinel_api_platform.Ai.Service.{Formats, attribute, complete, prioritize}
use sentinel_api_platform.Ai.Service.Laws.{outsider_forbidden}

abbrev engine : Engine ℕ
engine = record {
  provider = noop_provider;
  cache = none;
  budget = record {
    store = record {
      record_usage = λ m n. (ok tt, suc n);
      get_daily_usage = λ n. (ok 0, n);
      get_monthly_usage = λ n. (ok 0, n);
    };
    daily_limit = 5000;
    monthly_limit = 9000;
  };
  max_tokens = pos 256;
  temperature = "0.20";
  new_id = λ n. ("u1", n);
}

abbrev formats : Formats
formats = record {
  prompt_attribution = "why";
  prompt_completion = "what";
  prompt_prioritization = "which";
  marshal_apis = λ apis. ok "[]";
  marshal_cases = λ cases. ok "[]";
  read_attribution = λ s. err (other "no JSON");
  read_cases = λ s. ok [];
  read_priorities = λ s. ok [];
}

abbrev role_of : String → String → Call ℕ String
role_of pid user n = (ok (if user == "ann" then "engineer" else "viewer"), suc n)

abbrev no_apis : String → Call ℕ (List Api)
no_apis pid n = (ok [], n)

abbrev no_cases : String → Call ℕ (List TestCase)
no_cases pid n = (ok [], n)

bob_outside : IsOutsider role_of "bob" "p1" 3
bob_outside role e = subst (λ r. is_editor r ≡ false) (ok_injective e) refl

outsider_forbidden_example :
    ((result_json : String)
      → attribute engine formats role_of no_apis no_cases "bob" "p1" result_json 3
        ≡ (err (sentinel forbidden), 4))
    × ((api_id : Option String)
        → complete engine formats role_of no_apis no_cases "bob" "p1" api_id 3
          ≡ (err (sentinel forbidden), 4))
    × ((ids : List String)
        → prioritize engine formats role_of no_apis no_cases "bob" "p1" ids 3
          ≡ (err (sentinel forbidden), 4))
outsider_forbidden_example =
    outsider_forbidden engine formats role_of no_apis no_cases "bob" "p1" 3 bob_outside
