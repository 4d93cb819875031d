-- ===== src/Ai/Handlers.antt =====
-- backend/internal/api/ai.go: the HTTP handlers of the AI features, over the service.
use sentinel_api_platform.Prelude.{ℕ, String, Option, List}
use sentinel_api_platform.Effects.{Call}
use sentinel_api_platform.Model.{Api, TestCase}
use sentinel_api_platform.Http.{Request, sent, Handler, Binder, answer, with_body}
use sentinel_api_platform.Apis.Service.{RoleChecker}
use sentinel_api_platform.Ai.Engine.{Engine}
use sentinel_api_platform.Ai.Service.{
  Formats, AttributionResult, GeneratedCase, PriorityItem, Budget, attribute, complete, prioritize,
  budget,
}

module _ {S : Type 0} (e : Engine S) (formats : Formats) (role_for : RoleChecker S)
    (list_apis : String → Call S (List Api)) (list_cases : String → Call S (List TestCase))
    (driver : ℕ → String) where
  unfoldable pub attribute_failure : Binder String → Request → Handler S AttributionResult
  attribute_failure bind r = with_body driver bind r (λ result_json.
      answer driver
        (attribute e formats role_for list_apis list_cases r.user_id (r.param "pid") result_json))

  unfoldable pub complete_cases : Binder (Option String) → Request → Handler S (List GeneratedCase)
  complete_cases bind r = with_body driver bind r (λ api_id.
      answer driver
        (complete e formats role_for list_apis list_cases r.user_id (r.param "pid") api_id))

  unfoldable pub prioritize_cases : Binder (List String) → Request → Handler S (List PriorityItem)
  prioritize_cases bind r = with_body driver bind r (λ case_ids.
      answer driver
        (prioritize e formats role_for list_apis list_cases r.user_id (r.param "pid") case_ids))

  unfoldable pub show_budget : Request → Handler S Budget
  show_budget r s = let (b, s') = budget e s in (sent b, s')
