-- ===== src/Ai/Service.antt =====
-- backend/internal/service/ai_service.go, with the three functions of
-- backend/internal/ai/attributor.go, completer.go and prioritizer.go.
pub mod Laws
use sentinel_api_platform.Prelude.{
  ℕ, ℤ, String, Bool, true, false, not, ◌&&◌, ◌||◌, ◌==◌, Option, none, some, List, [], ◌∷◌, keep,
  if◌then◌else◌,
}
use Prim.Native.String.{◌++◌}
use sentinel_api_platform.Errs.{Error, sentinel, wrapped, forbidden}
use sentinel_api_platform.Effects.{
  Result, ok, err, Call, pure, guard, ◌>>=◌, ◌>>◌, map_err, wrap, is_ok,
}
use sentinel_api_platform.Model.{Api, TestCase}
use sentinel_api_platform.Apis.Service.{RoleChecker, is_editor}
use sentinel_api_platform.Ai.Types.{Message, ProviderResponse}
use sentinel_api_platform.Ai.Guard.{daily_usage, monthly_usage}
use sentinel_api_platform.Ai.Engine.{Engine, call}

-- The confidence, a float64, is kept by its text.
pub record AttributionResult : Type 0 where
  pub analysis : String
  pub root_cause : String
  pub confidence : String
  pub suggested_fix : String

pub record GeneratedCase : Type 0 where
  pub name : String
  pub method : String
  pub path : String
  pub expected_status : ℤ
  pub expected_body_match : String
  pub expected_body_pattern : String

pub record PriorityItem : Type 0 where
  pub case_id : String
  pub priority : String
  pub reasoning : String

-- The prompts, which are files, and `encoding/json` on the rows and on the three kinds of answer.
pub record Formats : Type 0 where
  pub prompt_attribution : String
  pub prompt_completion : String
  pub prompt_prioritization : String
  pub marshal_apis : List Api → Result String
  pub marshal_cases : List TestCase → Result String
  pub read_attribution : String → Result AttributionResult
  pub read_cases : String → Result (List GeneratedCase)
  pub read_priorities : String → Result (List PriorityItem)

abbrev pub returned : {S A : Type 0} → Result A → Call S A
returned r s = (r, s)

abbrev user_message : String → List Message
user_message content = record { role = "user"; content = content } ∷ []

-- The first API with the id, alone; all where no id is given.
pub first_api : String → List Api → List Api
first_api id [] = []
first_api id (a ∷ apis) = let rest = first_api id apis in if a.id == id then a ∷ [] else rest

pub chosen_apis : Option String → List Api → List Api
chosen_apis none apis = apis
chosen_apis (some id) apis = first_api id apis

pub holds_id : List String → String → Bool
holds_id [] id = false
holds_id (i ∷ ids) id = i == id || holds_id ids id

-- The cases whose id is in the list; all where the list is empty.
pub chosen_cases : List String → List TestCase → List TestCase
chosen_cases [] cases = cases
chosen_cases (i ∷ ids) cases = keep (λ c. holds_id (i ∷ ids) c.id) cases

module _ {S : Type 0} (e : Engine S) (formats : Formats) where
  pub run_attribution : String → Call S AttributionResult
  run_attribution result_json = do
    resp ←
        call e "attribution" formats.prompt_attribution
          (user_message ("Test result:\n" ++ result_json))
    map_err (wrap "parse attribution response: ") (returned (formats.read_attribution resp.content))

  pub completion_content : String → String → String
  completion_content apis cases =
      if not (cases == "") && not (cases == "[]")
      then "API specifications:\n" ++ (apis ++ ("\n\nExisting test cases:\n" ++ cases))
      else "API specifications:\n" ++ apis

  pub run_completion : String → String → Call S (List GeneratedCase)
  run_completion apis cases = do
    resp ←
        call e "completion" formats.prompt_completion (user_message (completion_content apis cases))
    map_err (wrap "parse completion response: ") (returned (formats.read_cases resp.content))

  pub run_prioritization : String → Call S (List PriorityItem)
  run_prioritization cases = do
    resp ←
        call e "prioritization" formats.prompt_prioritization
          (user_message ("Test cases:\n" ++ cases))
    map_err (wrap "parse prioritization response: ")
        (returned (formats.read_priorities resp.content))

  -- `list_apis` and `list_cases` are the `ListByProject` of the two stores.
  module _ (role_for : RoleChecker S) (list_apis : String → Call S (List Api))
      (list_cases : String → Call S (List TestCase)) where
    -- Any error of the lookup of the role is a refusal.
    pub require_caller : {A : Type 0} → String → String → Call S A → Call S A
    require_caller caller pid k = do
      role ← map_err (λ _. sentinel forbidden) (role_for pid caller)
      guard (is_editor role) (sentinel forbidden)
      k

    unfoldable pub attribute : String → String → String → Call S AttributionResult
    attribute caller pid result_json = require_caller caller pid (run_attribution result_json)

    pub complete_checked : String → Option String → Call S (List GeneratedCase)
    complete_checked pid api_id = do
      apis ← map_err (wrap "list apis: ") (list_apis pid)
      api_json ←
          map_err (wrap "marshal apis: ")
            (returned (formats.marshal_apis (chosen_apis api_id apis)))
      cases ← map_err (wrap "list existing cases: ") (list_cases pid)
      case_json ← map_err (wrap "marshal cases: ") (returned (formats.marshal_cases cases))
      run_completion api_json case_json

    unfoldable pub complete : String → String → Option String → Call S (List GeneratedCase)
    complete caller pid api_id = require_caller caller pid (complete_checked pid api_id)

    pub prioritize_checked : String → List String → Call S (List PriorityItem)
    prioritize_checked pid ids = do
      cases ← map_err (wrap "list cases: ") (list_cases pid)
      case_json ←
          map_err (wrap "marshal cases: ")
            (returned (formats.marshal_cases (chosen_cases ids cases)))
      run_prioritization case_json

    unfoldable pub prioritize : String → String → List String → Call S (List PriorityItem)
    prioritize caller pid ids = require_caller caller pid (prioritize_checked pid ids)

-- `Budget`: a sum that cannot be read is shown as zero.
abbrev or_zero : Result ℕ → ℕ
or_zero (ok n) = n
or_zero (err _) = 0

pub record Budget : Type 0 where
  pub daily_used : ℕ
  pub daily_limit : ℕ
  pub monthly_used : ℕ
  pub monthly_limit : ℕ

pub budget : {S : Type 0} → Engine S → S → Budget × S
budget e s =
    let (daily, s₁) = daily_usage e.budget s in
    let (monthly, s₂) = monthly_usage e.budget s₁ in
    (
      record {
        daily_used = or_zero daily;
        daily_limit = e.budget.daily_limit;
        monthly_used = or_zero monthly;
        monthly_limit = e.budget.monthly_limit;
      },
      s₂,
    )
