-- ===== src/Ai/Service/Laws.antt =====
-- Who may make the AI service call a provider.
mod Tests
use sentinel_api_platform.Prelude.{
  ◌≡◌, refl, ap, ◌∙◌, inl, inr, String, Bool, true, false, Option, List,
}
use sentinel_api_platform.Errs.{Error, sentinel, forbidden}
use sentinel_api_platform.Effects.{
  Result, ok, err, Call, guard, ◌>>=◌, ◌>>◌, map_err, Result-cases, map_err-state,
}
use sentinel_api_platform.Model.{Api, TestCase}
use sentinel_api_platform.Apis.Service.{RoleChecker, is_editor}
use sentinel_api_platform.Apis.Service.Laws.{IsOutsider}
use sentinel_api_platform.Ai.Engine.{Engine}
use sentinel_api_platform.Ai.Service.{
  Formats, require_caller, attribute, complete, prioritize, run_attribution, complete_checked,
  prioritize_checked,
}

module _ {S : Type 0} (e : Engine S) (formats : Formats) (role_for : RoleChecker S)
    (list_apis : String → Call S (List Api)) (list_cases : String → Call S (List TestCase)) where
  require_caller-refused :
      {A : Type 0} (caller pid : String) (k : Call S A) (s : S)
      → IsOutsider role_for caller pid s
      → require_caller e formats role_for list_apis list_cases caller pid k s
        ≡ (err (sentinel forbidden), (role_for pid caller s).1)
  unfolding require_caller
  require_caller-refused caller pid k s h =
      let context = λ (_ : Error). sentinel forbidden in
      let same =
        ap (λ t. (err (sentinel forbidden), t)) (map_err-state context (role_for pid caller) s) in
      elim (Result-cases (role_for pid caller s).0) [
        | inr (why, e₁) ↦ rw (e₁, ◌>>=◌, map_err) same
        | inl (role, e₁) ↦ rw (e₁, ◌>>=◌, map_err) (rw (h role e₁) same)
      ]

  -- A caller who is neither admin nor engineer of the project, or whose role cannot be looked up,
  -- is answered with ErrForbidden by the three functions, and nothing is called but the lookup of
  -- the role: no provider, no cache and no store.
  pub outsider_forbidden :
      (caller pid : String) (s : S)
      → IsOutsider role_for caller pid s
      → ((result_json : String)
          → attribute e formats role_for list_apis list_cases caller pid result_json s
            ≡ (err (sentinel forbidden), (role_for pid caller s).1))
        × ((api_id : Option String)
            → complete e formats role_for list_apis list_cases caller pid api_id s
              ≡ (err (sentinel forbidden), (role_for pid caller s).1))
        × ((ids : List String)
            → prioritize e formats role_for list_apis list_cases caller pid ids s
              ≡ (err (sentinel forbidden), (role_for pid caller s).1))
  unfolding attribute complete prioritize
  outsider_forbidden caller pid s h = (
    λ result_json. require_caller-refused caller pid (run_attribution e formats result_json) s h,
    λ api_id.
        require_caller-refused caller pid
          (complete_checked e formats role_for list_apis list_cases pid api_id) s h,
    λ ids.
        require_caller-refused caller pid
          (prioritize_checked e formats role_for list_apis list_cases pid ids) s h,
  )
