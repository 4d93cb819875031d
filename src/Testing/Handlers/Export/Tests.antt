-- ===== src/Testing/Handlers/Export/Tests.antt =====
-- An export of a run without results.
use sentinel_api_platform.Prelude.{ℕ, ℤ, ◌≡◌, refl, false, ◌==◌, String, List, []}
use sentinel_api_platform.Effects.{ok, Call}
use sentinel_api_platform.Json.Toy.{toy}
use sentinel_api_platform.Http.{Request}
use sentinel_api_platform.Runner.Executor.{TestResult}
use sentinel_api_platform.Testing.Handlers.Export.{export_run, export_run-sent, json}

abbrev no_results : String → Call ℕ (List TestResult)
no_results id n = (ok [], n)

abbrev driver : ℕ → String
driver n = ""

abbrev itoa : ℤ → String
itoa n = "0"

abbrev as_json : Request
as_json = record { user_id = "ann"; param = λ _. "t1"; query = λ _. "json"; body = "" }

export_run-sent_example :
    (results : List TestResult) × ((no_results "t1" 0).0 ≡ ok results)
    × (json [] ≡ json results)
    × ((as_json.query "format" == "csv") ≡ false)
unfolding export_run
export_run-sent_example = export_run-sent toy itoa no_results driver as_json 0 (json []) refl
