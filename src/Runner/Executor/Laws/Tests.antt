-- ===== src/Runner/Executor/Laws/Tests.antt =====
-- The theorems on `execute` at a concrete test case, against a server that counts its requests.
use sentinel_api_platform.Prelude.{ℕ, suc, pos, ◌≡◌, refl, ◌↔◌, String, true, none, some, []}
use sentinel_api_platform.Json.Toy.{toy}
use sentinel_api_platform.Model.{TestCase}
use sentinel_api_platform.Runner.Assertion.{Validated, found}
use sentinel_api_platform.Runner.Executor.{Network, answered, execute}
use sentinel_api_platform.Runner.Executor.Laws.{HasPass, Passed, execute-pass_iff}

abbrev valid : String → String → Validated
valid schema body = found []

abbrev server : Network ℕ
server = record {
  accepts = λ method target. true;
  exchange = λ request n. (answered (pos 200) [] (λ limit. some "7"), suc n);
}

abbrev pet_case : TestCase
pet_case = record {
  id = "c1";
  project_id = "p1";
  method = "GET";
  path = "/pets";
  headers_json = some "{}";
  body_json = none;
  expected_status = pos 200;
  expected_body_json = some "7";
  expected_body_match = "exact";
  expected_body_pattern = "";
  assertions_json = some "status=200";
}

execute_run : (execute toy valid server "http://pets/" pet_case 4).1 ≡ 5
unfolding execute
execute_run = refl

execute-pass_iff_example :
    HasPass toy valid server (execute toy valid server "http://pets/" pet_case 4).0
    ↔ Passed toy valid server "http://pets/" pet_case 4
execute-pass_iff_example = execute-pass_iff toy valid server "http://pets/" pet_case 4
