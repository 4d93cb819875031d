-- ===== src/Runner/Assertion/Tests.antt =====
-- The theorems on `assert` at concrete test cases.
use sentinel_api_platform.Prelude.{pos, ◌≡◌, refl, ◌↔◌, String, none, some, []}
use sentinel_api_platform.Json.Toy.{toy}
use sentinel_api_platform.Model.{TestCase}
use sentinel_api_platform.Runner.JsonPath.{json_path_lookup}
use sentinel_api_platform.Runner.Assertion.{Validated, found, assert}
use sentinel_api_platform.Runner.Assertion.Laws.{Passes, assert-Passes_iff}
use sentinel_api_platform.Runner.Assertion.Panics.{IndexBelowZero, assert-panics_iff}

abbrev valid : String → String → Validated
valid schema body = found []

abbrev case_of : String → String → TestCase
case_of kind expected = record {
  id = "c1";
  project_id = "p1";
  method = "GET";
  path = "/pets";
  headers_json = none;
  body_json = none;
  expected_status = pos 200;
  expected_body_json = some expected;
  expected_body_match = kind;
  expected_body_pattern = "";
  assertions_json = some "status=200";
}

run : Unit {0}
unfolding assert json_path_lookup
run = tt

exact_run : assert toy valid (case_of "exact" "7") (pos 200) [] "7" ≡ some []
unfolding run
exact_run = refl

assert-Passes_iff_example :
    (assert toy valid (case_of "exact" "7") (pos 200) [] "7" ≡ some [])
    ↔ Passes toy valid (case_of "exact" "7") "7" (pos 200) []
assert-Passes_iff_example = assert-Passes_iff toy valid (case_of "exact" "7") "7" (pos 200) []

panic_run : assert toy valid (case_of "jsonpath" "path=a[-1]") (pos 200) [] "a=list" ≡ none
unfolding run
panic_run = refl

assert-panics_iff_example :
    (assert toy valid (case_of "jsonpath" "path=a[-1]") (pos 200) [] "a=list" ≡ none)
    ↔ IndexBelowZero toy valid (case_of "jsonpath" "path=a[-1]") "a=list"
assert-panics_iff_example =
    assert-panics_iff toy valid (case_of "jsonpath" "path=a[-1]") "a=list" (pos 200) []
