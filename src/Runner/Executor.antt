-- ===== src/Runner/Executor.antt =====
-- backend/internal/runner/executor.go: sending the request of one test case.
pub mod Laws
use sentinel_api_platform.Prelude.{
  ℤ, pos, String, Bool, true, false, ◌==◌, Option, none, some, List, [], ◌∷◌, if◌then◌else◌,
  trim_left_slashes, trim_right_slashes,
}
use Prim.Native.String.{◌++◌}
use sentinel_api_platform.Json.{Json, null, str, obj, Fields, end, field, Std, lookup, set_header}
use sentinel_api_platform.Model.{TestCase}
use sentinel_api_platform.Runner.Assertion.{AssertionFailure, Validated, assert}

-- The request that is sent. A header has one value, since `Set` replaces those there are.
pub record Request : Type 0 where
  pub method : String
  pub target : String
  pub headers : List (String × String)
  pub body : Option String

-- What `client.Do` gives. The body is a reader: `io.ReadAll(io.LimitReader(body, n))` gives the
-- first bytes of it, `n` at most, or fails.
pub data Answer : Type 0 where
  not_sent : Answer
  answered : ℤ → List (String × List String) → (ℤ → Option String) → Answer

-- `1<<20`, which is 1 MB
abbrev pub body_limit : ℤ
body_limit = pos 1048576

-- `net/http`: whether `NewRequestWithContext` accepts a method and a URL, and the exchange, after
-- which the server that is tested may be in another state.
pub record Network (S : Type 0) : Type 0 where
  pub accepts : String → String → Bool
  pub exchange : Request → S → Answer × S

-- The messages of `ErrorMsg`.
pub data Problem : Type 0 where
  no_problem build_request invalid_headers execute_failed read_body persist_failed : Problem

-- `TestResult`, without its times and the attribution that a hook may add. The failures of the
-- assertions are the list that the code prints as JSON.
pub record TestResult : Type 0 where
  pub id : String
  pub run_id : String
  pub case_id : String
  pub status : String
  pub actual_status : Option ℤ
  pub actual_headers : List (String × List String)
  pub actual_body : Option String
  pub failures : List AssertionFailure
  pub problem : Problem
  pub attempt : ℤ

abbrev pub new_result : TestCase → TestResult
new_result tc = record {
  id = "";
  run_id = "";
  case_id = tc.id;
  status = "";
  actual_status = none;
  actual_headers = [];
  actual_body = none;
  failures = [];
  problem = no_problem;
  attempt = pos 1;
}

abbrev pub error_result : TestCase → Problem → TestResult
error_result tc why = record (new_result tc) { status = "error"; problem = why }

-- `strings.TrimRight(baseURL, "/") + "/" + strings.TrimLeft(tc.Path, "/")`
unfoldable pub target_of : String → TestCase → String
target_of base tc = trim_right_slashes base ++ ("/" ++ trim_left_slashes tc.path)

-- `json.Unmarshal` into a map of strings, `null` giving an empty one; then `req.Header.Set` of each
header_fields : Std → Fields → List (String × String) → Option (List (String × String))
header_fields std end hs = some hs
header_fields std (field k (str v) fs) hs = header_fields std fs (set_header std k v hs)
header_fields std (field k null fs) hs = header_fields std fs (set_header std k "" hs)
header_fields std (field k _ fs) hs = none

pub case_headers : Std → Option String → Option (List (String × String))
case_headers std none = some []
case_headers std (some text) = elim (std.parse text) [
  | some (obj fs) ↦ header_fields std fs []
  | some null ↦ some []
  | _ ↦ none
]

-- `if req.Header.Get("Content-Type") == "" { … }`
abbrev pub get_header : Std → String → List (String × String) → String
get_header std k hs = elim (lookup (std.canonical k) hs) [ none ↦ "" | some v ↦ v ]

abbrev pub with_content_type : Std → List (String × String) → List (String × String)
with_content_type std hs =
    if get_header std "Content-Type" hs == ""
    then set_header std "Content-Type" "application/json" hs
    else hs

unfoldable pub compact_json : Std → String → String
compact_json std raw = elim (std.parse raw) [ none ↦ raw | some v ↦ std.marshal v ]

abbrev pub stored_body : Std → String → Option String
stored_body std body = if body == "" then none else some (compact_json std body)

abbrev pub verdict : List AssertionFailure → String
verdict [] = "pass"
verdict (_ ∷ _) = "fail"

module _ (std : Std) (gojsonschema : String → String → Validated) {S : Type 0}
    (net : Network S) where
  -- What the part of a body that was read comes to; `none` where the assertions panic.
  unfoldable pub judge_body :
      TestCase → ℤ → List (String × List String) → String → Option TestResult
  judge_body tc status headers body = elim (assert std gojsonschema tc status headers body) [
    | none ↦ none
    | some failures ↦ some (record (new_result tc) {
      status = verdict failures;
      actual_status = some status;
      actual_headers = headers;
      actual_body = stored_body std body;
      failures = failures;
    })
  ]

  -- What an exchange comes to.
  unfoldable pub judge : TestCase → Answer → Option TestResult
  judge tc not_sent = some (error_result tc execute_failed)
  judge tc (answered status headers read) = elim (read body_limit) [
    | none ↦ some (error_result tc read_body)
    | some body ↦ judge_body tc status headers body
  ]

  pub request_of : String → TestCase → List (String × String) → Request
  request_of base tc hs = record {
    method = tc.method;
    target = target_of base tc;
    headers = with_content_type std hs;
    body = tc.body_json;
  }

  unfoldable pub execute : String → TestCase → S → Option TestResult × S
  unfolding judge judge_body request_of case_headers header_fields target_of compact_json
  execute base tc s =
      if net.accepts tc.method (target_of base tc)
      then (elim (case_headers std tc.headers_json) [
        | none ↦ (some (error_result tc invalid_headers), s)
        | some hs ↦
            let (answer, s') = net.exchange (request_of base tc hs) s in (judge tc answer, s')
      ])
      else (some (error_result tc build_request), s)
