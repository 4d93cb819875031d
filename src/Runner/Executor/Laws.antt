-- ===== src/Runner/Executor/Laws.antt =====
-- What a test case's result says of the exchange, and what every request carries.
mod Tests
use sentinel_api_platform.Prelude.{
  some_injective, ℤ, ◌≡◌, ◌≢◌, refl, sym, ap, ◌∙◌, ◌↔◌, ◌⊎◌, inl, inr, String, Bool, true, false,
  ◌==◌, eq_iff, Option, none, some, List, [], ◌∷◌, Bool-cases, Option-cases, arith, if◌then◌else◌,
  eq_refl,
}
use mathlib.Core.Bool.{false≢true}
use sentinel_api_platform.Json.{Std, set_header, lookup}
use sentinel_api_platform.Model.{TestCase}
use sentinel_api_platform.Runner.Assertion.{AssertionFailure, Validated, assert}
use sentinel_api_platform.Runner.Executor.{
  Request, Answer, not_sent, answered, body_limit, Network, TestResult, Problem, execute_failed,
  read_body, invalid_headers, build_request, error_result, new_result, verdict, stored_body,
  target_of, case_headers, get_header, with_content_type, judge, judge_body, request_of, execute,
}

-- A header that has been set is there.
lookup-set_header :
    (std : Std) (k v : String) (hs : List (String × String))
    → lookup (std.canonical k) (set_header std k v hs) ≡ some v
lookup-set_header std k v [] = rw (eq_refl (std.canonical k)) refl
lookup-set_header std k v ((j, w) ∷ hs) = elim (Bool-cases (j == std.canonical k)) [
  | inl e ↦ rw (e, e) refl
  | inr e ↦ rw (e, e) (lookup-set_header std k v hs)
]

text_differs : (s t : String) → (s == t) ≡ false → ¬ (s ≡ t)
text_differs s t e h = false≢true (sym e ∙ (eq_iff s t).1 h)

module _ (std : Std) (gojsonschema : String → String → Validated) {S : Type 0}
    (net : Network S) where
  -- Every request that is sent has a Content-Type that is not empty.
  pub request-content_type :
      (base : String) (tc : TestCase) (hs : List (String × String))
      → (get_header std "Content-Type" (request_of std gojsonschema net base tc hs).headers == "")
        ≡ false
  unfolding request_of
  request-content_type base tc hs = elim (Bool-cases (get_header std "Content-Type" hs == "")) [
    | inl e ↦
        rw e (rw (lookup-set_header std "Content-Type" "application/json" hs, get_header) refl)
    | inr e ↦ rw e e
  ]

  -- The request was accepted, the headers decode, an answer came whose body could be read up to the
  -- limit, and nothing failed in what was read of it: the rest of a longer body plays no part.
  pub record Passed (base : String) (tc : TestCase) (s : S) : Type 0 where
    pub accepted : net.accepts tc.method (target_of base tc) ≡ true
    pub headers : List (String × String)
    pub decoded : case_headers std tc.headers_json ≡ some headers
    pub status : ℤ
    pub answer_headers : List (String × List String)
    pub read : ℤ → Option String
    pub answer :
        (net.exchange (request_of std gojsonschema net base tc headers) s).0
        ≡ answered status answer_headers read
    pub body : String
    pub was_read : read body_limit ≡ some body
    pub holds : assert std gojsonschema tc status answer_headers body ≡ some []

  abbrev pub HasPass : Option TestResult → Type 0
  HasPass o = (r : TestResult) × (o ≡ some r) × (r.status ≡ "pass")

  no_error : (tc : TestCase) (why : Problem) → ¬ HasPass (some (error_result tc why))
  no_error tc why h =
      let (r, e, p) = h in
      text_differs "error" "pass" refl (ap (λ q. q.status) (some_injective e) ∙ p)

  verdict_passes : (fs : List AssertionFailure) → verdict fs ≡ "pass" → fs ≡ []
  verdict_passes [] h = refl
  verdict_passes (f ∷ fs) h = absurd (text_differs "fail" "pass" refl h)

  judge_body-passes :
      (tc : TestCase) (n : ℤ) (hs : List (String × List String)) (body : String)
      → HasPass (judge_body std gojsonschema net tc n hs body)
      → assert std gojsonschema tc n hs body ≡ some []
  unfolding judge_body
  judge_body-passes tc n hs body (r, found, p) =
      elim (Option-cases (assert std gojsonschema tc n hs body)) [
        | inl e ↦ (let stuck = rw (e, judge_body) at found in ground arith)
        | inr (fs, e) ↦
            let same = ap (λ q. q.status) (some_injective (rw (e, judge_body) at found)) in
            e ∙ ap some (verdict_passes fs (same ∙ p))
      ]

  -- What an answer has that passes.
  abbrev pub PassedAnswer : TestCase → Answer → Type 0
  PassedAnswer tc a =
      (n : ℤ) × (hs : List (String × List String)) × (read : ℤ → Option String) × (a
        ≡ answered n hs read)
      × (body : String) × (read body_limit ≡ some body)
      × (assert std gojsonschema tc n hs body ≡ some [])

  judge_passes :
      (tc : TestCase) (a : Answer) → HasPass (judge std gojsonschema net tc a) → PassedAnswer tc a
  unfolding judge
  judge_passes tc not_sent h = absurd (no_error tc execute_failed h)
  judge_passes tc (answered n hs read) h = elim (Option-cases (read body_limit)) [
    | inl e ↦ absurd (no_error tc read_body (rw (e, judge) at h))
    | inr (body, e) ↦
        (n, hs, read, refl, body, e, judge_body-passes tc n hs body (rw (e, judge) at h))
  ]

  abbrev passed_result : TestCase → ℤ → List (String × List String) → String → TestResult
  passed_result tc n hs body = record (new_result tc) {
    status = "pass";
    actual_status = some n;
    actual_headers = hs;
    actual_body = stored_body std body;
  }

  judge_of :
      (tc : TestCase) (n : ℤ) (hs : List (String × List String)) (read : ℤ → Option String)
      (body : String)
      → read body_limit ≡ some body
      → assert std gojsonschema tc n hs body ≡ some []
      → judge std gojsonschema net tc (answered n hs read) ≡ some (passed_result tc n hs body)
  unfolding judge judge_body
  judge_of tc n hs read body e holds = rw (e, judge) (rw (holds, judge_body) refl)

  -- A test case's result is "pass" exactly when its request could be built, its headers decode, an
  -- answer came whose body could be read up to 1 MB, and the assertions on what was read found
  -- nothing.
  pub execute-pass_iff :
      (base : String) (tc : TestCase) (s : S)
      → HasPass (execute std gojsonschema net base tc s).0 ↔ Passed base tc s
  unfolding execute
  execute-pass_iff base tc s = (
    λ h. elim (Bool-cases (net.accepts tc.method (target_of base tc))) [
      | inr e ↦ absurd (no_error tc build_request (rw (e, execute) at h))
      | inl e ↦ elim (Option-cases (case_headers std tc.headers_json)) [
        | inl e₂ ↦ absurd (no_error tc invalid_headers (rw (e, execute, e₂) at h))
        | inr (hs, e₂) ↦
            let (n, rhs, read, a, body, was_read, ok) =
              judge_passes tc (net.exchange (request_of std gojsonschema net base tc hs) s).0
                (rw (e, execute, e₂) at h) in
            record {
              accepted = e;
              headers = hs;
              decoded = e₂;
              status = n;
              answer_headers = rhs;
              read = read;
              answer = a;
              body = body;
              was_read = was_read;
              holds = ok;
            }
      ]
    ],
    λ p.
        let rest : (judge std gojsonschema net tc (answered p.status p.answer_headers p.read))
            ≡ some (passed_result tc p.status p.answer_headers p.body) =
          judge_of tc p.status p.answer_headers p.read p.body p.was_read p.holds in
        (
          passed_result tc p.status p.answer_headers p.body,
          rw (p.accepted, execute) (rw p.decoded (rw p.answer rest)),
          refl,
        ),
  )
