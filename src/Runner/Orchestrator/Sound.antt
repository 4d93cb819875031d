-- ===== src/Runner/Orchestrator/Sound.antt =====
-- The executor's results have statuses that the run counts.
use sentinel_api_platform.Prelude.{
  ℤ, ◌≡◌, refl, ap, inl, inr, String, Option, some, List, [], ◌∷◌, arith, Bool-cases, Option-cases,
}
use mathlib.Core.Path.{subst}
use sentinel_api_platform.Json.{Std}
use sentinel_api_platform.Model.{TestCase}
use sentinel_api_platform.Runner.Assertion.{AssertionFailure, Validated, assert}
use sentinel_api_platform.Runner.Executor.{
  Answer, not_sent, answered, body_limit, Network, TestResult, verdict, target_of, case_headers,
  judge, judge_body, request_of, execute,
}
use sentinel_api_platform.Runner.Orchestrator.Counts.{IsCounted, is_pass, is_fail, is_error}

AllCounted : Option TestResult → Type 0
AllCounted o = (r : TestResult) → o ≡ some r → IsCounted r.status

counted_at : (q : TestResult) → IsCounted q.status → AllCounted (some q)
unfolding AllCounted
counted_at q c r h = let same : q ≡ r = ground arith in subst IsCounted (ap (λ x. x.status) same) c

verdict-IsCounted : (fs : List AssertionFailure) → IsCounted (verdict fs)
verdict-IsCounted [] = is_pass refl
verdict-IsCounted (f ∷ fs) = is_fail refl

module _ (std : Std) (gojsonschema : String → String → Validated) {S : Type 0}
    (net : Network S) where
  judge_body-counted :
      (tc : TestCase) (n : ℤ) (hs : List (String × List String)) (body : String)
      → AllCounted (judge_body std gojsonschema net tc n hs body)
  unfolding judge_body AllCounted
  judge_body-counted tc n hs body = elim (Option-cases (assert std gojsonschema tc n hs body)) [
    | inl e ↦ rw (e, judge_body) (λ r h. ground arith)
    | inr (fs, e) ↦ rw (e, judge_body) (counted_at _ (verdict-IsCounted fs))
  ]

  judge_counted : (tc : TestCase) (a : Answer) → AllCounted (judge std gojsonschema net tc a)
  unfolding judge AllCounted
  judge_counted tc not_sent = counted_at _ (is_error refl)
  judge_counted tc (answered n hs read) = elim (Option-cases (read body_limit)) [
    | inl e ↦ rw (e, judge) (counted_at _ (is_error refl))
    | inr (body, e) ↦ rw (e, judge) (judge_body-counted tc n hs body)
  ]

  -- Every result of a test case that is executed has the status "pass", "fail" or "error", which a
  -- run counts.
  pub execute-IsCounted :
      (base : String) (tc : TestCase) (s : S) (r : TestResult)
      → (execute std gojsonschema net base tc s).0 ≡ some r
      → IsCounted r.status
  unfolding execute AllCounted
  execute-IsCounted base tc s r h = elim (Bool-cases (net.accepts tc.method (target_of base tc))) [
    | inr e ↦ counted_at _ (is_error refl) r (rw (e, execute) at h)
    | inl e ↦ elim (Option-cases (case_headers std tc.headers_json)) [
      | inl e₂ ↦ counted_at _ (is_error refl) r (rw (e, execute, e₂) at h)
      | inr (hs, e₂) ↦
          judge_counted tc (net.exchange (request_of std gojsonschema net base tc hs) s).0 r
            (rw (e, execute, e₂) at h)
    ]
  ]
