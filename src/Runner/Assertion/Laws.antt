-- ===== src/Runner/Assertion/Laws.antt =====
-- Which responses pass a test case, and when checking one panics.
use sentinel_api_platform.Prelude.{
  some_injective, ℤ, pos, ◌≡◌, refl, sym, ap, ◌∙◌, ◌↔◌, inl, inr, String, true, some, List, [],
  ◌++◌, int_lt, int_eq, arith, All, Bool-cases, Option-cases,
}
use mathlib.Core.Bool.{false≢true}
use sentinel_api_platform.Json.{Json, Std}
use sentinel_api_platform.Model.{TestCase}
use sentinel_api_platform.Runner.Assertion.{
  Validated, assertion_rules, assert_advanced, status_failures, has_body_assertion, body_failures,
  advanced_failures, assert,
}
use sentinel_api_platform.Runner.Assertion.Rules.{append_nil_iff, RulePasses, rules_iff}
use sentinel_api_platform.Runner.Assertion.Kinds.{BodyMatches, body_of, body_from}

module _ (std : Std) (gojsonschema : String → String → Validated) (tc : TestCase)
    (body : String) where
  -- What a test case asks of a response.
  pub record Passes (status : ℤ) (headers : List (String × List String)) : Type 0 where
    pub same_status :
        int_lt (pos 0) tc.expected_status ≡ true → int_eq status tc.expected_status ≡ true
    pub body_matches :
        has_body_assertion std gojsonschema tc ≡ true → BodyMatches std gojsonschema tc body
    pub rules_pass :
        (raw : String)
        → tc.assertions_json ≡ some raw
        → (rules : List (List (String × Json))) × (assertion_rules (std.parse raw) ≡ some rules)
          × All (RulePasses std status headers) rules

  status_iff :
      (status : ℤ)
      → (status_failures std gojsonschema tc status ≡ [])
        ↔ (int_lt (pos 0) tc.expected_status ≡ true → int_eq status tc.expected_status ≡ true)
  status_iff status = (
    λ h. λ e. elim (Bool-cases (int_eq status tc.expected_status)) [
      | inl same ↦ same
      | inr e₂ ↦ (let stuck = rw (e, e₂) at h in ground arith)
    ],
    λ f. elim (Bool-cases (int_lt (pos 0) tc.expected_status)) [
      | inl e ↦ rw (e, f e) refl
      | inr e ↦ rw e refl
    ],
  )

  body_iff :
      (body_failures std gojsonschema tc body ≡ some [])
      ↔ (has_body_assertion std gojsonschema tc ≡ true → BodyMatches std gojsonschema tc body)
  body_iff = elim (Bool-cases (has_body_assertion std gojsonschema tc)) [
    | inl e ↦ (
      λ h. λ _. body_from std gojsonschema tc body (rw e at h),
      λ f. rw e (body_of std gojsonschema tc body (f e)),
    )
    | inr e ↦ (λ h. λ e'. (absurd (false≢true (sym e ∙ e'))), λ f. rw e refl)
  ]

  advanced_at :
      (raw : String) (status : ℤ) (headers : List (String × List String))
      → (assert_advanced std raw status headers ≡ []) ↔ (
          (rules : List (List (String × Json))) × (assertion_rules (std.parse raw) ≡ some rules)
          × All (RulePasses std status headers) rules)
  unfolding assert_advanced
  advanced_at raw status headers = (
    λ h. elim (Option-cases (assertion_rules (std.parse raw))) [
      | inl e ↦ (let stuck = rw (e, assert_advanced) at h in ground arith)
      | inr (rules, e) ↦
          (rules, e, (rules_iff std status headers rules).0 (rw (e, assert_advanced) at h))
    ],
    λ h.
        let (rules, e, all) = h in
        rw (e, assert_advanced) ((rules_iff std status headers rules).1 all),
  )

  advanced_iff :
      (status : ℤ) (headers : List (String × List String))
      → (advanced_failures std gojsonschema tc status headers ≡ []) ↔ (
          (raw : String)
          → tc.assertions_json ≡ some raw
          → (rules : List (List (String × Json))) × (assertion_rules (std.parse raw) ≡ some rules)
            × All (RulePasses std status headers) rules)
  advanced_iff status headers = (
    λ h. λ raw e. (advanced_at raw status headers).0 (rw e at h),
    λ f. elim (Option-cases tc.assertions_json) [
      | inl e ↦ rw e refl
      | inr (raw, e) ↦ rw e ((advanced_at raw status headers).1 (f raw e))
    ],
  )

  -- A response passes a test case exactly when its status is the expected one if one above 0 is
  -- declared, its body matches in the declared way if a body is declared, and every rule of
  -- `assertions_json` is satisfied, a text that is no array of rules being a failure.
  pub assert-Passes_iff :
      (status : ℤ) (headers : List (String × List String))
      → (assert std gojsonschema tc status headers body ≡ some []) ↔ Passes status headers
  unfolding assert
  assert-Passes_iff status headers =
      let st = status_iff status in
      let adv = advanced_iff status headers in
      (
        λ h. elim (Option-cases (body_failures std gojsonschema tc body)) [
          | inl e ↦ (let stuck = rw (e, assert) at h in ground arith)
          | inr (fs, e) ↦
              let none_left : status_failures std gojsonschema tc status
                    ++ (fs ++ advanced_failures std gojsonschema tc status headers)
                  ≡ [] =
                some_injective (rw (e, assert) at h) in
              let (a, rest) =
                (append_nil_iff (status_failures std gojsonschema tc status)
                    (fs ++ advanced_failures std gojsonschema tc status headers)).0
                  none_left in
              let (b, c) =
                (append_nil_iff fs (advanced_failures std gojsonschema tc status headers)).0 rest in
              record {
                same_status = st.0 a;
                body_matches = body_iff.0 (e ∙ ap some b);
                rules_pass = adv.0 c;
              }
        ],
        λ p.
            rw (body_iff.1 p.body_matches, assert)
              (rw (st.1 p.same_status, adv.1 p.rules_pass) refl),
      )
