-- ===== src/Runner/Assertion/Panics.antt =====
-- When checking a response panics.
use sentinel_api_platform.Prelude.{
  ℤ, ◌≡◌, refl, ap, ◌↔◌, inl, inr, String, true, ◌==◌, none, some, List, eq_iff, arith, Bool-cases,
  Option-cases,
}
use sentinel_api_platform.Prelude.Checked.{Checked, good, bad}
use sentinel_api_platform.Json.{Json, Std}
use sentinel_api_platform.Model.{TestCase}
use sentinel_api_platform.Runner.JsonPath.{
  PathError, parse_body, bad_brackets, bad_index, not_object, not_found, not_array, out_of_range,
  panics, json_path_lookup, split_dots, trim_root,
}
use sentinel_api_platform.Runner.JsonPath.Below.{HitsBelowZero, json_path_lookup-panics_iff}
use sentinel_api_platform.Runner.Assertion.{
  Validated, bytes, path_spec, path_result, assert_json_path, assert_body, has_body_assertion,
  body_failures, assert,
}

module _ (std : Std) (gojsonschema : String → String → Validated) (tc : TestCase)
    (body : String) where
  -- The test case names a path whose index is below zero where the body has an array.
  pub record IndexBelowZero : Type 0 where
    pub has_body : has_body_assertion std gojsonschema tc ≡ true
    pub is_path : tc.expected_body_match ≡ "jsonpath"
    pub path : String
    pub expect : Json
    pub has_spec : path_spec std (std.parse (bytes tc.expected_body_json)) ≡ some (path, expect)
    pub root : Json
    pub is_json : std.parse body ≡ some root
    pub below_zero : HitsBelowZero root (split_dots (trim_root path))

  result_panics :
      (path : String) (expect : Json) (c : Checked PathError Json)
      → path_result std path expect c ≡ none
      → c ≡ bad panics
  unfolding path_result
  result_panics path expect (good v) h = ground arith
  result_panics path expect (bad parse_body) h = ground arith
  result_panics path expect (bad bad_brackets) h = ground arith
  result_panics path expect (bad bad_index) h = ground arith
  result_panics path expect (bad not_object) h = ground arith
  result_panics path expect (bad not_found) h = ground arith
  result_panics path expect (bad not_array) h = ground arith
  result_panics path expect (bad out_of_range) h = ground arith
  result_panics path expect (bad panics) h = refl

  path_panics :
      (has_body_assertion std gojsonschema tc ≡ true)
      → tc.expected_body_match ≡ "jsonpath"
      → assert_json_path std (bytes tc.expected_body_json) body ≡ none
      → IndexBelowZero
  unfolding assert_json_path
  path_panics has e h =
      elim (Option-cases (path_spec std (std.parse (bytes tc.expected_body_json)))) [
        | inl none_there ↦ (let stuck = rw (none_there, assert_json_path) at h in ground arith)
        | inr ((path, expect), there) ↦
            let stops =
              result_panics path expect (json_path_lookup std body path)
                (rw (there, assert_json_path) at h) in
            let (root, is_json, below_zero) = (json_path_lookup-panics_iff std body path).0 stops in
            record {
              has_body = has;
              is_path = e;
              path = path;
              expect = expect;
              has_spec = there;
              root = root;
              is_json = is_json;
              below_zero = below_zero;
            }
      ]

  body_panics :
      has_body_assertion std gojsonschema tc ≡ true
      → assert_body std gojsonschema tc body ≡ none
      → IndexBelowZero
  unfolding assert_body
  body_panics has h = elim (Bool-cases (tc.expected_body_match == "exact")) [
    | inl e ↦ (let stuck = rw e at h in ground arith)
    | inr e₁ ↦ elim (Bool-cases (tc.expected_body_match == "contains")) [
      | inl e ↦ (let stuck = rw (e₁, e) at h in ground arith)
      | inr e₂ ↦ elim (Bool-cases (tc.expected_body_match == "regex")) [
        | inl e ↦ (let stuck = rw (e₁, e₂, e) at h in ground arith)
        | inr e₃ ↦ elim (Bool-cases (tc.expected_body_match == "jsonpath")) [
          | inl e ↦
              path_panics has ((eq_iff tc.expected_body_match "jsonpath").0 e)
                (rw (e₁, e₂, e₃, e) at h)
          | inr e₄ ↦ elim (Bool-cases (tc.expected_body_match == "schema")) [
            | inl e ↦ (let stuck = rw (e₁, e₂, e₃, e₄, e) at h in ground arith)
            | inr e₅ ↦ (let stuck = rw (e₁, e₂, e₃, e₄, e₅) at h in ground arith)
          ]
        ]
      ]
    ]
  ]

  panics_body : IndexBelowZero → body_failures std gojsonschema tc body ≡ none
  unfolding assert_body assert_json_path path_result
  panics_body z =
      let stops =
        (json_path_lookup-panics_iff std body z.path).1 (z.root, z.is_json, z.below_zero) in
      rw z.has_body (
        rw
          (
            ap (λ k. k == "exact") z.is_path,
            ap (λ k. k == "contains") z.is_path,
            ap (λ k. k == "regex") z.is_path,
            ap (λ k. k == "jsonpath") z.is_path,
          )
          (rw (z.has_spec, assert_json_path) (rw (stops, path_result) refl)))

  -- `Assert` ends in a run-time error exactly when the test case declares a body, its kind is
  -- "jsonpath", its spec and the body decode, and the path leads through the keys and items of the
  -- body to a part that has an index below zero at a key that holds an array.
  pub assert-panics_iff :
      (status : ℤ) (headers : List (String × List String))
      → (assert std gojsonschema tc status headers body ≡ none) ↔ IndexBelowZero
  unfolding assert
  assert-panics_iff status headers = (
    λ h. elim (Option-cases (body_failures std gojsonschema tc body)) [
      | inr (fs, e) ↦ (let stuck = rw (e, assert) at h in ground arith)
      | inl e ↦ elim (Bool-cases (has_body_assertion std gojsonschema tc)) [
        | inl has ↦ body_panics has (rw has at e)
        | inr has ↦ (let stuck = rw has at e in ground arith)
      ]
    ],
    λ z. rw (panics_body z, assert) refl,
  )
