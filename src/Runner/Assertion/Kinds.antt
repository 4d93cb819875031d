-- ===== src/Runner/Assertion/Kinds.antt =====
-- What each kind of body match asks for, in backend/internal/runner/assertion.go.
use sentinel_api_platform.Prelude.{
  ◌≡◌, refl, ap, ◌⊎◌, inl, inr, String, Bool, true, false, ◌==◌, some, List, [], ◌∷◌, is_infix,
  eq_iff, arith, Bool-cases, Option-cases,
}
use sentinel_api_platform.Prelude.Checked.{Checked, good, bad}
use sentinel_api_platform.Json.{Json, Std, matches}
use sentinel_api_platform.Model.{TestCase}
use sentinel_api_platform.Runner.JsonPath.{
  PathError, parse_body, bad_brackets, bad_index, not_object, not_found, not_array, out_of_range,
  panics, json_path_lookup,
}
use sentinel_api_platform.Runner.Assertion.{
  Message, Validated, cannot_validate, found, unless, bytes, path_spec, path_result, json_equal,
  assert_json_path, assert_json_schema, assert_regex, pattern_of, assert_body,
}

Validated-cases :
    (r : Validated)
    → (r ≡ cannot_validate)
      ⊎ (r ≡ found [])
      ⊎ ((w : String) × (ws : List String) × (r ≡ found (w ∷ ws)))
Validated-cases cannot_validate = inl refl
Validated-cases (found []) = inr (inl refl)
Validated-cases (found (w ∷ ws)) = inr (inr (w, ws, refl))

module _ (std : Std) where
  module _ (gojsonschema : String → String → Validated) (tc : TestCase) (body : String) where
    -- What each kind of body match asks for.
    pub data BodyMatches : Type 0 where
      exact :
          tc.expected_body_match ≡ "exact"
          → json_equal std (bytes tc.expected_body_json) body ≡ true
          → BodyMatches
      contains :
          tc.expected_body_match ≡ "contains"
          → is_infix (bytes tc.expected_body_json) body ≡ true
          → BodyMatches
      regex :
          tc.expected_body_match ≡ "regex"
          → std.compiles (pattern_of std gojsonschema tc) ≡ true
          → matches std (pattern_of std gojsonschema tc) body ≡ true
          → BodyMatches
      jsonpath :
          tc.expected_body_match ≡ "jsonpath"
          → (path : String) → (expect v : Json)
          → path_spec std (std.parse (bytes tc.expected_body_json)) ≡ some (path, expect)
          → json_path_lookup std body path ≡ good v
          → std.marshal expect ≡ std.marshal v
          → BodyMatches
      schema :
          tc.expected_body_match ≡ "schema"
          → gojsonschema (bytes tc.expected_body_json) body ≡ found []
          → BodyMatches

    is_kind : (k j : String) → tc.expected_body_match ≡ k → (tc.expected_body_match == j) ≡ (k == j)
    is_kind k j e = ap (λ x. x == j) e

    path_of :
        (path : String) (expect v : Json)
        → path_spec std (std.parse (bytes tc.expected_body_json)) ≡ some (path, expect)
        → json_path_lookup std body path ≡ good v
        → std.marshal expect ≡ std.marshal v
        → assert_json_path std (bytes tc.expected_body_json) body ≡ some []
    unfolding assert_json_path path_result
    path_of path expect v p l m =
        rw (p, assert_json_path)
          (rw (l, path_result) (rw ((eq_iff (std.marshal expect) (std.marshal v)).1 m) refl))

    pub body_of : BodyMatches → assert_body std gojsonschema tc body ≡ some []
    unfolding assert_body assert_regex assert_json_schema
    body_of (exact e h) = rw (is_kind "exact" "exact" e, h) refl
    body_of (contains e h) =
        rw (is_kind "contains" "exact" e, is_kind "contains" "contains" e, h) refl
    body_of (regex e c m) =
        rw
          (is_kind "regex" "exact" e, is_kind "regex" "contains" e, is_kind "regex" "regex" e, c, m)
          refl
    body_of (jsonpath e path expect v p l m) =
        rw
          (
            is_kind "jsonpath" "exact" e,
            is_kind "jsonpath" "contains" e,
            is_kind "jsonpath" "regex" e,
            is_kind "jsonpath" "jsonpath" e,
            path_of path expect v p l m,
          )
          refl
    body_of (schema e h) =
        rw
          (
            is_kind "schema" "exact" e,
            is_kind "schema" "contains" e,
            is_kind "schema" "regex" e,
            is_kind "schema" "jsonpath" e,
            is_kind "schema" "schema" e,
          )
          (rw (h, assert_json_schema) refl)

    unless_passes :
        (b : Bool) (kind : String) (m : Message) → some (unless b kind m) ≡ some [] → b ≡ true
    unless_passes true kind m h = refl
    unless_passes false kind m h = ground arith

    regex_passes :
        (pattern : String)
        → some (assert_regex std gojsonschema pattern body) ≡ some []
        → (std.compiles pattern ≡ true) × (matches std pattern body ≡ true)
    unfolding assert_regex
    regex_passes pattern h = elim (Bool-cases (std.compiles pattern)) [
      | inl e ↦ (e, unless_passes (matches std pattern body) "body.regex" _ (rw e at h))
      | inr e ↦ ground arith
    ]

    result_passes :
        (path : String) (expect : Json) (c : Checked PathError Json)
        → path_result std path expect c ≡ some []
        → (v : Json) × (c ≡ good v) × (std.marshal expect ≡ std.marshal v)
    unfolding path_result
    result_passes path expect (good v) h = (
      v,
      refl,
      (eq_iff (std.marshal expect) (std.marshal v)).0
          (unless_passes (std.marshal expect == std.marshal v) "body.jsonpath" _ h),
    )
    result_passes path expect (bad e) h = elim e [
      | parse_body ↦ ground arith
      | bad_brackets ↦ ground arith
      | bad_index ↦ ground arith
      | not_object ↦ ground arith
      | not_found ↦ ground arith
      | not_array ↦ ground arith
      | out_of_range ↦ ground arith
      | panics ↦ ground arith
    ]

    path_passes :
        assert_json_path std (bytes tc.expected_body_json) body ≡ some []
        → (path : String) × (expect v : Json) × (path_spec std
              (std.parse (bytes tc.expected_body_json))
            ≡ some (path, expect))
          × (json_path_lookup std body path ≡ good v)
          × (std.marshal expect ≡ std.marshal v)
    unfolding assert_json_path
    path_passes h = elim (Option-cases (path_spec std (std.parse (bytes tc.expected_body_json)))) [
      | inl e ↦ (let stuck = rw (e, assert_json_path) at h in ground arith)
      | inr ((path, expect), e) ↦
          let (v, looked_up, same) =
            result_passes path expect (json_path_lookup std body path)
              (rw (e, assert_json_path) at h) in
          (path, expect, v, e, looked_up, same)
    ]

    schema_passes :
        some (assert_json_schema std gojsonschema (bytes tc.expected_body_json) body) ≡ some []
        → gojsonschema (bytes tc.expected_body_json) body ≡ found []
    unfolding assert_json_schema
    schema_passes h = elim (Validated-cases (gojsonschema (bytes tc.expected_body_json) body)) [
      | inl e ↦ (let stuck = rw (e, assert_json_schema) at h in ground arith)
      | inr (inl e) ↦ e
      | inr (inr (w, ws, e)) ↦ (let stuck = rw (e, assert_json_schema) at h in ground arith)
    ]

    pub body_from : assert_body std gojsonschema tc body ≡ some [] → BodyMatches
    unfolding assert_body
    body_from h = elim (Bool-cases (tc.expected_body_match == "exact")) [
      | inl e ↦ exact ((eq_iff tc.expected_body_match "exact").0 e) (
          unless_passes (json_equal std (bytes tc.expected_body_json) body) "body.exact" _
            (rw e at h))
      | inr e₁ ↦ elim (Bool-cases (tc.expected_body_match == "contains")) [
        | inl e ↦ contains ((eq_iff tc.expected_body_match "contains").0 e) (
            unless_passes (is_infix (bytes tc.expected_body_json) body) "body.contains" _
              (rw (e₁, e) at h))
        | inr e₂ ↦ elim (Bool-cases (tc.expected_body_match == "regex")) [
          | inl e ↦
              let (c, m) = regex_passes (pattern_of std gojsonschema tc) (rw (e₁, e₂, e) at h) in
              regex ((eq_iff tc.expected_body_match "regex").0 e) c m
          | inr e₃ ↦ elim (Bool-cases (tc.expected_body_match == "jsonpath")) [
            | inl e ↦
                let (path, expect, v, p, l, m) = path_passes (rw (e₁, e₂, e₃, e) at h) in
                jsonpath ((eq_iff tc.expected_body_match "jsonpath").0 e) path expect v p l m
            | inr e₄ ↦ elim (Bool-cases (tc.expected_body_match == "schema")) [
              | inl e ↦
                  schema ((eq_iff tc.expected_body_match "schema").0 e)
                    (schema_passes (rw (e₁, e₂, e₃, e₄, e) at h))
              | inr e₅ ↦ (let stuck = rw (e₁, e₂, e₃, e₄, e₅) at h in ground arith)
            ]
          ]
        ]
      ]
    ]
