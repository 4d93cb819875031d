-- ===== src/Runner/Assertion.antt =====
-- backend/internal/runner/assertion.go: checking a response against what a test case declares.
-- A run that ends in Go's run-time error is `none`: a lookup with an index below zero panics.
pub mod Rules
pub mod Kinds
pub mod Laws
pub mod Panics
mod Tests
use sentinel_api_platform.Prelude.{
  ℕ, ℤ, pos, String, Bool, true, false, not, ◌&&◌, ◌||◌, ◌==◌, Option, none, some, List, [], ◌∷◌,
  ◌++◌, int_lt, int_eq, is_infix, if◌then◌else◌,
}
use sentinel_api_platform.Prelude.Checked.{Checked, good, bad}
use sentinel_api_platform.Json.{
  Json, null, num, str, arr, obj, Items, nil, cons, entries, lookup, equal_fold, Std, matches,
}
use sentinel_api_platform.Model.{TestCase}
use sentinel_api_platform.Mock.Matcher.{string_field}
use sentinel_api_platform.Runner.JsonPath.{PathError, panics, json_path_lookup}

-- The messages, by the format of each and its arguments; texts of third-party errors are left out.
pub data Message : Type 0 where
  expected_got : ℤ → ℤ → Message
  not_exact not_contained bad_regex no_match bad_assertions bad_spec schema_error : Message
  path_error : PathError → Message
  path_differs : String → String → String → Message
  schema_invalid : List String → Message
  unknown_match : String → Message
  header_differs : String → String → List String → Message

-- `AssertionFailure`
pub record AssertionFailure : Type 0 where
  pub kind : String
  pub message : Message

-- What `gojsonschema.Validate` returns: an error, or the errors found, none where it is valid.
pub data Validated : Type 0 where
  cannot_validate : Validated
  found : List String → Validated

abbrev failure : String → Message → List AssertionFailure
failure kind message = record { kind = kind; message = message } ∷ []

abbrev pub unless : Bool → String → Message → List AssertionFailure
unless true kind message = []
unless false kind message = failure kind message

-- The bytes of a column, a nil slice being empty.
abbrev pub bytes : Option String → String
bytes none = ""
bytes (some s) = s

abbrev is_some : Option String → Bool
is_some none = false
is_some (some _) = true

-- The `any` field of a struct decoded by `json.Unmarshal`: the last entry with the field's key up
-- to case, nil where there is none.
any_field : String → Json → List (String × Json) → Json
any_field key v [] = v
any_field key v ((k, w) ∷ m) = any_field key (if equal_fold k key then w else v) m

-- `json.Unmarshal` into the slice of maps; `null` gives a nil map and a nil slice
rule_items : Items → Option (List (List (String × Json)))
rule_items nil = some []
rule_items (cons (obj fs) vs) = elim (rule_items vs) [
  | none ↦ none
  | some rs ↦ some (entries fs ∷ rs)
]
rule_items (cons null vs) = elim (rule_items vs) [ none ↦ none | some rs ↦ some ([] ∷ rs) ]
rule_items (cons _ vs) = none

pub assertion_rules : Option Json → Option (List (List (String × Json)))
assertion_rules (some (arr vs)) = rule_items vs
assertion_rules (some null) = some []
assertion_rules _ = none

-- `rule[key].(string)`, empty where it is not one
abbrev pub string_at : String → List (String × Json) → String
string_at key m = elim (lookup key m) [ some (str s) ↦ s | _ ↦ "" ]

abbrev pub values_of : String → List (String × List String) → List String
values_of name [] = []
values_of name ((k, vs) ∷ m) = if equal_fold k name then vs else values_of name m

abbrev pub member : String → List String → Bool
member x [] = false
member x (y ∷ ys) = y == x || member x ys

module _ (std : Std) where
  -- `int(toFloat(rule["expect"]))`
  abbrev pub expected_int : List (String × Json) → ℤ
  expected_int m = elim (lookup "expect" m) [ some (num n) ↦ std.truncate n | _ ↦ pos 0 ]

  -- one round of the loop of `assertAdvanced`
  pub assert_rule : ℤ → List (String × List String) → List (String × Json) → List AssertionFailure
  assert_rule status headers rule =
      if string_at "type" rule == "status"
      then unless (int_eq (expected_int rule) status) "status"
          (expected_got (expected_int rule) status)
      else if string_at "type" rule == "header"
      then (let vals = values_of (string_at "name" rule) headers in
          unless (member (string_at "expect" rule) vals) "header"
            (header_differs (string_at "name" rule) (string_at "expect" rule) vals))
      else []

  pub assert_rules :
      ℤ → List (String × List String) → List (List (String × Json)) → List AssertionFailure
  assert_rules status headers [] = []
  assert_rules status headers (r ∷ rs) =
      assert_rule status headers r ++ assert_rules status headers rs

  pub assert_advanced : String → ℤ → List (String × List String) → List AssertionFailure
  assert_advanced raw status headers = elim (assertion_rules (std.parse raw)) [
    | none ↦ failure "assertions.parse" bad_assertions
    | some rules ↦ assert_rules status headers rules
  ]

  pub json_equal : String → String → Bool
  json_equal a b = elim (std.parse a) [
    | none ↦ false
    | some ja ↦ elim (std.parse b) [ none ↦ false | some jb ↦ std.marshal ja == std.marshal jb ]
  ]

  -- `json.Unmarshal` into the struct of `assertJSONPath`
  pub path_spec : Option Json → Option (String × Json)
  path_spec (some (obj fs)) = elim (string_field "path" "" (entries fs)) [
    | none ↦ none
    | some path ↦ some (path, any_field "expect" null (entries fs))
  ]
  path_spec (some null) = some ("", null)
  path_spec _ = none

  -- the check of a looked up value against the spec
  pub path_result : String → Json → Checked PathError Json → Option (List AssertionFailure)
  path_result path expect (bad panics) = none
  path_result path expect (bad e) = some (failure "body.jsonpath" (path_error e))
  path_result path expect (good v) = some (
      unless (std.marshal expect == std.marshal v) "body.jsonpath"
        (path_differs path (std.marshal expect) (std.marshal v)))

  pub assert_json_path : String → String → Option (List AssertionFailure)
  assert_json_path raw body = elim (path_spec (std.parse raw)) [
    | none ↦ some (failure "body.jsonpath" bad_spec)
    | some (path, expect) ↦ path_result path expect (json_path_lookup std body path)
  ]

  -- `gojsonschema` is the library's check of a schema and a document.
  module _ (gojsonschema : String → String → Validated) where
    pub assert_json_schema : String → String → List AssertionFailure
    assert_json_schema schema body = elim (gojsonschema schema body) [
      | cannot_validate ↦ failure "body.schema" schema_error
      | found [] ↦ []
      | found (e ∷ es) ↦ failure "body.schema" (schema_invalid (e ∷ es))
    ]

    pub pattern_of : TestCase → String
    pattern_of tc =
        if tc.expected_body_pattern == ""
        then bytes tc.expected_body_json
        else tc.expected_body_pattern

    pub assert_regex : String → String → List AssertionFailure
    assert_regex pattern body =
        if std.compiles pattern
        then unless (matches std pattern body) "body.regex" no_match
        else failure "body.regex" bad_regex

    pub assert_body : TestCase → String → Option (List AssertionFailure)
    assert_body tc body =
        let expected = bytes tc.expected_body_json in
        if tc.expected_body_match == "exact"
        then some (unless (json_equal expected body) "body.exact" not_exact)
        else if tc.expected_body_match == "contains"
        then some (unless (is_infix expected body) "body.contains" not_contained)
        else if tc.expected_body_match == "regex"
        then some (assert_regex (pattern_of tc) body)
        else if tc.expected_body_match == "jsonpath"
        then assert_json_path expected body
        else if tc.expected_body_match == "schema"
        then some (assert_json_schema expected body)
        else some (failure "body.unknown" (unknown_match tc.expected_body_match))

    -- the three blocks of `Assert`
    abbrev pub status_failures : TestCase → ℤ → List AssertionFailure
    status_failures tc status =
        unless (not (int_lt (pos 0) tc.expected_status) || int_eq status tc.expected_status)
          "status" (expected_got tc.expected_status status)

    abbrev pub has_body_assertion : TestCase → Bool
    has_body_assertion tc =
        (not (tc.expected_body_match == "") && not (tc.expected_body_match == "none"))
        && (is_some tc.expected_body_json
            || (tc.expected_body_match == "regex" && not (tc.expected_body_pattern == "")))

    abbrev pub body_failures : TestCase → String → Option (List AssertionFailure)
    body_failures tc body = if has_body_assertion tc then assert_body tc body else some []

    abbrev pub advanced_failures :
        TestCase → ℤ → List (String × List String) → List AssertionFailure
    advanced_failures tc status headers = elim tc.assertions_json [
      | none ↦ []
      | some raw ↦ assert_advanced raw status headers
    ]

    unfoldable pub assert :
        TestCase → ℤ → List (String × List String) → String → Option (List AssertionFailure)
    unfolding assert_body assert_regex pattern_of assert_json_schema assert_json_path path_result
        path_spec json_equal assert_advanced assert_rules assert_rule assertion_rules rule_items
        any_field string_field
    assert tc status headers body = elim (body_failures tc body) [
      | none ↦ none
      | some in_body ↦
          some (status_failures tc status ++ (in_body ++ advanced_failures tc status headers))
    ]
