-- ===== src/Mock/Matcher.antt =====
-- backend/internal/mock/matcher.go: decoding `match_json`, scoring one rule, and the best rule.
pub mod Order
pub mod Best
pub mod Scores
pub mod Tie
mod Tests
use sentinel_api_platform.Prelude.{
  ℕ, zero, suc, ◌+◌, String, Bool, true, false, not, ◌&&◌, ◌||◌, ◌==◌, Option, none, some, List, [],
  ◌∷◌, nat_eq, ltb, int_lt, int_eq, str_lt, trim_space, if◌then◌else◌,
}
use sentinel_api_platform.Prelude.Checked.{Checked, good, bad, ◌>>=◌, ◌>>◌, bad_map}
use sentinel_api_platform.Json.{
  Json, null, bool, num, str, arr, obj, Fields, end, field, entries, lookup, equal_fold, Std,
  matches,
}
use sentinel_api_platform.Model.{MockRule}

-- `MatchRequest`. A query and the headers list the values of each key; header keys are canonical.
pub record MatchRequest : Type 0 where
  pub method : String
  pub path : String
  pub query : List (String × List String)
  pub headers : List (String × List String)
  pub body : String

pub record ScoredRule : Type 0 where
  pub rule : MockRule
  pub score : ℕ
  pub reason : String

-- What is wrong with one field, and with a whole `match_json`.
pub data FieldError : Type 0 where
  decode_object invalid_regex no_regex_or_type : FieldError

pub data SpecError : Type 0 where
  empty not_object bad_body : SpecError
  unknown_key : String → SpecError
  in_query in_headers : String → FieldError → SpecError

-- `ErrBadMatchJSON`, wrapped with the rule's id and the reason
pub data BadMatchJson : Type 0 where
  bad_match_json : String → SpecError → BadMatchJson

-- `matchSpec`; an empty raw body is `none`
pub record MatchSpec : Type 0 where
  pub query : List (String × Json)
  pub headers : List (String × Json)
  pub body : Option Json

pub record FieldSpec : Type 0 where
  pub literal : String
  pub regex : String
  pub type_of : String

abbrev nil_spec : FieldSpec
nil_spec = record { literal = ""; regex = ""; type_of = "" }

-- One string field of a struct decoded by `json.Unmarshal`: the last entry whose key is the field's
-- up to case; `none` where that is no string. `null` leaves the field as it was.
unfoldable pub string_field : String → String → List (String × Json) → Option String
string_field key v [] = some v
string_field key v ((k, str s) ∷ m) = string_field key (if equal_fold k key then s else v) m
string_field key v ((k, null) ∷ m) = string_field key v m
string_field key v ((k, _) ∷ m) = if equal_fold k key then none else string_field key v m

abbrev is_nil {ℓ} : {A : Type ℓ} → List A → Bool
is_nil [] = true
is_nil (_ ∷ _) = false

abbrev is_none {ℓ} : {A : Type ℓ} → Option A → Bool
is_none none = true
is_none (some _) = false

module _ (std : Std) where
  -- the `switch` of `decodeFieldSpec`, on the decoded object
  choose_spec : String → String → Checked FieldError FieldSpec
  choose_spec regex type_of =
      if not (regex == "")
      then (if std.compiles regex
          then good (record nil_spec { regex = regex })
          else bad invalid_regex)
      else if not (type_of == "")
      then good (record nil_spec { type_of = type_of })
      else bad no_regex_or_type

  decode_field_spec : Json → Checked FieldError FieldSpec
  decode_field_spec (str s) = good (record nil_spec { literal = s })
  decode_field_spec null = choose_spec "" ""
  decode_field_spec (obj fs) = elim (string_field "regex" "" (entries fs)) [
    | none ↦ bad decode_object
    | some regex ↦ elim (string_field "type" "" (entries fs)) [
      | none ↦ bad decode_object
      | some type_of ↦ choose_spec regex type_of
    ]
  ]
  decode_field_spec _ = bad decode_object

  -- `json.Unmarshal` into a map of raw messages; `null` gives the nil map
  decode_map : Json → Checked SpecError (List (String × Json))
  decode_map (obj fs) = good (entries fs)
  decode_map null = good []
  decode_map _ = bad not_object

  check_keys : List (String × Json) → Checked SpecError (Unit {0})
  check_keys [] = good tt
  check_keys ((k, _) ∷ m) =
      if k == "query" || k == "headers" || k == "body" then check_keys m else bad (unknown_key k)

  map_at : String → List (String × Json) → Checked SpecError (List (String × Json))
  map_at k m = elim (lookup k m) [ none ↦ good [] | some v ↦ decode_map v ]

  -- `json.Unmarshal` into a `matchSpec`, after the keys have been checked
  decode_spec : List (String × Json) → Checked SpecError MatchSpec
  decode_spec m = do
    query ← map_at "query" m
    headers ← map_at "headers" m
    good (record { query = query; headers = headers; body = lookup "body" m })

  check_fields :
      (String → FieldError → SpecError) → List (String × Json) → Checked SpecError (Unit {0})
  check_fields wrap [] = good tt
  check_fields wrap ((k, v) ∷ m) = do
    bad_map (wrap k) (decode_field_spec v >>= λ _. good tt)
    check_fields wrap m

  check_body : Option Json → Checked SpecError (Unit {0})
  check_body none = good tt
  check_body (some (obj _)) = good tt
  check_body (some (arr _)) = good tt
  check_body (some _) = bad bad_body

  -- `ValidateMatchJSON`, with the spec that `scoreRule` decodes again
  validate_match_json : String → Checked SpecError MatchSpec
  validate_match_json b = if trim_space b == "" then bad empty else elim (std.parse b) [
    | none ↦ bad not_object
    | some v ↦ do
      raw ← decode_map v
      check_keys raw
      spec ← decode_spec raw
      check_fields in_query spec.query
      check_fields in_headers spec.headers
      check_body spec.body
      good spec
  ]

-- whether `json.Unmarshal` of a value into a variable of the Go type named so succeeds; `null`
-- always does
fits : String → Json → Bool
fits typ null = true
fits typ (num _) = typ == "number"
fits typ (bool _) = typ == "boolean"
fits typ (arr _) = typ == "array"
fits typ (obj _) = typ == "object"
fits typ (str _) = false

abbrev fits_text : String → Option Json → Bool
fits_text typ none = false
fits_text typ (some v) = fits typ v

abbrev is_decoded_type : String → Bool
is_decoded_type typ = typ == "number" || typ == "boolean" || typ == "array" || typ == "object"

-- `url.Values.Get` and, at the canonical key, `http.Header.Get`
abbrev pub first_value : Option (List String) → String
first_value none = ""
first_value (some []) = ""
first_value (some (v ∷ _)) = v

-- `total += s; if reason != "" && reason != "exact" { bestReason = reason }`
abbrev add_score : ℕ × String → ℕ × String → ℕ × String
add_score (total, best) (s, reason) =
    (total + s, if not (reason == "") && not (reason == "exact") then reason else best)

abbrev is_set : FieldSpec → Bool
is_set fs = not (fs.literal == "") || not (fs.regex == "") || not (fs.type_of == "")

abbrev is_catchall : MatchSpec → Bool
is_catchall spec = is_nil spec.query && is_nil spec.headers && is_none spec.body

module _ (std : Std) where
  type_matches : String → String → Bool
  type_matches typ value =
      if typ == "string"
      then not (value == "")
      else if typ == "null"
      then value == "" || value == "null"
      else is_decoded_type typ && fits_text typ (std.parse value)

  score_field : FieldSpec → String → ℕ × String
  score_field spec value =
      if not (spec.literal == "")
      then (if spec.literal == value then (50, "exact") else (0, ""))
      else if not (spec.regex == "")
      then (if matches std spec.regex value then (30, "regex") else (0, ""))
      else if not (spec.type_of == "")
      then (if type_matches spec.type_of value then (10, "type-only") else (0, ""))
      else (0, "")

  -- exact JSON: the two decoded values print alike
  score_body_json : Json → String → ℕ × String
  score_body_json want request = if request == "" then (0, "") else elim (std.parse request) [
    | none ↦ (0, "")
    | some got ↦ if std.marshal want == std.marshal got then (50, "exact") else (0, "")
  ]

  score_body_field : Json → String → ℕ × String
  score_body_field raw request = elim (decode_field_spec std raw) [
    | good fs ↦ if is_set fs then score_field fs request else score_body_json raw request
    | bad _ ↦ score_body_json raw request
  ]

  -- the field's spec has been validated; the zero value stands where it fails to decode
  abbrev decoded : Json → FieldSpec
  decoded v = elim (decode_field_spec std v) [ good fs ↦ fs | bad _ ↦ nil_spec ]

  -- the loop over `spec.Query`, and that over `spec.Headers`, by how a value is looked up
  pub score_fields : (String → String) → List (String × Json) → ℕ × String → ℕ × String
  score_fields value [] acc = acc
  score_fields value ((k, v) ∷ m) acc =
      score_fields value m (add_score acc (score_field (decoded v) (value k)))

  abbrev score_body : Option Json → String → ℕ × String → ℕ × String
  score_body none request acc = acc
  score_body (some raw) request acc = add_score acc (score_body_field raw request)

  score_spec : MatchRequest → MatchSpec → ℕ × String
  score_spec req spec =
      let query = score_fields (λ k. first_value (lookup k req.query)) spec.query (0, "exact") in
      let headers =
        score_fields (λ k. first_value (lookup (std.canonical k) req.headers)) spec.headers query in
      score_body spec.body req.body headers

  pub score_rule : MatchRequest → MockRule → Checked BadMatchJson (ℕ × String)
  score_rule req rule =
      if trim_space rule.match_json == ""
      then good (1, "catchall")
      else elim (validate_match_json std rule.match_json) [
        | bad e ↦ bad (bad_match_json rule.id e)
        | good spec ↦
            if is_catchall spec
            then good (1, "catchall")
            else let (total, reason) = score_spec req spec in
              if nat_eq total 0 then good (0, "") else good (total, reason)
      ]

-- the `switch` of `PickBest`: the best so far against one more candidate
pub challenge : ScoredRule → ScoredRule → ScoredRule
challenge best cand =
    if ltb best.score cand.score
    then cand
    else if nat_eq cand.score best.score && int_lt cand.rule.priority best.rule.priority
    then cand
    else if nat_eq cand.score best.score
        && int_eq cand.rule.priority best.rule.priority
        && str_lt cand.rule.id best.rule.id
    then record cand { reason = "tie-break-by-id" }
    else best

abbrev challenge_any : Option ScoredRule → ScoredRule → ScoredRule
challenge_any none cand = cand
challenge_any (some best) cand = challenge best cand

-- one round of the loop, once the rule is scored; `continue` where the score is 0
abbrev pub next_best : Option ScoredRule → MockRule → ℕ × String → Option ScoredRule
next_best best r (zero, reason) = best
next_best best r (suc n, reason) =
    some (challenge_any best (record { rule = r; score = suc n; reason = reason }))

module _ (std : Std) (req : MatchRequest) where
  -- the loop of `PickBest`
  pub pick_from : Option ScoredRule → List MockRule → Checked BadMatchJson (Option ScoredRule)
  pick_from best [] = good best
  pick_from best (r ∷ rs) = do result ← score_rule std req r; pick_from (next_best best r result) rs

  unfoldable pub pick_best : List MockRule → Checked BadMatchJson (Option ScoredRule)
  unfolding pick_from challenge score_rule score_spec score_fields score_field score_body_field
      score_body_json type_matches fits validate_match_json check_body check_fields check_keys
      decode_spec decode_map map_at decode_field_spec choose_spec string_field trim_space str_lt
  pick_best rules = pick_from none rules
