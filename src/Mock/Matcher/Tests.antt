-- ===== src/Mock/Matcher/Tests.antt =====
-- Runs of the matcher on three rules.
use sentinel_api_platform.Prelude.{
  ◌≡◌, refl, String, true, some, List, [], ◌∷◌, pos, All, str_lt, trim_space,
}
use sentinel_api_platform.Prelude.Checked.{good, bad}
use mathlib.Core.List.{Memᴰ}
use sentinel_api_platform.Json.{Json, str}
use sentinel_api_platform.Json.Toy.{toy}
use sentinel_api_platform.Model.{MockRule}
use sentinel_api_platform.Mock.Matcher.{
  MatchRequest, ScoredRule, score_rule, challenge, pick_from, pick_best, score_fields, score_spec,
  score_field, score_body_field, score_body_json, type_matches, fits, validate_match_json,
  check_body, check_fields, check_keys, decode_spec, decode_map, map_at, decode_field_spec,
  choose_spec, string_field, bad_match_json, unknown_key, BadMatchJson,
}
use sentinel_api_platform.Mock.Matcher.Best.{IsMatch, Beaten, pick_best-some, pick_best-bad}

matcher : Unit {0}
unfolding pick_best pick_from challenge score_rule score_spec score_fields score_field
    score_body_field score_body_json type_matches fits validate_match_json check_body check_fields
    check_keys decode_spec decode_map map_at decode_field_spec choose_spec string_field trim_space
    str_lt
matcher = tt

abbrev rule_of : String → String → MockRule
rule_of id match_json = record {
  id = id;
  api_id = "api";
  name = id;
  match_json = match_json;
  response_status = pos 200;
  response_headers_json = "";
  response_body_json = "";
  extractor_json = "";
  priority = pos 100;
  delay_ms = pos 0;
  enabled = true;
  hit_count = 0;
}

abbrev request : MatchRequest
request = record {
  method = "GET";
  path = "/pets";
  query = ("a", "1" ∷ []) ∷ ("b", "7" ∷ []) ∷ [];
  headers = ("X", "req-1" ∷ []) ∷ [];
  body = "";
}

abbrev rules : List MockRule
rules = rule_of "r1" " " ∷ rule_of "r2" "h:x~re" ∷ rule_of "r3" "both" ∷ []

abbrev winner : ScoredRule
winner = record { rule = rule_of "r3" "both"; score = 60; reason = "type-only" }

scores :
    (score_rule toy request (rule_of "r1" " ") ≡ good (1, "catchall"))
    × (score_rule toy request (rule_of "r2" "h:x~re") ≡ good (30, "regex"))
    × (score_rule toy request (rule_of "r3" "both") ≡ good (60, "type-only"))
    × (score_rule toy request (rule_of "r4" "unknown")
        ≡ bad (bad_match_json "r4" (unknown_key "cookies")))
unfolding matcher
scores = (refl, refl, refl, refl)

pick_best_run : pick_best toy request rules ≡ good (some winner)
unfolding matcher
pick_best_run = refl

-- Of two rules that tie, the second is chosen by its id only if it comes later in the list.
tie_run :
    (pick_best toy request (rule_of "b" "{}" ∷ rule_of "a" "{}" ∷ [])
      ≡ good (some (record { rule = rule_of "a" "{}"; score = 1; reason = "tie-break-by-id" })))
    × (pick_best toy request (rule_of "a" "{}" ∷ rule_of "b" "{}" ∷ [])
        ≡ good (some (record { rule = rule_of "a" "{}"; score = 1; reason = "catchall" })))
unfolding matcher
tie_run = (refl, refl)

pick_best-some_example :
    IsMatch toy request rules winner
    × All (λ r. Beaten (some winner) r (score_rule toy request r)) rules
unfolding matcher
pick_best-some_example = pick_best-some toy request rules winner refl

abbrev with_bad : List MockRule
with_bad = rule_of "r2" "h:x~re" ∷ rule_of "r4" "unknown" ∷ []

pick_best-bad_example :
    ((e : BadMatchJson)
      → pick_best toy request with_bad ≡ bad e
      → (r : MockRule) × Memᴰ r with_bad × (score_rule toy request r ≡ bad e))
    × ((r : MockRule) (e : BadMatchJson)
        → Memᴰ r with_bad
        → score_rule toy request r ≡ bad e
        → (e' : BadMatchJson) × (pick_best toy request with_bad ≡ bad e'))
pick_best-bad_example = pick_best-bad toy request with_bad

abbrev fields : List (String × Json)
fields = ("a", str "1") ∷ ("b", str "7") ∷ []

abbrev turned : List (String × Json)
turned = ("b", str "7") ∷ ("a", str "1") ∷ []
