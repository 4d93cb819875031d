-- ===== src/Mock/Engine/Laws/Tests.antt =====
-- Requests to a project with one API and two rules, over a Redis server in memory.
use sentinel_api_platform.Prelude.{
  pos, ◌≡◌, refl, ◌↔◌, String, true, false, Option, none, some, List, [], ◌∷◌, ◌==◌, All,
  if◌then◌else◌, trim_prefix_slash,
}
use sentinel_api_platform.Prelude.Checked.{bad}
use mathlib.Core.List.{Memᴰ}
use sentinel_api_platform.Errs.{sentinel, not_found}
use sentinel_api_platform.Effects.{ok, err}
use sentinel_api_platform.Json.Toy.{toy}
use sentinel_api_platform.Model.{MockRule, Api, Project}
use sentinel_api_platform.Mock.VarBag.Memory.{Hashes, memory}
use sentinel_api_platform.Mock.VarBag.{redis_bag, tokens, render, var_key}
use sentinel_api_platform.Mock.Matcher.{ScoredRule, BadMatchJson, score_rule, pick_best}
use sentinel_api_platform.Mock.Matcher.Best.{IsMatch, Beaten}
use sentinel_api_platform.Mock.Extractor.{apply}
use sentinel_api_platform.Mock.Engine.{
  Incoming, Served, unprocessable, served, Engine, candidates, match_request, serve, status_or_ok,
}
use sentinel_api_platform.Mock.Engine.Candidates.{Fits}
use sentinel_api_platform.Mock.Engine.Steps.{Loaded}
use sentinel_api_platform.Mock.Engine.Laws.{serve-served, serve-unprocessable_iff}

abbrev project : Project
project = record { id = "p1"; name = "Pets"; slug = "pets"; owner_id = "u1"; description = "" }

abbrev pets_api : Api
pets_api = record {
  id = "a1";
  project_id = "p1";
  name = "list";
  method = "GET";
  path = "/pets";
  operation_id = "";
  tags_json = "";
  request_schema_json = "";
  response_schema_json = "";
  spec_json = "";
  source = "manual";
  deprecated = false;
}

abbrev rule_of : String → String → MockRule
rule_of id match_json = record {
  id = id;
  api_id = "a1";
  name = id;
  match_json = match_json;
  response_status = pos 0;
  response_headers_json = "";
  response_body_json = "id={{pet}}";
  extractor_json = "";
  priority = pos 100;
  delay_ms = pos 0;
  enabled = true;
  hit_count = 0;
}

abbrev rules : List MockRule
rules = rule_of "r1" "{}" ∷ rule_of "r2" "q:a=1" ∷ []

abbrev engine : List MockRule → Engine Hashes
engine rs = record {
  find_by_slug = λ slug s. (if slug == "pets" then ok project else err (sentinel not_found), s);
  list_rules = λ id s. (ok rs, s);
  list_apis = λ id s. (ok (pets_api ∷ []), s);
  bag = redis_bag memory;
  recorder = none;
}

abbrev request : String → Incoming
request path = record {
  slug = "pets";
  session_header = "s1";
  method = "GET";
  path_param = path;
  query = ("a", "1" ∷ []) ∷ [];
  headers = [];
  body = "";
  fresh_session = "s2";
  fresh_hit = "h1";
  ends_in_delay = false;
}

abbrev no_gjson : String → String → Option String
no_gjson body path = none

-- A session in which the variable `pet` is set.
abbrev session : Hashes
session k = if k == "mock:vars:pets:s1" then ("pet", "7") ∷ [] else []

run : Unit {0}
unfolding serve redis_bag tokens render var_key pick_best apply candidates trim_prefix_slash
run = tt

abbrev answer : Served
answer = record {
  rule = rule_of "r2" "q:a=1";
  reason = "exact";
  session = "s1";
  status = pos 200;
  headers =
      ("X-Mock-Session", "s1") ∷ ("X-Mock-Match-Reason", "exact") ∷ ("X-Mock-Rule-Id", "r2") ∷ [];
  body = "id=7";
}

serve_run : (serve toy no_gjson (engine rules) (request "/pets") session).0 ≡ served answer
unfolding run
serve_run = refl

abbrev loaded : (rs : List MockRule) (path : String) → Loaded (engine rs) (request path) session
loaded rs path = record {
  project = project;
  rules = rs;
  apis = pets_api ∷ [];
  found = refl;
  listed_rules = refl;
  listed_apis = refl;
}

serve-served_example :
    (l : Loaded (engine rules) (request "/pets") session) × (b : ScoredRule) × (b.rule
      ≡ answer.rule)
    × (status_or_ok b.rule.response_status ≡ answer.status)
    × Memᴰ b.rule l.rules
    × Fits (request "/pets") l.apis b.rule
    × IsMatch toy (match_request (request "/pets")) (candidates (request "/pets") l.apis l.rules) b
    × All
        (λ q. Beaten (some b) q (score_rule toy (match_request (request "/pets")) q))
        (candidates (request "/pets") l.apis l.rules)
unfolding run
serve-served_example =
    serve-served toy no_gjson (engine rules) (request "/pets") session answer refl

abbrev bad_rules : List MockRule
bad_rules = rule_of "r1" "{}" ∷ rule_of "r2" "unknown" ∷ []

abbrev bad_loaded : Loaded (engine bad_rules) (request "pets") session
bad_loaded = loaded bad_rules "pets"

serve-unprocessable_iff_example :
    ((why : BadMatchJson) × ((serve toy no_gjson (engine bad_rules) (request "pets") session).0
        ≡ unprocessable why))
    ↔ ((r : MockRule) × (why : BadMatchJson) × Memᴰ r bad_rules
        × Fits (request "pets") (pets_api ∷ []) r
        × (score_rule toy (match_request (request "pets")) r ≡ bad why))
serve-unprocessable_iff_example =
    serve-unprocessable_iff toy no_gjson (engine bad_rules) (request "pets") session bad_loaded refl
