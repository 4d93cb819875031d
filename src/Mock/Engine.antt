-- ===== src/Mock/Engine.antt =====
-- backend/internal/mock/engine.go: the handler of /mock/:projectSlug/*path.
pub mod Candidates
pub mod Steps
pub mod Laws
use sentinel_api_platform.Prelude.{
  ℕ, ℤ, pos, String, Bool, true, false, ◌&&◌, ◌==◌, Option, none, some, List, [], ◌∷◌, int_lt,
  int_eq, trim_prefix_slash, keep, if◌then◌else◌,
}
use Prim.Native.String.{◌++◌}
use sentinel_api_platform.Prelude.Checked.{Checked, good, bad}
use sentinel_api_platform.Errs.{Error, not_found, is}
use sentinel_api_platform.Effects.{Result, ok, err, Call}
use sentinel_api_platform.Json.{
  Json, str, obj, Fields, end, field, Std, lookup, set_header, del_header,
}
use sentinel_api_platform.Model.{MockRule, Api, Project}
use sentinel_api_platform.Mock.Matcher.{MatchRequest, ScoredRule, BadMatchJson, pick_best}
use sentinel_api_platform.Mock.VarBag.{Bag}
use sentinel_api_platform.Mock.Extractor.{apply}

-- A row of mock_hits, without its time.
pub record MockHit : Type 0 where
  pub id : String
  pub mock_rule_id : String
  pub request_method : String
  pub request_path : String
  pub response_status : ℤ

-- What `Serve` is given: the parts of the request that it reads, the two fresh ULIDs that it may
-- use, and whether the request's context ends while it waits.
pub record Incoming : Type 0 where
  pub slug : String
  pub session_header : String
  pub method : String
  pub path_param : String
  pub query : List (String × List String)
  pub headers : List (String × List String)
  -- the first read of the body, up to 64 KB
  pub body : String
  pub fresh_session : String
  pub fresh_hit : String
  pub ends_in_delay : Bool

pub record Served : Type 0 where
  pub rule : MockRule
  pub reason : String
  pub session : String
  pub status : ℤ
  pub headers : List (String × String)
  pub body : String

-- The responses, by the call that writes each; `silent` writes nothing.
pub data Reply : Type 0 where
  missing_slug project_not_found internal_error silent : Reply
  unprocessable : BadMatchJson → Reply
  no_match : String → String → String → Reply
  served : Served → Reply

abbrev pub status_of : Reply → ℤ
status_of missing_slug = pos 400
status_of project_not_found = pos 404
status_of internal_error = pos 500
status_of silent = pos 0
status_of (unprocessable _) = pos 422
status_of (no_match _ _ _) = pos 404
status_of (served s) = s.status

-- The engine's fields, over the state that the stores keep.
pub record Engine (S : Type 0) : Type 0 where
  pub find_by_slug : String → Call S Project
  pub list_rules : String → Call S (List MockRule)
  pub list_apis : String → Call S (List Api)
  pub bag : Bag S
  pub recorder : Option (MockHit → Call S (Unit {0}))

abbrev pub request_path : Incoming → String
request_path req = "/" ++ trim_prefix_slash req.path_param

-- `apiByID[id]`: of two APIs with one id the later in the list is kept
abbrev pub api_by_id : String → List Api → Option Api
api_by_id id [] = none
api_by_id id (a ∷ as') = elim (api_by_id id as') [
  | some b ↦ some b
  | none ↦ if a.id == id then some a else none
]

abbrev pub is_candidate : Incoming → List Api → MockRule → Bool
is_candidate req apis r = elim (api_by_id r.api_id apis) [
  | none ↦ false
  | some api ↦ api.method == req.method && api.path == request_path req
]

-- the loop that filters the rules
unfoldable pub candidates : Incoming → List Api → List MockRule → List MockRule
candidates req apis rules = keep (is_candidate req apis) rules

abbrev pub match_request : Incoming → MatchRequest
match_request req = record {
  method = req.method;
  path = request_path req;
  query = req.query;
  headers = req.headers;
  body = req.body;
}

abbrev pub session_of : Incoming → String
session_of req = if req.session_header == "" then req.fresh_session else req.session_header

-- gin's `c.Header`, which removes the header where the value is empty
write_header : Std → String → String → List (String × String) → List (String × String)
write_header std k v hs = if v == "" then del_header std k hs else set_header std k v hs

-- `json.Unmarshal` into a map of strings keeps going after a value of another type, which gives "".
text_or_empty : Json → String
text_or_empty (str s) = s
text_or_empty _ = ""

set_headers : Std → Fields → List (String × String) → List (String × String)
set_headers std end hs = hs
set_headers std (field k v fs) hs = set_headers std fs (write_header std k (text_or_empty v) hs)

rule_headers : Std → String → List (String × String) → List (String × String)
rule_headers std text hs =
    if text == ""
    then hs
    else elim (std.parse text) [ some (obj fs) ↦ set_headers std fs hs | _ ↦ hs ]

-- `sessionID` marks a session that it has made.
generated_header : Std → Incoming → List (String × String)
generated_header std req =
    if req.session_header == "" then write_header std "X-Mock-Session-Generated" "true" [] else []

abbrev pub status_or_ok : ℤ → ℤ
status_or_ok n = if int_eq n (pos 0) then pos 200 else n

response_headers : Std → Incoming → ScoredRule → List (String × String)
response_headers std req b = write_header std "X-Mock-Rule-Id" b.rule.id (
    write_header std "X-Mock-Match-Reason" b.reason (
      write_header std "X-Mock-Session" (session_of req)
        (rule_headers std b.rule.response_headers_json (generated_header std req))))

module _ (std : Std) (gjson : String → String → Option String) {S : Type 0} (e : Engine S) where
  -- step 6; an error of the extractor is logged and the response goes on
  run_extractor : Incoming → MockRule → S → S
  run_extractor req rule s =
      if rule.extractor_json == ""
      then s
      else (apply std gjson e.bag req.slug (session_of req) rule.response_body_json
          rule.extractor_json s).1

  -- step 7
  substitute_body : Incoming → MockRule → Call S String
  substitute_body req rule s =
      if rule.response_body_json == ""
      then (ok "", s)
      else e.bag.substitute req.slug (session_of req) rule.response_body_json s

  record_hit : MockHit → S → S
  record_hit hit s = elim e.recorder [ none ↦ s | some write ↦ (write hit s).1 ]

  -- steps 5 to 10
  pub respond : Incoming → ScoredRule → S → Reply × S
  respond req b s =
      if int_lt (pos 0) b.rule.delay_ms && req.ends_in_delay
      then (silent, s)
      else let (body, s') = substitute_body req b.rule (run_extractor req b.rule s) in
        elim body [
          | err _ ↦ (internal_error, s')
          | ok text ↦
              let status = status_or_ok b.rule.response_status in
              let hit : MockHit = record {
                id = req.fresh_hit;
                mock_rule_id = b.rule.id;
                request_method = req.method;
                request_path = request_path req;
                response_status = status;
              } in
              let reply : Served = record {
                rule = b.rule;
                reason = b.reason;
                session = session_of req;
                status = status;
                headers = response_headers std req b;
                body = text;
              } in
              (served reply, record_hit hit s')
        ]

  -- step 4
  pub match_and_respond : Incoming → List MockRule → S → Reply × S
  match_and_respond req rules s = elim (pick_best std (match_request req) rules) [
    | bad why ↦ (unprocessable why, s)
    | good none ↦ (no_match req.slug (request_path req) req.method, s)
    | good (some b) ↦ respond req b s
  ]

  -- steps 2 and 3
  with_project : Incoming → Project → S → Reply × S
  with_project req project s =
      let (rules, s₁) = e.list_rules project.id s in
      elim rules [
        | err _ ↦ (internal_error, s₁)
        | ok rs ↦
            let (apis, s₂) = e.list_apis project.id s₁ in
            elim apis [
              | err _ ↦ (internal_error, s₂)
              | ok as' ↦ match_and_respond req (candidates req as' rs) s₂
            ]
      ]

  unfoldable pub serve : Incoming → S → Reply × S
  unfolding run_extractor substitute_body record_hit respond match_and_respond with_project
      response_headers rule_headers generated_header set_headers write_header text_or_empty
  serve req s =
      if req.slug == ""
      then (missing_slug, s)
      else let (found, s₁) = e.find_by_slug req.slug s in
        elim found [
          | err why ↦ (if is why not_found then project_not_found else internal_error, s₁)
          | ok project ↦ with_project req project s₁
        ]
