-- ===== src/Mock/Engine/Steps.antt =====
-- The handler step by step: what it needs of the stores, and what the matcher's answer leads to.
use sentinel_api_platform.Prelude.{
  pos, ◌≡◌, refl, ◌⊎◌, inl, inr, String, Bool, true, false, Option, none, some, List, ◌==◌,
  Bool-cases, arith, int_lt, ◌&&◌, if◌then◌else◌,
}
use sentinel_api_platform.Prelude.Checked.{good, bad, Checked-cases}
use sentinel_api_platform.Errs.{not_found, is}
use sentinel_api_platform.Effects.{ok, Result-cases}
use sentinel_api_platform.Json.{Std}
use sentinel_api_platform.Model.{MockRule, Api, Project}
use sentinel_api_platform.Mock.Matcher.{ScoredRule, BadMatchJson, pick_best}
use sentinel_api_platform.Mock.Engine.{
  Incoming, Served, Reply, missing_slug, project_not_found, internal_error, silent, unprocessable,
  no_match, served, Engine, request_path, candidates, match_request, respond, match_and_respond,
  with_project, serve, status_or_ok, session_of, run_extractor, substitute_body, response_headers,
}

-- What the stores answered on the way to the matcher.
pub record Loaded {S : Type 0} (e : Engine S) (req : Incoming) (s : S) : Type 0 where
  pub project : Project
  pub rules : List MockRule
  pub apis : List Api
  pub found : (e.find_by_slug req.slug s).0 ≡ ok project
  pub listed_rules : (e.list_rules project.id (e.find_by_slug req.slug s).1).0 ≡ ok rules
  pub listed_apis :
      (e.list_apis project.id (e.list_rules project.id (e.find_by_slug req.slug s).1).1).0 ≡ ok apis

module _ (std : Std) (gjson : String → String → Option String) {S : Type 0} (e : Engine S) where
  abbrev pub last_state : Project → Incoming → S → S
  last_state project req s =
      (e.list_apis project.id (e.list_rules project.id (e.find_by_slug req.slug s).1).1).1

  -- The answers that are given before the matcher is asked.
  abbrev pub IsEarly : Reply → Type 0
  IsEarly missing_slug = Unit
  IsEarly project_not_found = Unit
  IsEarly internal_error = Unit
  IsEarly _ = ⊥

  find_error-IsEarly : (b : Bool) → IsEarly (if b then project_not_found else internal_error)
  find_error-IsEarly true = tt
  find_error-IsEarly false = tt

  -- The handler stops early, or it goes on with the rules and the APIs of the request's project.
  pub serve_cases :
      (req : Incoming) (s : S)
      → IsEarly (serve std gjson e req s).0
        ⊎ ((l : Loaded e req s) × (serve std gjson e req s
              ≡ match_and_respond std gjson e req
                  (candidates req l.apis l.rules)
                  (last_state l.project req s)))
  unfolding serve
  serve_cases req s = elim (Bool-cases (req.slug == "")) [
    | inl empty ↦ inl (rw (empty, serve) tt)
    | inr named ↦ elim (Result-cases (e.find_by_slug req.slug s).0) [
      | inr (why, failed) ↦ inl (rw (named, failed, serve) (find_error-IsEarly (is why not_found)))
      | inl (project, found) ↦
          let s₁ = (e.find_by_slug req.slug s).1 in
          elim (Result-cases (e.list_rules project.id s₁).0) [
            | inr (why, failed) ↦ inl (rw (named, found, failed, serve, with_project) tt)
            | inl (rules, listed) ↦
                let s₂ = (e.list_rules project.id s₁).1 in
                elim (Result-cases (e.list_apis project.id s₂).0) [
                  | inr (why, failed) ↦
                      inl (rw (named, found, listed, failed, serve, with_project) tt)
                  | inl (apis, listed') ↦ inr (
                    record {
                      project = project;
                      rules = rules;
                      apis = apis;
                      found = found;
                      listed_rules = listed;
                      listed_apis = listed';
                    },
                    rw (named, found, listed, listed', serve, with_project),
                  )
                ]
          ]
    ]
  ]

  abbrev reply : Incoming → ScoredRule → String → Served
  reply req b text = record {
    rule = b.rule;
    reason = b.reason;
    session = session_of req;
    status = status_or_ok b.rule.response_status;
    headers = response_headers std req b;
    body = text;
  }

  -- The answers of the matcher's step, by what `PickBest` gave.
  respond_cases :
      (req : Incoming) (b : ScoredRule) (s : S)
      → ((respond std gjson e req b s).0 ≡ silent)
        ⊎ ((respond std gjson e req b s).0 ≡ internal_error)
        ⊎ ((r : Served) × ((respond std gjson e req b s).0 ≡ served r)
            × (r.rule ≡ b.rule)
            × (r.reason ≡ b.reason)
            × (r.status ≡ status_or_ok b.rule.response_status))
  unfolding respond
  respond_cases req b s = elim (Bool-cases (int_lt (pos 0) b.rule.delay_ms && req.ends_in_delay)) [
    | inl ends ↦ inl (rw (ends, respond))
    | inr goes ↦
        let s' = run_extractor std gjson e req b.rule s in
        elim (Result-cases (substitute_body std gjson e req b.rule s').0) [
          | inr (why, failed) ↦ inr (inl (rw (goes, failed, respond)))
          | inl (text, done) ↦
              inr (inr (reply req b text, rw (goes, done, respond), refl, refl, refl))
        ]
  ]

  abbrev pub IsServed : ScoredRule → Served → Type 0
  IsServed b r =
      (b.rule ≡ r.rule) × (b.reason ≡ r.reason) × (status_or_ok b.rule.response_status ≡ r.status)

  respond-served :
      (req : Incoming) (b : ScoredRule) (s : S) (r : Served)
      → (respond std gjson e req b s).0 ≡ served r
      → IsServed b r
  respond-served req b s r h = elim (respond_cases req b s) [
    | inl quiet ↦ cc
    | inr (inl failed) ↦ cc
    | inr (inr (r', same, rule, reason, status)) ↦ ground arith
  ]

  pub match-served :
      (req : Incoming) (rules : List MockRule) (s : S) (r : Served)
      → (match_and_respond std gjson e req rules s).0 ≡ served r
      → (b : ScoredRule) × (pick_best std (match_request req) rules ≡ good (some b)) × IsServed b r
  unfolding match_and_respond
  match-served req rules s r h = elim (Checked-cases (pick_best std (match_request req) rules)) [
    | inl (why, failed) ↦ let n = rw (failed, match_and_respond) at h in cc
    | inr (none, missed) ↦ let n = rw (missed, match_and_respond) at h in cc
    | inr (some b, found) ↦
        (b, found, respond-served req b s r (rw (found, match_and_respond) at h))
  ]

  pub match-bad :
      (req : Incoming) (rules : List MockRule) (s : S) (why : BadMatchJson)
      → pick_best std (match_request req) rules ≡ bad why
      → (match_and_respond std gjson e req rules s).0 ≡ unprocessable why
  unfolding match_and_respond
  match-bad req rules s why h = rw (h, match_and_respond)

  pub match-none :
      (req : Incoming) (rules : List MockRule) (s : S)
      → pick_best std (match_request req) rules ≡ good none
      → (match_and_respond std gjson e req rules s).0
        ≡ no_match req.slug (request_path req) req.method
  unfolding match_and_respond
  match-none req rules s h = rw (h, match_and_respond)

  match-some :
      (req : Incoming) (rules : List MockRule) (s : S) (b : ScoredRule)
      → pick_best std (match_request req) rules ≡ good (some b)
      → match_and_respond std gjson e req rules s ≡ respond std gjson e req b s
  unfolding match_and_respond
  match-some req rules s b h = rw (h, match_and_respond)

  pub match-bad_of :
      (req : Incoming) (rules : List MockRule) (s : S) (why : BadMatchJson)
      → (match_and_respond std gjson e req rules s).0 ≡ unprocessable why
      → pick_best std (match_request req) rules ≡ bad why
  match-bad_of req rules s why h = elim (Checked-cases (pick_best std (match_request req) rules)) [
    | inl (why', failed) ↦
        let answer = match-bad req rules s why' failed in
        let e : why' ≡ why = ground arith in rw (← e) failed
    | inr (none, missed) ↦ let answer = match-none req rules s missed in cc
    | inr (some b, found) ↦
        let answer = match-some req rules s b found in
        elim (respond_cases req b s) [
          | inl quiet ↦ cc
          | inr (inl failed) ↦ cc
          | inr (inr (r, same, _, _, _)) ↦ cc
        ]
  ]

  pub match-none_of :
      (req : Incoming) (rules : List MockRule) (s : S)
      → (match_and_respond std gjson e req rules s).0
        ≡ no_match req.slug (request_path req) req.method
      → pick_best std (match_request req) rules ≡ good none
  match-none_of req rules s h = elim (Checked-cases (pick_best std (match_request req) rules)) [
    | inl (why, failed) ↦ let answer = match-bad req rules s why failed in cc
    | inr (none, missed) ↦ missed
    | inr (some b, found) ↦
        let answer = match-some req rules s b found in
        elim (respond_cases req b s) [
          | inl quiet ↦ cc
          | inr (inl failed) ↦ cc
          | inr (inr (r, same, _, _, _)) ↦ cc
        ]
  ]

  -- With the stores' answers at hand, the handler goes on to the matcher.
  pub serve-loaded :
      (req : Incoming) (s : S) (l : Loaded e req s)
      → (req.slug == "") ≡ false
      → serve std gjson e req s
        ≡ match_and_respond std gjson e req
            (candidates req l.apis l.rules)
            (last_state l.project req s)
  unfolding serve
  serve-loaded req s l named =
      rw (named, l.found, l.listed_rules, l.listed_apis, serve, with_project)
