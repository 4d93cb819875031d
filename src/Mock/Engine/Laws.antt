-- ===== src/Mock/Engine/Laws.antt =====
-- The handler: which rule is served, and with which status each request is answered.
mod Tests
use sentinel_api_platform.Prelude.{
  ℕ, ℤ, pos, negsuc, ◌≡◌, ◌≢◌, refl, sym, ap, ◌∙◌, ◌↔◌, ◌⊎◌, inl, inr, String, Bool, true, false,
  Option, none, some, List, [], ◌∷◌, ◌==◌, eq_iff, Option-cases, Bool-cases, arith, All, int_lt,
  int_eq, ◌&&◌, if◌then◌else◌,
}
use sentinel_api_platform.Prelude.Checked.{Checked, good, bad, Checked-cases}
use mathlib.Core.List.{Memᴰ}
use sentinel_api_platform.Errs.{Error, not_found, is}
use sentinel_api_platform.Effects.{Result, ok, err, Result-cases}
use sentinel_api_platform.Json.{Std}
use sentinel_api_platform.Model.{MockRule, Api, Project}
use sentinel_api_platform.Mock.Matcher.{ScoredRule, BadMatchJson, score_rule, pick_best}
use sentinel_api_platform.Mock.Matcher.Best.{
  IsMatch, Beaten, IsNoMatch, pick_best-some, pick_best-none_iff, pick_best-bad,
}
use sentinel_api_platform.Mock.Engine.{
  Incoming, Served, Reply, missing_slug, project_not_found, internal_error, silent, unprocessable,
  no_match, served, Engine, request_path, candidates, match_request, respond, match_and_respond,
  with_project, serve, status_or_ok, session_of, run_extractor, substitute_body, response_headers,
}
use sentinel_api_platform.Mock.Engine.Steps.{
  Loaded, last_state, serve_cases, match-served, match-bad, match-none, match-bad_of, match-none_of,
  serve-loaded,
}
use sentinel_api_platform.Mock.Engine.Candidates.{Fits, mem-candidates}

module _ (std : Std) (gjson : String → String → Option String) {S : Type 0} (e : Engine S) where
  -- A response comes from a rule of the request's project whose API has the request's method and
  -- path, which matches the request, and which no other such rule comes before; its status is the
  -- rule's, or 200 where that is 0.
  pub serve-served :
      (req : Incoming) (s : S) (r : Served)
      → (serve std gjson e req s).0 ≡ served r
      → (l : Loaded e req s) × (b : ScoredRule) × (b.rule ≡ r.rule)
        × (status_or_ok b.rule.response_status ≡ r.status)
        × Memᴰ b.rule l.rules
        × Fits req l.apis b.rule
        × IsMatch std (match_request req) (candidates req l.apis l.rules) b
        × All
            (λ q. Beaten (some b) q (score_rule std (match_request req) q))
            (candidates req l.apis l.rules)
  serve-served req s r h = elim (serve_cases std gjson e req s) [
    | inl early ↦ absurd (rw h at early)
    | inr (l, same) ↦
        let rules = candidates req l.apis l.rules in
        let (b, found, same_rule) =
          match-served std gjson e req rules (last_state std gjson e l.project req s) r
            (ap (λ p. p.0) (sym same) ∙ h) in
        let (is_match, beaten) = pick_best-some std (match_request req) rules b found in
        let (listed, fits) = (mem-candidates req l.apis l.rules b.rule).0 is_match.0 in
        (l, b, same_rule.0, same_rule.2, listed, fits, is_match, beaten)
  ]

  -- A request that reaches the matcher is answered with 422 exactly when a rule of the project,
  -- whose API has the request's method and path, has an invalid `match_json`.
  pub serve-unprocessable_iff :
      (req : Incoming) (s : S) (l : Loaded e req s)
      → (req.slug == "") ≡ false
      → ((why : BadMatchJson) × ((serve std gjson e req s).0 ≡ unprocessable why)) ↔ (
          (r : MockRule) × (why : BadMatchJson) × Memᴰ r l.rules
          × Fits req l.apis r
          × (score_rule std (match_request req) r ≡ bad why))
  serve-unprocessable_iff req s l named =
      let rules = candidates req l.apis l.rules in
      let whole = pick_best-bad std (match_request req) rules in
      let same = ap (λ p. p.0) (serve-loaded std gjson e req s l named) in
      (
        λ h.
            let (r, m, failed) = whole.0 h.0 (
              match-bad_of std gjson e req rules (last_state std gjson e l.project req s) h.0
                (sym same ∙ h.1)) in
            let (listed, fits) = (mem-candidates req l.apis l.rules r).0 m in
            (r, h.0, listed, fits, failed),
        λ h.
            let (why, failed) =
              whole.1 h.0 h.1 ((mem-candidates req l.apis l.rules h.0).1 (h.2, h.3)) h.4 in
            (
              why,
              same
                  ∙ match-bad std gjson e req rules (last_state std gjson e l.project req s) why
                      failed,
            ),
      )

  -- A request that reaches the matcher is answered with the 404 that names its slug, path and method
  -- exactly when every candidate scores 0.
  pub serve-no_match_iff :
      (req : Incoming) (s : S) (l : Loaded e req s)
      → (req.slug == "") ≡ false
      → ((serve std gjson e req s).0 ≡ no_match req.slug (request_path req) req.method)
        ↔ All (IsNoMatch std (match_request req)) (candidates req l.apis l.rules)
  serve-no_match_iff req s l named =
      let rules = candidates req l.apis l.rules in
      let same = ap (λ p. p.0) (serve-loaded std gjson e req s l named) in
      let none_iff = pick_best-none_iff std (match_request req) rules in
      (
        λ h. none_iff.0 (
            match-none_of std gjson e req rules (last_state std gjson e l.project req s)
              (sym same ∙ h)),
        λ h.
            same
            ∙ match-none std gjson e req rules (last_state std gjson e l.project req s)
                (none_iff.1 h),
      )
