-- ===== src/Mock/Engine/Candidates.antt =====
-- The rules that reach the matcher.
use sentinel_api_platform.Prelude.{
  ◌≡◌, ◌↔◌, inl, inr, true, some, List, eq_iff, Option-cases, mem-keep, arith,
}
use mathlib.Core.List.{Memᴰ}
use sentinel_api_platform.Model.{MockRule, Api}
use sentinel_api_platform.Mock.Engine.{Incoming, request_path, api_by_id, is_candidate, candidates}

-- The rule's API is there, with the request's method and path.
abbrev pub Fits : Incoming → List Api → MockRule → Type 0
Fits req apis r =
    (api : Api) × (api_by_id r.api_id apis ≡ some api)
    × (api.method ≡ req.method)
    × (api.path ≡ request_path req)

is_candidate-Fits :
    (req : Incoming) (apis : List Api) (r : MockRule)
    → is_candidate req apis r ≡ true
    → Fits req apis r
is_candidate-Fits req apis r h = elim (Option-cases (api_by_id r.api_id apis)) [
  | inl e ↦ ground arith
  | inr (api, e) ↦ (
    api,
    e,
    ground (arith, eq_iff api.method req.method),
    ground (arith, eq_iff api.path (request_path req)),
  )
]

Fits-is_candidate :
    (req : Incoming) (apis : List Api) (r : MockRule)
    → Fits req apis r
    → is_candidate req apis r ≡ true
Fits-is_candidate req apis r (api, e, m, p) =
    rw (e, is_candidate)
      (rw ((eq_iff api.method req.method).1 m) ((eq_iff api.path (request_path req)).1 p))

-- A rule is a candidate exactly when it is one of the project's rules and its API has the request's
-- method and path.
pub mem-candidates :
    (req : Incoming) (apis : List Api) (rules : List MockRule) (r : MockRule)
    → Memᴰ r (candidates req apis rules) ↔ (Memᴰ r rules × Fits req apis r)
unfolding candidates
mem-candidates req apis rules r =
    let (to, from) = mem-keep (is_candidate req apis) r rules in
    (
      λ m. ((to m).0, is_candidate-Fits req apis r (to m).1),
      λ h. from (h.0, Fits-is_candidate req apis r h.1),
    )
