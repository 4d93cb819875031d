-- ===== src/Projects/Rbac.antt =====
-- backend/internal/middleware/rbac.go: admitting a request by the caller's role in the project.
pub mod Laws
use sentinel_api_platform.Prelude.{
  String, Bool, true, false, ◌||◌, ◌==◌, List, [], ◌∷◌, if◌then◌else◌,
}
use sentinel_api_platform.Errs.{Error, not_found, is}
use sentinel_api_platform.Errs.Mapper.{Failure, fail}
use sentinel_api_platform.Effects.{Result, ok, err, Call}

-- What the middleware does: it calls `c.Next`, or it writes an error and returns. It never calls
-- `c.Abort`, which is what keeps gin from running the handlers that follow.
pub data Verdict : Type 0 where
  goes_on : Verdict
  writes : Failure → Verdict

pub contains_role : List String → String → Bool
contains_role [] role = false
contains_role (l ∷ levels) role = l == role || contains_role levels role

-- What is done with the role that the resolver gives.
pub judge_role : List String → Result String → Verdict
judge_role levels (err e) =
    if is e not_found
    then writes (fail 404 40400 "project not found")
    else writes (fail 500 50003 "rbac resolver failed")
judge_role levels (ok role) =
    if role == ""
    then writes (fail 403 40300 "not a member of this project")
    else if contains_role levels role
    then goes_on
    else writes (fail 403 40301 "insufficient project role")

module _ {S : Type 0} (role_for : String → String → Call S String) where
  -- `user` and `pid` are the context's user_id and the URL's :pid.
  unfoldable pub require_project_role : List String → String → String → S → Verdict × S
  unfolding judge_role contains_role
  require_project_role levels user pid s =
      if user == ""
      then (writes (fail 500 50001 "user_id missing from request context — route not protected"), s)
      else if pid == ""
      then (
        writes (fail 500 50002 "project id missing from URL — route not parameterized with :pid"),
        s,
      )
      else (let (role, s') = role_for pid user s in (judge_role levels role, s'))
