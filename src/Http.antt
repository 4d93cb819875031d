-- ===== src/Http.antt =====
-- The parts of a gin handler that the handlers of backend/internal/api share: what they read of a
-- request, what they write through backend/internal/pkg/httpx, and their first guards. The request
-- id of the envelope is the same for every answer to a request and left out.
use sentinel_api_platform.Prelude.{ℕ, String, ◌==◌, if◌then◌else◌}
use sentinel_api_platform.Errs.{text}
use sentinel_api_platform.Errs.Mapper.{Failure, fail, write_error}
use sentinel_api_platform.Effects.{Result, ok, err, Call}

-- `c.GetString("user_id")`, `c.Param`, `c.Query` and the body
pub record Request : Type 0 where
  pub user_id : String
  pub param : String → String
  pub query : String → String
  pub body : String

-- `httpx.OK` with its data, of which `nil` is the unit, or `httpx.Fail`
pub data Reply (A : Type 0) : Type 0 where
  sent : A → Reply A
  failed : Failure → Reply A

abbrev pub Handler : Type 0 → Type 0 → Type 0
Handler S A = S → Reply A × S

-- `ShouldBindJSON` into a request type, which checks its `binding` tags too
abbrev pub Binder : Type 0 → Type 0
Binder B = String → Result B

-- `if err != nil { middleware.WriteError(c, err); return }; httpx.OK(c, a)`
unfoldable pub reply_of : {A : Type 0} → (ℕ → String) → Result A → Reply A
reply_of driver (ok a) = sent a
reply_of driver (err e) = failed (write_error driver e)

abbrev pub answer : {S A : Type 0} → (ℕ → String) → Call S A → Handler S A
answer driver call s = let (r, s') = call s in (reply_of driver r, s')

-- The guard on the caller, which the authentication middleware sets.
abbrev pub with_user : {S A : Type 0} → Request → (String → Handler S A) → Handler S A
with_user r k s =
    if r.user_id == ""
    then (failed (fail 500 50001 "user_id missing from request context — route not protected"), s)
    else k r.user_id s

-- The guard on the body.
abbrev pub with_body :
    {S A B : Type 0} → (ℕ → String) → Binder B → Request → (B → Handler S A) → Handler S A
with_body driver bind r k s = elim (bind r.body) [
  | ok b ↦ k b s
  | err e ↦ (failed (fail 400 40000 (text driver e)), s)
]
