-- ===== src/Gate/Auth.antt =====
-- backend/internal/middleware/auth.go: who the caller of a request is, by a bearer token, by the
-- access cookie, or by a query parameter.
pub mod Laws
use sentinel_api_platform.Prelude.{
  ℕ, String, Bool, true, false, ◌==◌, Option, none, some, nat_eq, trim_space, if◌then◌else◌,
}
use Prim.Native.Char.{code}
use Prim.Native.String.{[], ◌∷◌}
use sentinel_api_platform.Errs.{Error, is, token_expired}
use sentinel_api_platform.Effects.{Result, ok, err}
use sentinel_api_platform.Gate.Jwt.{Jwt, Claims, parse}

-- What the middleware does: it puts the claims into the context and calls the next handler, or it
-- aborts with status 401 and a message. The flag is the header X-Token-Expired.
pub data Verdict : Type 0 where
  admits : Claims → Verdict
  aborts : Bool → String → Verdict

-- `header[len(prefix):]`, where `strings.HasPrefix(header, prefix)`
abbrev pub after_prefix : String → String → Option String
after_prefix [] t = some t
after_prefix (c ∷ s) [] = none
after_prefix (c ∷ s) (d ∷ t) =
    let rest = after_prefix s t in if nat_eq (code c) (code d) then rest else none

module _ (jwt : Jwt) (secret : String) (now : ℕ) where
  -- the answer to a token that was given
  abbrev pub judged : Bool → String → Result Claims → Verdict
  judged flags invalid (ok claims) = admits claims
  judged flags invalid (err e) =
      if is e token_expired then aborts flags "token expired" else aborts false invalid

  -- `header` is the one of Authorization, empty where there is none.
  unfoldable pub auth_required : String → Verdict
  auth_required header =
      if header == ""
      then aborts false "missing Authorization header"
      else elim (after_prefix "Bearer " header) [
        | none ↦ aborts false "Authorization header must use Bearer scheme"
        | some token ↦ judged false "invalid token" (parse jwt secret now (trim_space token))
      ]

  -- The cookie, `none` where the request has none.
  unfoldable pub cookie_auth_required : Option String → Verdict
  cookie_auth_required none = aborts false "missing access cookie"
  cookie_auth_required (some token) =
      if token == ""
      then aborts false "missing access cookie"
      else judged true "invalid access token" (parse jwt secret now token)

  unfoldable pub token_query_auth : String → Verdict
  token_query_auth token =
      if token == ""
      then aborts false "missing token query parameter"
      else judged false "invalid token" (parse jwt secret now token)
