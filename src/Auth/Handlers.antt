-- ===== src/Auth/Handlers.antt =====
-- backend/internal/api/auth.go: the HTTP handlers of the authentication, over the service, with the
-- cookies that they write.
pub mod Laws
use sentinel_api_platform.Prelude.{ℕ, String, ◌==◌, Option, none, some, List, [], if◌then◌else◌}
use sentinel_api_platform.Errs.{text}
use sentinel_api_platform.Errs.Mapper.{Failure, fail, write_error}
use sentinel_api_platform.Effects.{Result, ok, err, Call}
use sentinel_api_platform.Model.{User}
use sentinel_api_platform.Http.{Request, Reply, sent, failed, Binder}
use sentinel_api_platform.Gate.Cookies.{CookieConfig, Cookie, set_auth_cookies, clear_auth_cookies}
use sentinel_api_platform.Auth.Service.{Session}

-- The service's methods; a registration and a login are given the email and the password first.
pub record AuthService (S : Type 0) : Type 0 where
  pub register : String → String → String → Call S Session
  pub login : String → String → Call S Session
  pub me : String → Call S User
  pub refresh : String → Call S Session
  pub logout : String → Call S (Unit {0})

pub record RegisterRequest : Type 0 where
  pub email : String
  pub password : String
  pub display_name : String

pub record LoginRequest : Type 0 where
  pub email : String
  pub password : String

-- A reply with the cookies that are written before it.
pub record Answer (A : Type 0) : Type 0 where
  pub reply : Reply A
  pub cookies : List Cookie

abbrev pub plain : {A : Type 0} → Reply A → Answer A
plain r = record { reply = r; cookies = [] }

abbrev pub no_user : Failure
no_user = fail 500 50001 "user_id missing from request context — route not protected"

-- `new_csrf` is `GenerateCSRFToken`, from the system's source of random bytes.
module _ {S : Type 0} (svc : AuthService S) (driver : ℕ → String) (config : CookieConfig)
    (new_csrf : S → String × S) where
  abbrev pub with_session : Session → String → Answer User
  with_session session csrf = record {
    reply = sent session.user;
    cookies = set_auth_cookies config session.access session.refresh csrf;
  }

  -- what follows a call of the service that gives a session
  pub session_answer : Call S Session → S → Answer User × S
  session_answer call s =
      let (r, s₁) = call s in
      elim r [
        | ok session ↦ (let (csrf, s₂) = new_csrf s₁ in (with_session session csrf, s₂))
        | err e ↦ (plain (failed (write_error driver e)), s₁)
      ]

  pub register_user : Binder RegisterRequest → Request → S → Answer User × S
  register_user bind r s = elim (bind r.body) [
    | ok q ↦ session_answer (svc.register q.email q.password q.display_name) s
    | err e ↦ (plain (failed (fail 400 40000 (text driver e))), s)
  ]

  pub login_user : Binder LoginRequest → Request → S → Answer User × S
  login_user bind r s = elim (bind r.body) [
    | ok q ↦ session_answer (svc.login q.email q.password) s
    | err e ↦ (plain (failed (fail 400 40000 (text driver e))), s)
  ]

  pub show_me : Request → S → Answer User × S
  show_me r s =
      if r.user_id == ""
      then (plain (failed no_user), s)
      else (let (found, s') = svc.me r.user_id s in
          elim found [
            | ok u ↦ (plain (sent u), s')
            | err e ↦ (plain (failed (write_error driver e)), s')
          ])

  -- The cookie, `none` where the request has none.
  pub refresh_session : Option String → S → Answer User × S
  refresh_session none s = (plain (failed (fail 401 40100 "missing refresh cookie")), s)
  refresh_session (some token) s =
      if token == ""
      then (plain (failed (fail 401 40100 "missing refresh cookie")), s)
      else session_answer (svc.refresh token) s

  pub logout_user : Request → S → Answer (Unit {0}) × S
  logout_user r s =
      if r.user_id == ""
      then (plain (failed no_user), s)
      else (let (done, s') = svc.logout r.user_id s in
          elim done [
            | ok _ ↦ (record { reply = sent tt; cookies = clear_auth_cookies config }, s')
            | err e ↦ (plain (failed (write_error driver e)), s')
          ])
