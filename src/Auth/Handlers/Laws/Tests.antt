-- ===== src/Auth/Handlers/Laws/Tests.antt =====
-- A service with one user.
use sentinel_api_platform.Prelude.{refl, ℕ, suc, String, true, false, ◌==◌, some, if◌then◌else◌}
use sentinel_api_platform.Errs.{sentinel, invalid_credentials, invalid_token}
use sentinel_api_platform.Effects.{ok, err}
use sentinel_api_platform.Model.{User}
use sentinel_api_platform.Http.{Request, Binder}
use sentinel_api_platform.Gate.Cookies.{CookieConfig}
use sentinel_api_platform.Auth.Service.{Session}
use sentinel_api_platform.Auth.Handlers.{
  AuthService, RegisterRequest, LoginRequest, register_user, login_user, refresh_session,
}
use sentinel_api_platform.Auth.Handlers.Laws.{FromSession, handlers-FromSession}

abbrev ann : User
ann = record {
  id = "u1";
  email = "ann@x.org";
  password_hash = "h";
  display_name = "Ann";
  role = "user";
  is_active = true;
}

abbrev her_session : Session
her_session = record { user = ann; access = "t1"; refresh = "r1" }

abbrev service : AuthService ℕ
service = record {
  register = λ email password name n. (ok her_session, suc n);
  login = λ email password n.
      (if password == "secret" then ok her_session else err (sentinel invalid_credentials), n);
  me = λ id n. (ok ann, n);
  refresh = λ token n. (if token == "r1" then ok her_session else err (sentinel invalid_token), n);
  logout = λ id n. (ok tt, n);
}

abbrev driver : ℕ → String
driver n = ""

abbrev local : CookieConfig
local = record { secure = false; domain = "" }

abbrev new_csrf : ℕ → String × ℕ
new_csrf n = ("c1", suc n)

abbrev from_browser : Request
from_browser = record { user_id = ""; param = λ _. ""; query = λ _. ""; body = "{}" }

abbrev account : RegisterRequest
account = record { email = "ann@x.org"; password = "secret99"; display_name = "Ann" }

abbrev wrong_login : LoginRequest
wrong_login = record { email = "ann@x.org"; password = "guess" }

abbrev read_account : Binder RegisterRequest
read_account body = ok account

abbrev read_login : Binder LoginRequest
read_login body = ok wrong_login

handlers-FromSession_example :
    FromSession service driver local new_csrf
      (service.register "ann@x.org" "secret99" "Ann")
      0
      (register_user service driver local new_csrf read_account from_browser 0).0
    × FromSession service driver local new_csrf
        (service.login "ann@x.org" "guess")
        0
        (login_user service driver local new_csrf read_login from_browser 0).0
    × FromSession service driver local new_csrf
        (service.refresh "r1")
        0
        (refresh_session service driver local new_csrf (some "r1") 0).0
handlers-FromSession_example =
    handlers-FromSession service driver local new_csrf from_browser 0 read_account account
      read_login wrong_login "r1" refl refl
