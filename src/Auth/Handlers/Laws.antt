-- ===== src/Auth/Handlers/Laws.antt =====
-- When the handlers write the cookies of a session.
mod Tests
use sentinel_api_platform.Prelude.{
  ℕ, ◌≡◌, refl, inl, inr, String, Bool, true, false, ◌==◌, Option, none, some, List, [], Bool-cases,
  Option-cases, if◌then◌else◌,
}
use sentinel_api_platform.Errs.{Error, text}
use sentinel_api_platform.Errs.Mapper.{Failure, fail, write_error}
use sentinel_api_platform.Effects.{Result, ok, err, Call, Result-cases}
use sentinel_api_platform.Model.{User}
use sentinel_api_platform.Http.{Request, sent, failed, Binder}
use sentinel_api_platform.Gate.Cookies.{CookieConfig, set_auth_cookies}
use sentinel_api_platform.Auth.Service.{Session}
use sentinel_api_platform.Auth.Handlers.{
  AuthService, RegisterRequest, LoginRequest, Answer, session_answer, register_user, login_user,
  refresh_session,
}

module _ {S : Type 0} (svc : AuthService S) (driver : ℕ → String) (config : CookieConfig)
    (new_csrf : S → String × S) where
  -- An answer is a failure without cookies, or the user and the cookies of the session that a call
  -- of the service has given.
  pub data FromSession (call : Call S Session) (s : S) (a : Answer User) : Type 0 where
    fails : (f : Failure) → a.reply ≡ failed f → a.cookies ≡ [] → FromSession call s a
    opens :
        (session : Session) (csrf : String)
        → (call s).0 ≡ ok session
        → a.reply ≡ sent session.user
        → a.cookies ≡ set_auth_cookies config session.access session.refresh csrf
        → FromSession call s a

  session_answer-FromSession :
      (call : Call S Session) (s : S)
      → FromSession call s (session_answer svc driver config new_csrf call s).0
  unfolding session_answer
  session_answer-FromSession call s = elim (Result-cases (call s).0) [
    | inl (session, e) ↦ rw (e, session_answer) (opens session (new_csrf (call s).1).0 e refl refl)
    | inr (why, e) ↦ rw (e, session_answer) (fails (write_error driver why) refl refl)
  ]

  -- Where the bodies can be read, cookies are written by a registration, a login and a refresh only together with the user of the
  -- session that the service has opened for what the request holds, and with that session's
  -- tokens; every other answer is a failure that writes none.
  pub handlers-FromSession :
      (r : Request) (s : S) (read_account : Binder RegisterRequest) (account : RegisterRequest)
      (read_login : Binder LoginRequest) (login : LoginRequest) (token : String)
      → read_account r.body ≡ ok account
      → read_login r.body ≡ ok login
      → FromSession
          (svc.register account.email account.password account.display_name)
          s
          (register_user svc driver config new_csrf read_account r s).0
        × FromSession
            (svc.login login.email login.password)
            s
            (login_user svc driver config new_csrf read_login r s).0
        × FromSession
            (svc.refresh token)
            s
            (refresh_session svc driver config new_csrf (some token) s).0
  unfolding register_user login_user refresh_session
  handlers-FromSession r s read_account account read_login login token account_read login_read = (
    rw (account_read, register_user)
        (session_answer-FromSession
          (svc.register account.email account.password account.display_name) s),
    rw (login_read, login_user)
        (session_answer-FromSession (svc.login login.email login.password) s),
    elim (Bool-cases (token == "")) [
      | inl e ↦ rw e (fails (fail 401 40100 "missing refresh cookie") refl refl)
      | inr e ↦ rw e (session_answer-FromSession (svc.refresh token) s)
    ],
  )
