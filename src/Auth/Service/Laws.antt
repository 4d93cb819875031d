-- ===== src/Auth/Service/Laws.antt =====
-- Who gets a session, and what a refused login tells.
mod Tests
use sentinel_api_platform.Prelude.{
  ℕ, ◌≤◌, ◌≡◌, refl, sym, ap, ◌∙◌, inl, inr, String, Bool, true, false, not, ◌&&◌, ◌==◌, leb, arith,
  Bool-cases, contains_char, if◌then◌else◌,
}
use sentinel_api_platform.Errs.{
  Error, sentinel, wrapped, bad_request, is, not_found, invalid_credentials,
}
use sentinel_api_platform.Effects.{
  ok_injective, Result, ok, err, Call, pure, guard, ◌>>=◌, ◌>>◌, map_err, wrap, Result-cases,
  bind-ok, map_err-ok, map_err-ok_of, map_err-err_of, bind-ok_of, bind-err_of,
}
use sentinel_api_platform.Model.{User}
use sentinel_api_platform.Auth.Service.{
  UserStore, TokenStore, Crypto, Session, byte_length, normalized, open_session, check_user,
  hide_missing, find_and_check, login, register, create_account, validate_register_input,
}

guard_ok :
    {S A : Type 0} (b : Bool) (e : Error) (k : Call S A) (s : S) (a : A)
    → ((guard b e >> k) s).0 ≡ ok a
    → (b ≡ true) × ((k s).0 ≡ ok a)
guard_ok true e k s a h = (refl, h)
guard_ok false e k s a h = ground arith

leb_le : (a b : ℕ) → leb a b ≡ true → a ≤ b
leb_le a b h = ground arith

guard_le : {S : Type 0} (a b : ℕ) (e : Error) (s : S) → (guard (leb a b) e s).0 ≡ ok tt → a ≤ b
guard_le a b e s h = elim (Bool-cases (leb a b)) [
  | inl t ↦ leb_le a b t
  | inr f ↦ (let stuck = rw f at h in ground arith)
]

module _ {S : Type 0} (users : UserStore S) (tokens : TokenStore S) (crypto : Crypto S) where
  session_user :
      (u : User) (s : S) (session : Session)
      → (open_session users tokens crypto u s).0 ≡ ok session
      → session.user ≡ u
  unfolding open_session
  session_user u s session h =
      let mint = map_err (wrap "mint access token: ") (crypto.mint u) in
      let generate = map_err (wrap "generate refresh token: ") (tokens.generate_token u.id) in
      let (access, _, same) =
        bind-ok mint
          (λ access.
            generate >>= λ refresh. pure (record { user = u; access = access; refresh = refresh }))
          s session h in
      let (refresh, _, same₂) =
        bind-ok generate (λ refresh. pure (record { user = u; access = access; refresh = refresh }))
          (mint s).1 session (ap (λ x. x.0) (sym same) ∙ h) in
      let last : ok (record { user = u; access = access; refresh = refresh }) ≡ ok session =
        ap (λ x. x.0) (sym same₂) ∙ ap (λ x. x.0) (sym same) ∙ h in
      sym (ap (λ x. x.user) (ok_injective last))

  -- A login that succeeds is that of a user who was found by the normalized email, whose account is
  -- active, and whose password the given one is.
  pub login_ok :
      (email plain : String) (s : S) (session : Session)
      → (login users tokens crypto email plain s).0 ≡ ok session
      → ((users.find_by_email (normalized users tokens crypto email) s).0 ≡ ok session.user)
        × (session.user.is_active ≡ true)
        × (crypto.verify session.user.password_hash plain ≡ true)
        × ((plain == "") ≡ false)
  unfolding login find_and_check check_user
  login_ok email plain s session h =
      let (asked, h₁) =
        guard_ok (not (normalized users tokens crypto email == "") && not (plain == ""))
          (sentinel invalid_credentials) (find_and_check users tokens crypto email plain) s session
          h in
      let find = users.find_by_email (normalized users tokens crypto email) in
      let found = map_err (hide_missing users tokens crypto) find in
      let (u, there, same) = bind-ok found (check_user users tokens crypto plain) s session h₁ in
      let h₂ = ap (λ x. x.0) (sym same) ∙ h₁ in
      let s₁ = (found s).1 in
      let checked =
        guard (crypto.verify u.password_hash plain) (sentinel invalid_credentials)
        >> open_session users tokens crypto u in
      let (active, h₃) =
        guard_ok u.is_active (sentinel invalid_credentials) checked s₁ session h₂ in
      let (verified, h₄) =
        guard_ok (crypto.verify u.password_hash plain) (sentinel invalid_credentials)
          (open_session users tokens crypto u) s₁ session h₃ in
      let same_user = session_user u s₁ session h₄ in
      (
        map_err-ok (hide_missing users tokens crypto) find s u there ∙ ap ok (sym same_user),
        ap (λ x. x.is_active) same_user ∙ active,
        ap (λ x. crypto.verify x.password_hash plain) same_user ∙ verified,
        ground arith,
      )

  -- The ways in which a login can be refused.
  pub data Refused (email plain : String) (s : S) : Type 0 where
    unknown :
        (e : Error)
        → (users.find_by_email (normalized users tokens crypto email) s).0 ≡ err e
        → is e not_found ≡ true
        → Refused email plain s
    disabled :
        (u : User)
        → (users.find_by_email (normalized users tokens crypto email) s).0 ≡ ok u
        → u.is_active ≡ false
        → Refused email plain s
    wrong_password :
        (u : User)
        → (users.find_by_email (normalized users tokens crypto email) s).0 ≡ ok u
        → u.is_active ≡ true
        → crypto.verify u.password_hash plain ≡ false
        → Refused email plain s

  find-Refused :
      (email plain : String) (s : S)
      → Refused email plain s
      → (find_and_check users tokens crypto email plain s).0 ≡ err (sentinel invalid_credentials)
  unfolding find_and_check check_user
  find-Refused email plain s (unknown e missing none_there) =
      let find = users.find_by_email (normalized users tokens crypto email) in
      let hide = hide_missing users tokens crypto in
      bind-err_of (map_err hide find) (check_user users tokens crypto plain) s (hide e)
        (map_err-err_of hide find s e missing)
      ∙ rw none_there refl
  find-Refused email plain s (disabled u there off) =
      let find = users.find_by_email (normalized users tokens crypto email) in
      let hide = hide_missing users tokens crypto in
      bind-ok_of (map_err hide find) (check_user users tokens crypto plain) s u
        (map_err-ok_of hide find s u there)
      ∙ rw off refl
  find-Refused email plain s (wrong_password u there on wrong) =
      let find = users.find_by_email (normalized users tokens crypto email) in
      let hide = hide_missing users tokens crypto in
      bind-ok_of (map_err hide find) (check_user users tokens crypto plain) s u
        (map_err-ok_of hide find s u there)
      ∙ rw (on, wrong) refl

  -- An unknown email, a disabled account and a wrong password are answered with the same error, so
  -- that a refused login does not tell which emails are registered.
  pub login-Refused :
      (email plain : String) (s : S)
      → Refused email plain s
      → (login users tokens crypto email plain s).0 ≡ err (sentinel invalid_credentials)
  unfolding login
  login-Refused email plain s r =
      elim (Bool-cases (not (normalized users tokens crypto email == "") && not (plain == ""))) [
        | inl e ↦ rw (e, login) (find-Refused email plain s r)
        | inr e ↦ rw (e, login) refl
      ]

  -- A registration that succeeds had an email with an "@" after normalization, and a password of
  -- 8 to 72 bytes, which is what bcrypt reads.
  pub register_bounds :
      (id email plain display_name : String) (s : S) (session : Session)
      → (register users tokens crypto id email plain display_name s).0 ≡ ok session
      → (contains_char b'@' (normalized users tokens crypto email) ≡ true)
        × (8 ≤ byte_length plain)
        × (byte_length plain ≤ 72)
  unfolding register validate_register_input
  register_bounds id email plain display_name s session h =
      let check =
        validate_register_input users tokens crypto (normalized users tokens crypto email) plain in
      let rest =
        create_account users tokens crypto id (normalized users tokens crypto email) plain
          display_name in
      let (_, valid, _) = bind-ok check (λ _. rest) s session h in
      let short =
        guard (leb 8 (byte_length plain))
          (wrapped "" (sentinel bad_request) ": password must be >= 8 chars") in
      let long =
        guard (leb (byte_length plain) 72)
          (wrapped "" (sentinel bad_request) ": password must be <= 72 chars (bcrypt limit)") in
      let (at, h₁) =
        guard_ok (contains_char b'@' (normalized users tokens crypto email))
          (wrapped "" (sentinel bad_request) ": email must contain '@'") (short >> long) s tt
          valid in
      let (low, h₂) =
        guard_ok (leb 8 (byte_length plain))
          (wrapped "" (sentinel bad_request) ": password must be >= 8 chars") long s tt h₁ in
      (at, leb_le 8 (byte_length plain) low, guard_le (byte_length plain) 72 _ s h₂)
