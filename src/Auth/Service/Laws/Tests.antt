-- ===== src/Auth/Service/Laws/Tests.antt =====
-- The theorems on logins at a store with one user.
use sentinel_api_platform.Prelude.{
  ℕ, ◌≡◌, refl, true, false, ◌==◌, if◌then◌else◌, trim_space, contains_char, ◌≤◌,
}
use sentinel_api_platform.Errs.{sentinel, not_found, invalid_credentials}
use sentinel_api_platform.Effects.{ok, err}
use sentinel_api_platform.Model.{User}
use sentinel_api_platform.Auth.Service.{
  UserStore, TokenStore, Crypto, Session, normalized, open_session, check_user, find_and_check,
  login, register, validate_register_input, create_account, new_user, byte_length,
}
use sentinel_api_platform.Auth.Service.Laws.{
  login_ok, wrong_password, login-Refused, register_bounds,
}

abbrev ann : User
ann = record {
  id = "u1";
  email = "ann@pets";
  password_hash = "secret99";
  display_name = "Ann";
  role = "viewer";
  is_active = true;
}

abbrev users : UserStore ℕ
users = record {
  create = λ u n. (ok tt, n);
  find_by_email = λ email n. (if email == "ann@pets" then ok ann else err (sentinel not_found), n);
  find_by_id = λ id n. (if id == "u1" then ok ann else err (sentinel not_found), n);
}

abbrev token_store : TokenStore ℕ
token_store = record {
  generate_token = λ id n. (ok "r1", n);
  consume = λ token n. (ok "u1", n);
  revoke_all_for_user = λ id n. (ok tt, n);
  lookup_user_id = λ token n. (ok "u1", n);
}

-- The hash of the tests is the password itself.
abbrev crypto : Crypto ℕ
crypto = record {
  hash = λ plain n. (ok plain, n);
  verify = λ hash plain. hash == plain;
  mint = λ u n. (ok "a1", n);
  to_lower = λ s. s;
}

abbrev session : Session
session = record { user = ann; access = "a1"; refresh = "r1" }

login_run : (login users token_store crypto " ann@pets" "secret99" 0).0 ≡ ok session
unfolding login find_and_check check_user open_session trim_space
login_run = refl

login_ok_example :
    ((users.find_by_email (normalized users token_store crypto " ann@pets") 0).0 ≡ ok session.user)
    × (session.user.is_active ≡ true)
    × (crypto.verify session.user.password_hash "secret99" ≡ true)
    × (("secret99" == "") ≡ false)
login_ok_example = login_ok users token_store crypto " ann@pets" "secret99" 0 session login_run

login-Refused_example :
    (login users token_store crypto "ann@pets" "guess" 0).0 ≡ err (sentinel invalid_credentials)
unfolding trim_space
login-Refused_example =
    login-Refused users token_store crypto "ann@pets" "guess" 0 (wrong_password ann refl refl refl)

register_run : (register users token_store crypto "u1" "ann@pets" "secret99" "Ann" 0).0 ≡ ok session
unfolding register validate_register_input create_account new_user open_session trim_space
    contains_char
register_run = refl

register_bounds_example :
    (contains_char b'@' (normalized users token_store crypto "ann@pets") ≡ true)
    × (8 ≤ byte_length "secret99")
    × (byte_length "secret99" ≤ 72)
register_bounds_example =
    register_bounds users token_store crypto "u1" "ann@pets" "secret99" "Ann" 0 session register_run
