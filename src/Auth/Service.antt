-- ===== src/Auth/Service.antt =====
-- backend/internal/service/auth_service.go: registration, login, refresh and logout.
pub mod Laws
use sentinel_api_platform.Prelude.{
  ℕ, ◌+◌, String, Bool, true, false, not, ◌&&◌, ◌||◌, ◌==◌, ltb, leb, nat_eq, trim_space,
  contains_char, if◌then◌else◌,
}
use Prim.Native.Char.{code}
use Prim.Native.String.{[], ◌∷◌, ◌++◌}
use sentinel_api_platform.Errs.{
  Error, sentinel, wrapped, record_not_found, mysql_error, jwt_expired, other, is, not_found,
  bad_request, invalid_credentials, user_not_found, user_inactive, email_taken,
}
use sentinel_api_platform.Effects.{
  Result, ok, err, Call, pure, throw, guard, ◌>>=◌, ◌>>◌, map_err, wrap, ignore,
}
use sentinel_api_platform.Model.{User}

-- The interfaces `userStore` and `refreshTokenStore`.
pub record UserStore (S : Type 0) : Type 0 where
  pub create : User → Call S (Unit {0})
  pub find_by_email : String → Call S User
  pub find_by_id : String → Call S User

pub record TokenStore (S : Type 0) : Type 0 where
  pub generate_token : String → Call S String
  pub consume : String → Call S String
  pub revoke_all_for_user : String → Call S (Unit {0})
  pub lookup_user_id : String → Call S String

-- What is bound into the service: bcrypt with its cost, the signing of an access token, and
-- `strings.ToLower`.
pub record Crypto (S : Type 0) : Type 0 where
  pub hash : String → Call S String
  pub verify : String → String → Bool
  pub mint : User → Call S String
  pub to_lower : String → String

-- The user, the access token and the refresh token.
pub record Session : Type 0 where
  pub user : User
  pub access : String
  pub refresh : String

-- `len(s)`: the bytes of the text's UTF-8
abbrev pub byte_length : String → ℕ
byte_length [] = 0
byte_length (c ∷ s) =
    (if ltb (code c) 128
      then 1
      else if ltb (code c) 2048
      then 2
      else if ltb (code c) 65536
      then 3
      else 4)
    + byte_length s

-- `errors.As` to a MySQL error with the number 1062
abbrev pub is_duplicate_email : Error → Bool
is_duplicate_email (mysql_error n) = nat_eq n 1062
is_duplicate_email (wrapped _ e _) = is_duplicate_email e
is_duplicate_email _ = false

module _ {S : Type 0} (users : UserStore S) (tokens : TokenStore S) (crypto : Crypto S) where
  abbrev pub normalized : String → String
  normalized email = crypto.to_lower (trim_space email)

  pub validate_register_input : String → String → Call S (Unit {0})
  validate_register_input email plain = do
    guard (contains_char b'@' email) (wrapped "" (sentinel bad_request) ": email must contain '@'")
    guard (leb 8 (byte_length plain))
        (wrapped "" (sentinel bad_request) ": password must be >= 8 chars")
    guard (leb (byte_length plain) 72)
        (wrapped "" (sentinel bad_request) ": password must be <= 72 chars (bcrypt limit)")

  -- the two tokens of a user
  pub open_session : User → Call S Session
  open_session u = do
    access ← map_err (wrap "mint access token: ") (crypto.mint u)
    refresh ← map_err (wrap "generate refresh token: ") (tokens.generate_token u.id)
    pure (record { user = u; access = access; refresh = refresh })

  pub new_user : String → String → String → String → User
  new_user id email hash display_name = record {
    id = id;
    email = email;
    password_hash = hash;
    display_name = trim_space display_name;
    role = "viewer";
    is_active = true;
  }

  -- what follows the validation in `Register`; `id` is the one that `id.New` gives
  pub create_account : String → String → String → String → Call S Session
  create_account id email plain display_name = do
    hash ← map_err (wrap "hash password: ") (crypto.hash plain)
    map_err (λ e. if is_duplicate_email e then sentinel email_taken else wrap "create user: " e)
        (users.create (new_user id email hash display_name))
    open_session (new_user id email hash display_name)

  pub register : String → String → String → String → Call S Session
  register id email plain display_name = do
    validate_register_input (normalized email) plain
    create_account id (normalized email) plain display_name

  -- what follows the lookup in `Login`
  pub check_user : String → User → Call S Session
  check_user plain u = do
    guard u.is_active (sentinel invalid_credentials)
    guard (crypto.verify u.password_hash plain) (sentinel invalid_credentials)
    open_session u

  abbrev pub hide_missing : Error → Error
  hide_missing e = if is e not_found then sentinel invalid_credentials else wrap "lookup user: " e

  pub find_and_check : String → String → Call S Session
  find_and_check email plain = do
    u ← map_err hide_missing (users.find_by_email (normalized email))
    check_user plain u

  pub login : String → String → Call S Session
  login email plain = do
    guard (not (normalized email == "") && not (plain == "")) (sentinel invalid_credentials)
    find_and_check email plain

  pub me : String → Call S User
  me id = do
    u ←
        map_err (λ e. if is e not_found then sentinel user_not_found else wrap "lookup user: " e)
          (users.find_by_id id)
    guard u.is_active (sentinel user_inactive)
    pure u

  -- The text of the error is not kept as a chain: `%v`.
  pub refresh : (Error → String) → String → Call S Session
  refresh text token = do
    id ←
        map_err (λ e. wrapped "" (sentinel invalid_credentials) (": " ++ text e))
          (tokens.lookup_user_id token)
    u ← map_err (wrap "lookup user for refresh: ") (users.find_by_id id)
    guard u.is_active (sentinel invalid_credentials)
    session ← open_session u
    ignore (tokens.consume token)
    pure session

  pub logout : String → Call S (Unit {0})
  logout id = tokens.revoke_all_for_user id
