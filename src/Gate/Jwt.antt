-- ===== src/Gate/Jwt.antt =====
-- backend/internal/pkg/jwt/jwt.go: the claims of an access token. The JWT library is a parameter.
use sentinel_api_platform.Prelude.{ℕ, ◌+◌, String, Bool, false, true, ◌==◌, if◌then◌else◌}
use Prim.Native.String
use sentinel_api_platform.Errs.{
  Error, sentinel, other, wrapped, jwt_expired, invalid_token, token_expired,
}
use sentinel_api_platform.Effects.{Result, ok, err, wrap}

-- Times are in seconds.
pub record Claims : Type 0 where
  pub user_id : String
  pub email : String
  pub role : String
  pub issuer : String
  pub subject : String
  pub issued_at : ℕ
  pub expires_at : ℕ
  pub not_before : ℕ

-- The signing method that the header of a token names, by its `alg` where it is no HMAC.
pub data SigningMethod : Type 0 where
  hmac : SigningMethod
  other_method : String → SigningMethod

-- The function that `Parse` gives the library: the key for a token with such a header.
unfoldable pub key_for : String → SigningMethod → Result String
key_for secret hmac = ok secret
key_for secret (other_method alg) = err (other (String.◌++◌ "unexpected signing method: " alg))

-- What `jwt.ParseWithClaims` gives: the claims and whether the token is valid.
pub record Jwt : Type 0 where
  -- `secret`, then the claims: a text signed with HS256
  pub sign : String → Claims → Result String
  -- the key function, the time and the token
  pub parse_with_claims : (SigningMethod → Result String) → ℕ → String → Result (Claims × Bool)

-- `errors.Is(err, jwt.ErrTokenExpired)`
abbrev pub is_expired : Error → Bool
is_expired jwt_expired = true
is_expired (wrapped _ e _) = is_expired e
is_expired _ = false

abbrev pub claims_of : String → String → String → ℕ → ℕ → Claims
claims_of user_id email role now ttl = record {
  user_id = user_id;
  email = email;
  role = role;
  issuer = "sentinel";
  subject = user_id;
  issued_at = now;
  expires_at = now + ttl;
  not_before = now;
}

abbrev signed : Result String → Result String
signed (ok token) = ok token
signed (err e) = err (wrap "sign jwt: " e)

-- The two errors of a token that cannot be read; the library's own error is kept beside
-- ErrInvalidToken in the code, and left out here.
abbrev pub parsed : Result (Claims × Bool) → Result Claims
parsed (ok (claims, valid)) = if valid then ok claims else err (sentinel invalid_token)
parsed (err e) =
    if is_expired e
    then err (sentinel token_expired)
    else err (wrapped "" (sentinel invalid_token) ": ")

module _ (jwt : Jwt) where
  pub mint : String → String → String → String → ℕ → ℕ → Result String
  mint secret user_id email role now ttl =
      signed (jwt.sign secret (claims_of user_id email role now ttl))

  unfoldable pub parse : String → ℕ → String → Result Claims
  parse secret now token =
      if token == ""
      then err (sentinel invalid_token)
      else parsed (jwt.parse_with_claims (key_for secret) now token)
