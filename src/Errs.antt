-- ===== src/Errs.antt =====
-- Errors as values: backend/internal/pkg/errs/errs.go and codes.go, the sentinels of
-- backend/internal/ai/provider.go, and the chains that `fmt.Errorf` builds with `%w`.
pub mod Mapper
use sentinel_api_platform.Prelude.{String, Bool, true, false, nat_eq}
use Prim.Native.Nat.{ℕ}
use Prim.Native.String.{◌++◌}

-- The sentinel errors of `errs`, then the three of `ai`.
pub data Sentinel : Type 0 where
  email_taken invalid_credentials user_not_found user_inactive invalid_token token_expired :
      Sentinel
  bad_request not_found forbidden conflict : Sentinel
  ai_disabled daily_budget_exceeded monthly_budget_exceeded : Sentinel

-- An error value. `wrapped pre e post` is the text `pre` and `post` round an error kept by `%w`.
pub data Error : Type 0 where
  sentinel : Sentinel → Error
  wrapped : String → Error → String → Error
  -- gorm.ErrRecordNotFound, mysql.MySQLError by its number, jwt.ErrTokenExpired of the JWT library
  record_not_found : Error
  mysql_error : ℕ → Error
  jwt_expired : Error
  -- any other error, by its text
  other : String → Error

unfoldable pub sentinel_text : Sentinel → String
sentinel_text email_taken = "email already in use"
sentinel_text invalid_credentials = "invalid email or password"
sentinel_text user_not_found = "user not found"
sentinel_text user_inactive = "user account is disabled"
sentinel_text invalid_token = "invalid token"
sentinel_text token_expired = "token expired"
sentinel_text bad_request = "bad request"
sentinel_text not_found = "record not found"
sentinel_text forbidden = "forbidden"
sentinel_text conflict = "conflict"
sentinel_text ai_disabled = "ai: AI is disabled"
sentinel_text daily_budget_exceeded = "ai: daily budget exceeded"
sentinel_text monthly_budget_exceeded = "ai: monthly budget exceeded"

-- Equality of sentinels, which Go compares by pointer.
abbrev pub sentinel_number : Sentinel → ℕ
sentinel_number email_taken = 0
sentinel_number invalid_credentials = 1
sentinel_number user_not_found = 2
sentinel_number user_inactive = 3
sentinel_number invalid_token = 4
sentinel_number token_expired = 5
sentinel_number bad_request = 6
sentinel_number not_found = 7
sentinel_number forbidden = 8
sentinel_number conflict = 9
sentinel_number ai_disabled = 10
sentinel_number daily_budget_exceeded = 11
sentinel_number monthly_budget_exceeded = 12

abbrev pub same_sentinel : Sentinel → Sentinel → Bool
same_sentinel a b = nat_eq (sentinel_number a) (sentinel_number b)

-- `errors.Is(err, s)` for a sentinel
abbrev pub is : Error → Sentinel → Bool
is (sentinel t) s = same_sentinel t s
is (wrapped _ e _) s = is e s
is _ s = false

-- `err.Error()`; the driver's number stands in place of its text, which is the driver's.
unfoldable pub text : (ℕ → String) → Error → String
unfolding sentinel_text
text driver (sentinel s) = sentinel_text s
text driver (wrapped pre e post) = pre ++ (text driver e ++ post)
text driver record_not_found = "record not found"
text driver (mysql_error n) = driver n
text driver jwt_expired = "token is expired"
text driver (other s) = s

-- `CodeFor`: a lookup by the error itself, so a wrapped sentinel has no code.
unfoldable pub code_for : Error → String
code_for (sentinel email_taken) = "AUTH_EMAIL_TAKEN"
code_for (sentinel invalid_credentials) = "AUTH_INVALID_CREDENTIALS"
code_for (sentinel user_not_found) = "AUTH_USER_NOT_FOUND"
code_for (sentinel user_inactive) = "AUTH_USER_INACTIVE"
code_for (sentinel invalid_token) = "AUTH_INVALID_TOKEN"
code_for (sentinel token_expired) = "AUTH_TOKEN_EXPIRED"
code_for (sentinel bad_request) = "BAD_REQUEST"
code_for (sentinel not_found) = "NOT_FOUND"
code_for (sentinel forbidden) = "FORBIDDEN"
code_for (sentinel conflict) = "CONFLICT"
code_for _ = ""
