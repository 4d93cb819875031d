-- ===== src/Errs/Mapper.antt =====
-- backend/internal/middleware/error_mapper.go and the envelope of backend/internal/pkg/httpx.
pub mod Laws
use sentinel_api_platform.Prelude.{ℕ, ◌||◌, String, if◌then◌else◌}
use sentinel_api_platform.Errs.{
  email_taken, invalid_credentials, user_not_found, user_inactive, invalid_token, token_expired,
  bad_request, not_found, forbidden, conflict, ai_disabled, daily_budget_exceeded,
  monthly_budget_exceeded, Error, is, text,
}

-- What `httpx.Fail` writes: the HTTP status, and the envelope's code and message.
pub record Failure : Type 0 where
  pub status : ℕ
  pub code : ℕ
  pub message : String

abbrev pub fail : ℕ → ℕ → String → Failure
fail status code message = record { status = status; code = code; message = message }

-- The ladder of `WriteError`. `driver` gives the texts of the MySQL driver's errors.
unfoldable pub write_error : (ℕ → String) → Error → Failure
write_error driver e =
    if is e bad_request
    then fail 400 40000 (text driver e)
    else if is e invalid_token
    then fail 401 40100 "invalid token"
    else if is e token_expired
    then fail 401 40101 "token expired"
    else if is e invalid_credentials
    then fail 401 40102 "invalid email or password"
    else if is e forbidden || is e user_inactive
    then fail 403 40300 (text driver e)
    else if is e not_found || is e user_not_found
    then fail 404 40400 (text driver e)
    else if is e conflict || is e email_taken
    then fail 409 40900 (text driver e)
    else if is e ai_disabled
    then fail 503 50300 (text driver e)
    else if is e daily_budget_exceeded || is e monthly_budget_exceeded
    then fail 429 42900 (text driver e)
    else fail 500 50000 "internal server error"
