-- ===== src/Errs/Mapper/Laws.antt =====
-- The status and the code of a response depend on the sentinel at the end of the error's chain
-- alone, and an error without one is answered with a fixed text.
mod Tests
use sentinel_api_platform.Prelude.{ℕ, ◌/◌, ◌≡◌, refl, ◌∙◌, String, Option, none, some, arith}
use sentinel_api_platform.Errs.{
  Sentinel, email_taken, invalid_credentials, user_not_found, user_inactive, invalid_token,
  token_expired, bad_request, not_found, forbidden, conflict, ai_disabled, daily_budget_exceeded,
  monthly_budget_exceeded, Error, sentinel, wrapped, record_not_found, mysql_error, jwt_expired,
  other,
}
use sentinel_api_platform.Errs.Mapper.{write_error}

-- The sentinel at the end of the chain.
abbrev pub root : Error → Option Sentinel
root (sentinel s) = some s
root (wrapped _ e _) = root e
root _ = none

-- The table of the package's documentation.
abbrev pub table : Option Sentinel → ℕ × ℕ
table (some bad_request) = (400, 40000)
table (some invalid_token) = (401, 40100)
table (some token_expired) = (401, 40101)
table (some invalid_credentials) = (401, 40102)
table (some forbidden) = (403, 40300)
table (some user_inactive) = (403, 40300)
table (some not_found) = (404, 40400)
table (some user_not_found) = (404, 40400)
table (some conflict) = (409, 40900)
table (some email_taken) = (409, 40900)
table (some ai_disabled) = (503, 50300)
table (some daily_budget_exceeded) = (429, 42900)
table (some monthly_budget_exceeded) = (429, 42900)
table none = (500, 50000)

write_error-wrapped :
    (driver : ℕ → String) (pre post : String) (e : Error)
    → ((write_error driver (wrapped pre e post)).status ≡ (write_error driver e).status)
      × ((write_error driver (wrapped pre e post)).code ≡ (write_error driver e).code)
unfolding write_error
write_error-wrapped driver pre post e = ground arith

write_error-sentinel :
    (driver : ℕ → String) (s : Sentinel)
    → ((write_error driver (sentinel s)).status ≡ (table (some s)).0)
      × ((write_error driver (sentinel s)).code ≡ (table (some s)).1)
unfolding write_error
write_error-sentinel driver email_taken = (refl, refl)
write_error-sentinel driver _ = (refl, refl)

-- However deep an error is wrapped, the status and the application code are those that the table
-- gives for the sentinel at the end of its chain, 500 and 50000 where there is none.
pub write_error-table :
    (driver : ℕ → String) (e : Error)
    → ((write_error driver e).status ≡ (table (root e)).0)
      × ((write_error driver e).code ≡ (table (root e)).1)
unfolding write_error
write_error-table driver (sentinel s) = write_error-sentinel driver s
write_error-table driver (wrapped pre e post) =
    let (status, code) = write_error-wrapped driver pre post e in
    let (status', code') = write_error-table driver e in (status ∙ status', code ∙ code')
write_error-table driver record_not_found = (refl, refl)
write_error-table driver (mysql_error n) = (refl, refl)
write_error-table driver jwt_expired = (refl, refl)
write_error-table driver (other t) = (refl, refl)

-- The message of a response with status 500 is fixed: nothing of the error's text is in it.
pub write_error_hides :
    (driver : ℕ → String) (e : Error)
    → (write_error driver e).status ≡ 500
    → (write_error driver e).message ≡ "internal server error"
unfolding write_error
write_error_hides driver e h = ground arith

-- The application code of every response begins with the three digits of its HTTP status.
pub write_error_code :
    (driver : ℕ → String) (e : Error)
    → (write_error driver e).code / 100 ≡ (write_error driver e).status
unfolding write_error
write_error_code driver e = ground arith
