-- ===== src/Gate/Csrf.antt =====
-- backend/internal/middleware/csrf.go: the double submit of the CSRF token.
pub mod Laws
use sentinel_api_platform.Prelude.{String, Bool, ◌||◌, ◌==◌, Option, none, some, if◌then◌else◌}
use sentinel_api_platform.Errs.Mapper.{Failure, fail}

-- What the middleware does: it calls the next handler, or it writes an error and aborts.
pub data Verdict : Type 0 where
  goes_on : Verdict
  aborts : Failure → Verdict

abbrev pub is_safe_method : String → Bool
is_safe_method m = m == "GET" || m == "HEAD" || m == "OPTIONS"

-- The header is empty where the request has none.
abbrev pub check_header : String → String → Verdict
check_header cookie header =
    if header == ""
    then aborts (fail 403 40301 "missing X-CSRF-Token header")
    else if cookie == header
    then goes_on
    else aborts (fail 403 40301 "CSRF token mismatch")

abbrev pub check_cookie : Option String → String → Verdict
check_cookie none header = aborts (fail 403 40301 "missing CSRF cookie — re-authenticate")
check_cookie (some cookie) header =
    if cookie == ""
    then aborts (fail 403 40301 "missing CSRF cookie — re-authenticate")
    else check_header cookie header

unfoldable pub csrf_required : String → Option String → String → Verdict
csrf_required method cookie header =
    if is_safe_method method then goes_on else check_cookie cookie header
