-- ===== src/Gate/Auth/Laws/Tests.antt =====
-- A library that accepts one token.
use sentinel_api_platform.Prelude.{
  ◌≡◌, refl, Bool, String, true, ◌==◌, some, trim_space, if◌then◌else◌,
}
use sentinel_api_platform.Errs.{other, jwt_expired}
use sentinel_api_platform.Effects.{Result, ok, err}
use sentinel_api_platform.Gate.Jwt.{Jwt, Claims, hmac, other_method, key_for, claims_of, parse}
use sentinel_api_platform.Gate.Auth.{admits, aborts, auth_required, cookie_auth_required}
use sentinel_api_platform.Gate.Auth.Laws.{Accepted, in_header, token_in, admitted_claims}

abbrev ann : Claims
ann = claims_of "ann" "ann@x.org" "user" 100 900

abbrev with_key : Result String → Result (Claims × Bool)
with_key (ok secret) = ok (ann, secret == "key")
with_key (err e) = err e

-- The token "t1" is signed by HS256, and "t2" names another method.
abbrev library : Jwt
library = record {
  sign = λ secret claims. ok "t1";
  parse_with_claims = λ key now token.
      if token == "t1"
      then with_key (key hmac)
      else if token == "t2"
      then with_key (key (other_method "RS256"))
      else if token == "t0"
      then err jwt_expired
      else err (other "malformed");
}

bearer_run : auth_required library "key" 200 "Bearer t1" ≡ admits ann
unfolding auth_required parse trim_space key_for
bearer_run = refl

admitted_claims_example :
    (token : String) × (token_in library "key" 200 (in_header "Bearer t1") ≡ some token)
    × Accepted library "key" 200 token ann
admitted_claims_example = admitted_claims library "key" 200 (in_header "Bearer t1") ann bearer_run

expired_run : cookie_auth_required library "key" 200 (some "t0") ≡ aborts true "token expired"
unfolding cookie_auth_required parse
expired_run = refl
