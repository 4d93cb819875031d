-- ===== src/Gate/Auth/Laws.antt =====
-- Which requests the authentication admits.
mod Tests
use sentinel_api_platform.Prelude.{
  ℕ, ◌≡◌, refl, sym, ap, ◌∙◌, inl, inr, String, Bool, true, false, ◌==◌, Option, none, some,
  Bool-cases, Option-cases, arith, trim_space, if◌then◌else◌,
}
use sentinel_api_platform.Errs.{Error, sentinel, is, invalid_token, token_expired}
use sentinel_api_platform.Effects.{Result, ok, err, Result-cases, ok_injective}
use sentinel_api_platform.Gate.Jwt.{Jwt, Claims, key_for, is_expired, parse, parsed}
use sentinel_api_platform.Gate.Auth.{
  Verdict, admits, aborts, after_prefix, judged, auth_required, cookie_auth_required,
  token_query_auth,
}

module _ (jwt : Jwt) (secret : String) (now : ℕ) where
  -- The library takes the token as valid now, with the secret as the key of HMAC methods alone.
  abbrev pub Accepted : String → Claims → Type 0
  Accepted token c =
      ((token == "") ≡ false) × (jwt.parse_with_claims (key_for secret) now token ≡ ok (c, true))

  parsed-ok : (r : Result (Claims × Bool)) (c : Claims) → parsed r ≡ ok c → r ≡ ok (c, true)
  parsed-ok (ok (d, true)) c h = ap (λ x. ok (x, true)) (ok_injective h)
  parsed-ok (ok (d, false)) c h = ground arith
  parsed-ok (err e) c h = elim (Bool-cases (is_expired e)) [
    | inl t ↦ (let stuck = rw t at h in ground arith)
    | inr f ↦ (let stuck = rw f at h in ground arith)
  ]

  parse-Accepted :
      (token : String) (c : Claims) → parse jwt secret now token ≡ ok c → Accepted token c
  unfolding parse
  parse-Accepted token c h = elim (Bool-cases (token == "")) [
    | inl e ↦ (let stuck = rw (e, parse) at h in ground arith)
    | inr given ↦ (
      given,
      parsed-ok (jwt.parse_with_claims (key_for secret) now token) c (rw (given, parse) at h),
    )
  ]

  judged-ok :
      (flags : Bool) (invalid : String) (r : Result Claims) (c : Claims)
      → judged jwt secret now flags invalid r ≡ admits c
      → r ≡ ok c
  judged-ok flags invalid (ok d) c h = ground arith
  judged-ok flags invalid (err e) c h = elim (Bool-cases (is e token_expired)) [
    | inl t ↦ (let stuck = rw t at h in ground arith)
    | inr f ↦ (let stuck = rw f at h in ground arith)
  ]

  -- Where the three middlewares find a token: the Authorization header, the access cookie, or the
  -- query parameter.
  pub data Carrier : Type 0 where
    in_header : String → Carrier
    in_cookie : Option String → Carrier
    in_query : String → Carrier

  abbrev pub verdict_on : Carrier → Verdict
  verdict_on (in_header header) = auth_required jwt secret now header
  verdict_on (in_cookie cookie) = cookie_auth_required jwt secret now cookie
  verdict_on (in_query token) = token_query_auth jwt secret now token

  abbrev pub token_in : Carrier → Option String
  token_in (in_header header) = elim (after_prefix "Bearer " header) [
    | none ↦ none
    | some token ↦ some (trim_space token)
  ]
  token_in (in_cookie cookie) = cookie
  token_in (in_query token) = some token

  -- A request is only admitted with the claims of a token that it carries and that the library
  -- accepts as valid now: after the prefix "Bearer " of its Authorization header, in the access
  -- cookie, or in the query parameter, whichever the middleware reads.
  pub admitted_claims :
      (carrier : Carrier) (c : Claims)
      → verdict_on carrier ≡ admits c
      → (token : String) × (token_in carrier ≡ some token) × Accepted token c
  unfolding auth_required cookie_auth_required token_query_auth
  admitted_claims (in_header header) c h = elim (Bool-cases (header == "")) [
    | inl e ↦ (let stuck = rw (e, auth_required) at h in ground arith)
    | inr given ↦ elim (Option-cases (after_prefix "Bearer " header)) [
      | inl e ↦ (let stuck = rw (given, auth_required, e) at h in ground arith)
      | inr (token, e) ↦ (
        trim_space token,
        rw (e, token_in) refl,
        parse-Accepted (trim_space token) c (
            judged-ok false "invalid token" (parse jwt secret now (trim_space token)) c
              (rw (given, auth_required, e) at h)),
      )
    ]
  ]
  admitted_claims (in_cookie none) c h = ground arith
  admitted_claims (in_cookie (some token)) c h = elim (Bool-cases (token == "")) [
    | inl empty ↦ (let stuck = rw (empty, cookie_auth_required) at h in ground arith)
    | inr given ↦ (
      token,
      refl,
      parse-Accepted token c (
          judged-ok true "invalid access token" (parse jwt secret now token) c
            (rw (given, cookie_auth_required) at h)),
    )
  ]
  admitted_claims (in_query token) c h = elim (Bool-cases (token == "")) [
    | inl e ↦ (let stuck = rw (e, token_query_auth) at h in ground arith)
    | inr given ↦ (
      token,
      refl,
      parse-Accepted token c (
          judged-ok false "invalid token" (parse jwt secret now token) c
            (rw (given, token_query_auth) at h)),
    )
  ]
