-- ===== src/Gate/Cookies.antt =====
-- backend/internal/middleware/cookie.go: the three cookies of a session. Times are in seconds.
use sentinel_api_platform.Prelude.{
  ℕ, ℤ, pos, negsuc, ◌≡◌, refl, String, Bool, true, false, ◌==◌, nat_eq, List, [], ◌∷◌, map, int_lt,
  All, if◌then◌else◌,
}

pub data SameSite : Type 0 where
  lax strict : SameSite

-- `cookieConfig`
pub record CookieConfig : Type 0 where
  pub secure : Bool
  pub domain : String

pub record Cookie : Type 0 where
  pub name : String
  pub value : String
  pub path : String
  pub domain : String
  pub max_age : ℤ
  pub http_only : Bool
  pub secure : Bool
  pub same_site : SameSite

-- A time to live of zero is a Max-Age below zero, which deletes the cookie.
abbrev pub max_age_of : ℕ → ℤ
max_age_of ttl = if nat_eq ttl 0 then negsuc 0 else pos ttl

module _ (config : CookieConfig) where
  pub set_cookie : String → String → String → ℕ → Bool → Cookie
  set_cookie name value path ttl http_only = record {
    name = name;
    value = value;
    path = path;
    domain = config.domain;
    max_age = max_age_of ttl;
    http_only = http_only;
    secure = config.secure;
    same_site = if name == "sent_refresh" then strict else lax;
  }

  -- 15 minutes, 7 days and 24 hours
  pub set_auth_cookies : String → String → String → List Cookie
  unfolding set_cookie
  set_auth_cookies access refresh csrf =
      set_cookie "sent_access" access "/" 900 true
      ∷ set_cookie "sent_refresh" refresh "/api/v1/auth" 604800 true
      ∷ set_cookie "sent_csrf" csrf "/" 86400 false
      ∷ []

  pub clear_auth_cookies : List Cookie
  unfolding set_cookie
  clear_auth_cookies =
      set_cookie "sent_access" "" "/" 0 true
      ∷ set_cookie "sent_refresh" "" "/api/v1/auth" 0 true
      ∷ set_cookie "sent_csrf" "" "/" 0 false
      ∷ []

  -- What a browser tells cookies apart by.
  abbrev pub identity : Cookie → String × String × String
  identity c = (c.name, c.path, c.domain)

  abbrev pub IsExpired : Cookie → Type 0
  IsExpired c = (int_lt c.max_age (pos 0) ≡ true) × (c.value ≡ "")

  -- The cookies that a logout clears are those that a login sets, by name, path and domain, so each
  -- of them is deleted, whatever the configuration and the tokens; and scripts can read only the
  -- CSRF token.
  pub clear-set :
      (access refresh csrf : String)
      → (map identity clear_auth_cookies ≡ map identity (set_auth_cookies access refresh csrf))
        × All IsExpired clear_auth_cookies
        × (map Cookie.http_only (set_auth_cookies access refresh csrf) ≡ true ∷ true ∷ false ∷ [])
  unfolding set_auth_cookies clear_auth_cookies set_cookie
  clear-set access refresh csrf = (refl, ((refl, refl), ((refl, refl), ((refl, refl), tt))), refl)
