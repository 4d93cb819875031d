-- ===== src/Settings/Config.antt =====
-- `validate` of backend/internal/pkg/config/config.go, on the settings that it looks at.
use sentinel_api_platform.Prelude.{
  ℤ, pos, ◌≡◌, refl, ◌↔◌, String, Bool, true, false, not, ◌||◌, ◌&&◌, ◌==◌, int_lt, ltb, arith,
  if◌then◌else◌,
}
use sentinel_api_platform.Errs.{Error, other}
use sentinel_api_platform.Effects.{Result, ok, err}
use sentinel_api_platform.Auth.Service.{byte_length}

pub record Config : Type 0 where
  pub app_env : String
  pub app_port : ℤ
  pub frontend_origin : String
  pub mysql_host : String
  pub mysql_database : String
  pub redis_host : String
  pub access_secret : String
  pub refresh_secret : String

abbrev pub is_short : String → Bool
is_short secret = secret == "" || ltb (byte_length secret) 32

-- The number in the text of the first error is left out.
pub validate : Config → Result (Unit {0})
validate c =
    if not (int_lt (pos 0) c.app_port) || int_lt (pos 65535) c.app_port
    then err (other "invalid APP_PORT")
    else if c.mysql_host == "" || c.mysql_database == ""
    then err (other "MYSQL_HOST and MYSQL_DATABASE required")
    else if c.redis_host == ""
    then err (other "REDIS_HOST required")
    else if is_short c.access_secret
    then err (other "JWT_ACCESS_SECRET must be >= 32 chars")
    else if c.app_env == "production" && is_short c.refresh_secret
    then err (other "JWT_REFRESH_SECRET must be >= 32 chars in production")
    else if c.app_env == "production" && c.frontend_origin == ""
    then err (other "FRONTEND_ORIGIN required in production (CORS)")
    else ok tt

-- What the platform needs of a configuration, setting by setting.
pub record IsSound (c : Config) : Type 0 where
  pub port_low : int_lt (pos 0) c.app_port ≡ true
  pub port_high : int_lt (pos 65535) c.app_port ≡ false
  pub has_mysql : (c.mysql_host == "" || c.mysql_database == "") ≡ false
  pub has_redis : (c.redis_host == "") ≡ false
  pub secret_long : is_short c.access_secret ≡ false
  pub production_secret : (c.app_env == "production" && is_short c.refresh_secret) ≡ false
  pub production_origin : (c.app_env == "production" && c.frontend_origin == "") ≡ false

stop :
    {A : Type 0} (b : Bool) (why : Error) (rest : Result A) (a : A)
    → (if b then err why else rest) ≡ ok a
    → (b ≡ false) × (rest ≡ ok a)
stop true why rest a h = ground arith
stop false why rest a h = (refl, h)

port_bounds : (low high : Bool) → (not low || high) ≡ false → (low ≡ true) × (high ≡ false)
port_bounds true true h = ground arith
port_bounds true false h = (refl, refl)
port_bounds false high h = ground arith

-- The configuration is accepted exactly where it is sound: its port is from 1 to 65535, the hosts
-- and the database are named, the secret of access tokens has 32 bytes, and in production the
-- secret of refresh tokens has 32 bytes and the origin of the frontend is named.
pub validate-IsSound_iff : (c : Config) → (validate c ≡ ok tt) ↔ IsSound c
unfolding validate
validate-IsSound_iff c = (
  λ h.
      let (port, h₁) = stop _ _ _ tt h in
      let (mysql, h₂) = stop _ _ _ tt h₁ in
      let (redis, h₃) = stop _ _ _ tt h₂ in
      let (secret, h₄) = stop _ _ _ tt h₃ in
      let (refresh, h₅) = stop _ _ _ tt h₄ in
      let (origin, _) = stop _ _ _ tt h₅ in
      let (low, high) =
        port_bounds (int_lt (pos 0) c.app_port) (int_lt (pos 65535) c.app_port) port in
      record {
        port_low = low;
        port_high = high;
        has_mysql = mysql;
        has_redis = redis;
        secret_long = secret;
        production_secret = refresh;
        production_origin = origin;
      },
  λ sound. rw sound.port_low (
      rw sound.port_high (
        rw sound.has_mysql (
          rw sound.has_redis (
            rw sound.secret_long (rw sound.production_secret (rw sound.production_origin refl)))))),
)
