-- ===== src/Auth/Tokens.antt =====
-- backend/internal/repository/refresh_token_repo.go: the rows of refresh_tokens. The table is
-- gorm's: an insert, an update of the rows that a condition selects, and the first such row.
pub mod Laws
use sentinel_api_platform.Prelude.{
  ℕ, zero, suc, ◌+◌, String, Bool, true, false, ◌&&◌, ◌==◌, Option, none, some, List, ltb,
  if◌then◌else◌,
}
use sentinel_api_platform.Errs.{Error, record_not_found, wrapped, other}
use sentinel_api_platform.Effects.{Result, ok, err, Call, pure, throw, ◌>>=◌, ◌>>◌, map_err, wrap}
use sentinel_api_platform.Model.{RefreshToken}

pub record Table (S : Type 0) : Type 0 where
  pub insert : RefreshToken → Call S (Unit {0})
  -- the number of rows that were changed
  pub update_where : (RefreshToken → Bool) → (RefreshToken → RefreshToken) → Call S ℕ
  pub first_where : (RefreshToken → Bool) → Call S RefreshToken

-- `revoked_at IS NULL AND expires_at > ?`
abbrev pub is_active : ℕ → RefreshToken → Bool
is_active now t = elim t.revoked_at [ none ↦ ltb now t.expires_at | some _ ↦ false ]

abbrev pub has_hash : String → RefreshToken → Bool
has_hash hash t = t.token_hash == hash

abbrev pub revoke : ℕ → RefreshToken → RefreshToken
revoke now t = record t { revoked_at = some now }

-- `err == gorm.ErrRecordNotFound`, which looks at no chain
abbrev pub is_row_missing : Error → Bool
is_row_missing record_not_found = true
is_row_missing _ = false

-- Seven days in seconds, the unit of the times here.
abbrev seven_days : ℕ
seven_days = 604800

-- `sha256` is the hex of the digest; a raw token is what `rand.Read` gives, and `now` the clock.
module _ {S : Type 0} (table : Table S) (sha256 : String → String) where
  abbrev pub active_token : String → ℕ → RefreshToken → Bool
  active_token raw now t = has_hash (sha256 raw) t && is_active now t

  pub generate_token : Option String → String → ℕ → String → String → String → Call S String
  generate_token none id now user ip agent = throw (other "generate refresh token")
  generate_token (some raw) id now user ip agent = do
    map_err (wrap "save refresh token: ") (
        table.insert (record {
          id = id;
          user_id = user;
          token_hash = sha256 raw;
          expires_at = now + seven_days;
          revoked_at = none;
          ip = ip;
          user_agent = agent;
        }))
    pure raw

  -- what follows the update: the number of its rows decides
  pub owner_of : String → ℕ → Call S String
  owner_of raw zero = throw (other "refresh_token_repo: invalid or expired token")
  owner_of raw (suc n) = do
    t ← map_err (wrap "fetch user_id after revoke: ") (table.first_where (has_hash (sha256 raw)))
    pure t.user_id

  pub consume : ℕ → String → Call S String
  consume now raw = do
    n ←
        map_err (wrap "consume refresh token: ")
          (table.update_where (active_token raw now) (revoke now))
    owner_of raw n

  pub revoke_all_for_user : ℕ → String → Call S ℕ
  revoke_all_for_user now user =
      table.update_where (λ t. t.user_id == user && is_active now t) (revoke now)

  pub lookup_user_id : ℕ → String → Call S String
  lookup_user_id now raw = do
    t ←
        map_err
          (λ e.
            if is_row_missing e
            then other "refresh_token_repo: invalid or expired token"
            else wrap "lookup refresh token: " e)
          (table.first_where (active_token raw now))
    pure t.user_id
