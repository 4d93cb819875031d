-- ===== src/Auth/Tokens/Laws.antt =====
-- A refresh token is consumed once, and a logout leaves none active.
mod Tests
use sentinel_api_platform.Prelude.{
  ℕ, zero, suc, ◌+◌, ◌≤◌, ◌≡◌, refl, sym, ap, ◌∙◌, inl, inr, String, Bool, true, false, ◌&&◌, ◌==◌,
  Option, none, some, List, [], ◌∷◌, ltb, All, arith, Bool-cases, Option-cases, if◌then◌else◌,
}
use sentinel_api_platform.Errs.{Error}
use sentinel_api_platform.Effects.{
  Result, ok, err, Call, pure, ◌>>=◌, map_err, wrap, is_ok, Result-cases, bind-ok, map_err-ok,
  map_err-state,
}
use sentinel_api_platform.Model.{RefreshToken}
use sentinel_api_platform.Auth.Tokens.{
  Table, is_active, has_hash, revoke, active_token, owner_of, consume, revoke_all_for_user,
}

-- The rows with those that pass the test changed, and their number.
abbrev pub change :
    (RefreshToken → Bool) → (RefreshToken → RefreshToken) → List RefreshToken → List RefreshToken
change p f [] = []
change p f (t ∷ ts) = (if p t then f t else t) ∷ change p f ts

abbrev pub count : (RefreshToken → Bool) → List RefreshToken → ℕ
count p [] = 0
count p (t ∷ ts) = (if p t then 1 else 0) + count p ts

-- What SQL documents of the two statements.
pub record TableLaws {S : Type 0} (table : Table S) : Type 0 where
  pub rows : S → List RefreshToken
  pub update_rows :
      (p : RefreshToken → Bool) (f : RefreshToken → RefreshToken) (s : S) (n : ℕ)
      → (table.update_where p f s).0 ≡ ok n
      → rows (table.update_where p f s).1 ≡ change p f (rows s)
  pub update_count :
      (p : RefreshToken → Bool) (f : RefreshToken → RefreshToken) (s : S) (n : ℕ)
      → (table.update_where p f s).0 ≡ ok n
      → n ≡ count p (rows s)
  pub first_keeps : (p : RefreshToken → Bool) (s : S) → rows (table.first_where p s).1 ≡ rows s

module _ (now later : ℕ) (after : now ≤ later) where
  inactive_later : (t : RefreshToken) → is_active now t ≡ false → is_active later t ≡ false
  inactive_later t h = elim (Option-cases t.revoked_at) [
    | inl e ↦ (let old = rw e at h in rw e (ground arith))
    | inr (r, e) ↦ rw e refl
  ]

  module _ (key : RefreshToken → Bool)
      (keeps : (t : RefreshToken) → key (revoke now t) ≡ key t) where
    abbrev active_at : ℕ → RefreshToken → Bool
    active_at n t = key t && is_active n t

    row_inactive :
        (t : RefreshToken) → active_at later (if active_at now t then revoke now t else t) ≡ false
    row_inactive t = elim (Bool-cases (key t)) [
      | inr e ↦ rw (e, e) refl
      | inl e ↦ elim (Bool-cases (is_active now t)) [
        | inl a ↦ rw (e, a, keeps t, e) refl
        | inr a ↦ rw (e, a, e, inactive_later t a) refl
      ]
    ]

    -- Once the active rows with a key have been revoked, none with it is active.
    none_active :
        (ts : List RefreshToken)
        → count (active_at later) (change (active_at now) (revoke now) ts) ≡ 0
    none_active [] = refl
    none_active (t ∷ ts) = rw (row_inactive t) (omega (arith, none_active ts))

    rows_inactive :
        (ts : List RefreshToken)
        → All (λ t. active_at later t ≡ false) (change (active_at now) (revoke now) ts)
    rows_inactive [] = tt
    rows_inactive (t ∷ ts) = (row_inactive t, rows_inactive ts)

bind_pure-state :
    {S A B : Type 0} (m : Call S A) (f : A → B) (s : S) → ((m >>= λ a. pure (f a)) s).1 ≡ (m s).1
bind_pure-state m f s = elim (Result-cases (m s).0) [
  | inl (a, e) ↦ rw (e, ◌>>=◌) refl
  | inr (why, e) ↦ rw (e, ◌>>=◌) refl
]

bind-not_ok :
    {S A B : Type 0} (m : Call S A) (f : A → Call S B) (s : S)
    → ((a : A) → (m s).0 ≡ ok a → is_ok (f a (m s).1).0 ≡ false)
    → is_ok ((m >>= f) s).0 ≡ false
bind-not_ok m f s h = elim (Result-cases (m s).0) [
  | inl (a, e) ↦ rw (e, ◌>>=◌) (h a e)
  | inr (why, e) ↦ rw (e, ◌>>=◌) refl
]

module _ {S : Type 0} (table : Table S) (laws : TableLaws table) (sha256 : String → String) where
  open laws use {rows}

  owner-rows : (raw : String) (n : ℕ) (s : S) → rows (owner_of table sha256 raw n s).1 ≡ rows s
  unfolding owner_of
  owner-rows raw zero s = refl
  owner-rows raw (suc n) s =
      let context = wrap "fetch user_id after revoke: " in
      let call = table.first_where (has_hash (sha256 raw)) in
      ap rows
        (bind_pure-state (map_err context call) (λ t. t.user_id) s ∙ map_err-state context call s)
      ∙ laws.first_keeps (has_hash (sha256 raw)) s

  -- With no active row a token is not consumed.
  consume-fails :
      (raw : String) (now : ℕ) (s : S)
      → count (active_token table sha256 raw now) (rows s) ≡ 0
      → is_ok (consume table sha256 now raw s).0 ≡ false
  unfolding consume owner_of
  consume-fails raw now s none_left =
      let call = table.update_where (active_token table sha256 raw now) (revoke now) in
      let context = wrap "consume refresh token: " in
      bind-not_ok (map_err context call) (owner_of table sha256 raw) s (λ n e.
        let counted =
          laws.update_count (active_token table sha256 raw now) (revoke now) s n
            (map_err-ok context call s n e) in
        let no_rows : n ≡ 0 = counted ∙ none_left in rw no_rows refl)

  -- Over a table with the laws, a token that has been consumed is not consumed again, as long as the
  -- clock does not go back.
  pub consume_once :
      (raw user : String) (now later : ℕ) (s : S)
      → now ≤ later
      → (consume table sha256 now raw s).0 ≡ ok user
      → is_ok (consume table sha256 later raw (consume table sha256 now raw s).1).0 ≡ false
  unfolding consume owner_of
  consume_once raw user now later s after h =
      let context = wrap "consume refresh token: " in
      let call = table.update_where (active_token table sha256 raw now) (revoke now) in
      let (n, updated, same) =
        bind-ok (map_err context call) (owner_of table sha256 raw) s user h in
      let done : (call s).0 ≡ ok n = map_err-ok context call s n updated in
      let now_rows = laws.update_rows (active_token table sha256 raw now) (revoke now) s n done in
      let after_rows =
        ap (λ x. rows x.1) same
        ∙ owner-rows raw n (map_err context call s).1
        ∙ ap rows (map_err-state context call s)
        ∙ now_rows in
      consume-fails raw later (consume table sha256 now raw s).1 (
        ap (count (active_token table sha256 raw later)) after_rows
        ∙ none_active now later after (has_hash (sha256 raw)) (λ t. refl) (rows s))

  -- Over a table with the laws, after a logout that succeeds no token of the user is active, at that
  -- time or later.
  pub logout_leaves_none :
      (user : String) (now later n : ℕ) (s : S)
      → now ≤ later
      → (revoke_all_for_user table sha256 now user s).0 ≡ ok n
      → All
          (λ t. (t.user_id == user && is_active later t) ≡ false)
          (rows (revoke_all_for_user table sha256 now user s).1)
  unfolding revoke_all_for_user
  logout_leaves_none user now later n s after h =
      rw (laws.update_rows (λ t. t.user_id == user && is_active now t) (revoke now) s n h)
        (rows_inactive now later after (λ t. t.user_id == user) (λ t. refl) (rows s))
