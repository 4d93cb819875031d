-- ===== src/Gorm.antt =====
-- The calls of gorm that the repositories make on one table, as a parameter of their models, and
-- what the repositories rely on: an insert keeps the primary keys distinct, and an update and a
-- deletion change the rows that a condition selects. The ids are ULIDs in capitals, so that the
-- collation of their column compares them as texts.
use sentinel_api_platform.Prelude.{
  ℕ, zero, suc, ◌≡◌, ◌≤◌, ap, arith, String, Bool, true, false, ◌==◌, Option, none, some, List, [],
  ◌∷◌, ◌++◌, Bool-cases, inl, inr, refl, if◌then◌else◌,
}
use sentinel_api_platform.Errs.{Error, sentinel, not_found, wrapped, record_not_found}
use sentinel_api_platform.Effects.{
  Result, ok, err, Call, pure, throw, is_ok, map_err, map_err-state, ◌>>=◌, Result-cases,
}

pub record Table (S R : Type 0) : Type 0 where
  pub insert : R → Call S (Unit {0})
  pub first_where : (R → Bool) → Call S R
  -- the rows in the order of the second argument
  pub find_where : (R → Bool) → (R → R → Bool) → Call S (List R)
  pub update_where : (R → Bool) → (R → R) → Call S ℕ
  pub delete_where : (R → Bool) → Call S ℕ

-- `errors.Is(err, gorm.ErrRecordNotFound)`
abbrev pub is_row_missing : Error → Bool
is_row_missing record_not_found = true
is_row_missing (wrapped _ e _) = is_row_missing e
is_row_missing _ = false

-- How a repository maps the error of a lookup: its name with `ErrNotFound`, or what it did.
abbrev pub missing_or : String → String → Error → Error
missing_or repo what e =
    if is_row_missing e then wrapped repo (sentinel not_found) "" else wrapped what e ""

-- `if res.RowsAffected == 0 { return fmt.Errorf("repo: %w", errs.ErrNotFound) }`
abbrev pub row_needed : {S : Type 0} → String → ℕ → Call S (Unit {0})
row_needed repo zero = throw (wrapped repo (sentinel not_found) "")
row_needed repo (suc n) = pure tt

-- What the calls do to the rows of a table.
module _ {R : Type 0} where
  abbrev pub first : (R → Bool) → List R → Option R
  first p [] = none
  first p (r ∷ rows) = let rest = first p rows in if p r then some r else rest

  abbrev pub count : (R → Bool) → List R → ℕ
  count p [] = 0
  count p (r ∷ rows) = let rest = count p rows in if p r then suc rest else rest

  abbrev pub update_all : (R → Bool) → (R → R) → List R → List R
  update_all p f [] = []
  update_all p f (r ∷ rows) = (if p r then f r else r) ∷ update_all p f rows

  abbrev pub delete_all : (R → Bool) → List R → List R
  delete_all p [] = []
  delete_all p (r ∷ rows) = let rest = delete_all p rows in if p r then rest else r ∷ rest

  abbrev pub result_of : Option R → Result R
  result_of none = err record_not_found
  result_of (some r) = ok r

  abbrev pub is_some : Option R → Bool
  is_some none = false
  is_some (some _) = true

  -- What a deletion does; `rows` are the rows that a state holds. Where a statement fails, the
  -- transaction that gorm puts round it is rolled back.
  pub record DeletesRows {S : Type 0} (table : Table S R) (rows : S → List R) : Type 0 where
    pub deleted :
        (p : R → Bool) (s : S) (n : ℕ)
        → (table.delete_where p s).0 ≡ ok n
        → (rows (table.delete_where p s).1 ≡ delete_all p (rows s)) × (n ≡ count p (rows s))
    pub not_deleted :
        (p : R → Bool) (s : S) (e : Error)
        → (table.delete_where p s).0 ≡ err e
        → rows (table.delete_where p s).1 ≡ rows s

  -- What the statements do where `key` is the primary key and `stored` gives the row that gorm
  -- writes for one that is given. Any statement may fail. The database counts the rows that an
  -- update has changed, which can be fewer than those that its condition selects.
  pub record IsTable {S : Type 0} (table : Table S R) (rows : S → List R) (key : R → String)
      (stored : R → R) : Type 0 where
    pub inserted :
        (r : R) (s : S)
        → (table.insert r s).0 ≡ ok tt
        → (is_some (first (λ q. key q == key r) (rows s)) ≡ false)
          × (rows (table.insert r s).1 ≡ rows s ++ (stored r ∷ []))
    pub not_inserted :
        (r : R) (s : S) (e : Error)
        → (table.insert r s).0 ≡ err e
        → rows (table.insert r s).1 ≡ rows s
    pub updated :
        (p : R → Bool) (f : R → R) (s : S) (n : ℕ)
        → (table.update_where p f s).0 ≡ ok n
        → (rows (table.update_where p f s).1 ≡ update_all p f (rows s)) × (n ≤ count p (rows s))
    pub unchanged :
        (p : R → Bool) (f : R → R) (s : S)
        → (table.update_where p f s).0 ≡ ok 0
        → rows (table.update_where p f s).1 ≡ rows s
    pub not_updated :
        (p : R → Bool) (f : R → R) (s : S) (e : Error)
        → (table.update_where p f s).0 ≡ err e
        → rows (table.update_where p f s).1 ≡ rows s
    pub deletes : DeletesRows table rows

  pub count-first :
      (p : R → Bool) (rows : List R) → 1 ≤ count p rows → is_some (first p rows) ≡ true
  count-first p [] h = ground arith
  count-first p (r ∷ rows) h = elim (Bool-cases (p r)) [
    | inl e ↦ rw e refl
    | inr e ↦ rw e (count-first p rows (rw e at h))
  ]

  pub delete_all-none : (p : R → Bool) (rows : List R) → count p rows ≡ 0 → delete_all p rows ≡ rows
  delete_all-none p [] h = refl
  delete_all-none p (r ∷ rows) h = elim (Bool-cases (p r)) [
    | inl e ↦ (let stuck = rw e at h in ground arith)
    | inr e ↦ rw e (ap (λ rs. r ∷ rs) (delete_all-none p rows (rw e at h)))
  ]

-- Whether a statement has had an effect on a row.
abbrev pub took : Result ℕ → Bool
took (ok (suc n)) = true
took _ = false

-- A call that counts rows and needs one succeeds exactly where its statement has had an effect, and
-- leaves the state of the statement.
pub needed-took :
    {S : Type 0} (repo : String) (what : Error → Error) (m : Call S ℕ) (s : S)
    → let (r, t) = (map_err what m >>= row_needed repo) s in
      ◌≡◌ {A = Bool × S} (is_ok r, t) (took (m s).0, (m s).1)
needed-took repo what m s =
    let same = map_err-state what m s in
    elim (Result-cases (m s).0) [
      | inl (zero, e) ↦ rw (e, ◌>>=◌) (ap (λ t. (false, t)) same)
      | inl (suc n, e) ↦ rw (e, ◌>>=◌) (ap (λ t. (true, t)) same)
      | inr (why, e) ↦ rw (e, ◌>>=◌) (ap (λ t. (false, t)) same)
    ]
