-- ===== src/Rules/Repo/Refines.antt =====
-- The repository of the mock rules refines a map from ids to rules, over any sequence of changes.
mod Tests
use sentinel_api_platform.Prelude.{
  ◌≤◌, ◌≡◌, ◌⊎◌, String, Bool, true, false, Option, none, some, List, [], ◌∷◌, ◌++◌,
}
use sentinel_api_platform.Effects.{Result, ok, err, Call, ◌>>=◌, is_ok}
use sentinel_api_platform.Json.{lookup}
use sentinel_api_platform.Model.{MockRule, Api, Columns}
use sentinel_api_platform.Gorm.{
  Table, DeletesRows, IsTable, first, count, update_all, delete_all, took,
}
use sentinel_api_platform.Rules.Repo.{
  has_id, bump, stored_rule, create, increment_hit_count, update, delete,
}
use sentinel_api_platform.Rules.Repo.RuleMap.{
  Op, create_rule, update_rule, hit_rule, delete_rule, RuleMap, by_id, assign, Allowed, effect,
}

-- A call, or a statement, with whether it succeeds.
abbrev pub Tried : Type 0 → Type 0
Tried S = Bool × S

module _ {S : Type 0} (table : Table S MockRule) (apply : Columns → MockRule → MockRule)
    (join_apis : (MockRule → Api → Bool)
      → (MockRule → MockRule → Bool)
      → Call S (List MockRule)) where
  -- A call of the repository, and calls one after the other: which of them succeed, and the state.
  pub run_op : Op → S → Tried S
  run_op (create_rule r) s = let (done, t) = create table apply join_apis r s in (is_ok done, t)
  run_op (update_rule id fields) s =
      let (done, t) = update table apply join_apis id fields s in (is_ok done, t)
  run_op (hit_rule id) s =
      let (done, t) = increment_hit_count table apply join_apis id s in (is_ok done, t)
  run_op (delete_rule id) s = let (done, t) = delete table apply join_apis id s in (is_ok done, t)

  pub run : List Op → S → List Bool × S
  run [] s = ([], s)
  run (op ∷ ops) s =
      let (done, s₁) = run_op op s in let (rest, s₂) = run ops s₁ in (done ∷ rest, s₂)

  -- The statement of the database for a change, with whether it has an effect on a row.
  abbrev pub statement : Op → S → Tried S
  statement (create_rule r) s = (is_ok (table.insert r s).0, (table.insert r s).1)
  statement (update_rule id fields) s = (
    took (table.update_where (has_id id) (apply fields) s).0,
    (table.update_where (has_id id) (apply fields) s).1,
  )
  statement (hit_rule id) s =
      (took (table.update_where (has_id id) bump s).0, (table.update_where (has_id id) bump s).1)
  statement (delete_rule id) s =
      (took (table.delete_where (has_id id) s).0, (table.delete_where (has_id id) s).1)

  abbrev pub statements : List Op → S → List Bool × S
  statements [] s = ([], s)
  statements (op ∷ ops) s =
      let (done, s₁) = statement op s in let (rest, s₂) = statements ops s₁ in (done ∷ rest, s₂)

  module _ (column : String → String) (rows : S → List MockRule)
      (is_table : IsTable table rows (λ r. r.id) (stored_rule column))
      (keeps : (fields : Columns) (r : MockRule)
        → lookup "id" fields ≡ none
        → lookup "ID" fields ≡ none
        → (apply fields r).id ≡ r.id) where
    -- A change that succeeds has its effect on the map and was allowed, and one that fails has none.
    abbrev Outcome : Op → RuleMap → Tried S → Type 0
    Outcome op m x =
        ((x.0 ≡ true) × Allowed op m × (by_id (rows x.1) ≡ effect column apply op m))
        ⊎ ((x.0 ≡ false) × (by_id (rows x.1) ≡ m))
