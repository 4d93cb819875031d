-- ===== src/Rules/Repo/RuleMap.antt =====
-- The rows of the mock rules as a map from ids to rules: what the changes of the repository do to
-- the map.
use sentinel_api_platform.Prelude.{
  ◌≡◌, refl, sym, ap, ◌∙◌, inl, inr, String, Bool, true, false, ◌==◌, eq_iff, Option, none, some,
  List, [], ◌∷◌, ◌++◌, Bool-cases, arith, if◌then◌else◌,
}
use mathlib.Core.Path.{subst}
use sentinel_api_platform.Json.{lookup}
use sentinel_api_platform.Model.{MockRule, Columns}
use sentinel_api_platform.Gorm.{first, update_all, delete_all, is_some}
use sentinel_api_platform.Rules.Repo.{has_id, bump, stored_rule}

-- The calls that change rules.
pub data Op : Type 0 where
  create_rule : MockRule → Op
  update_rule : String → Columns → Op
  hit_rule : String → Op
  delete_rule : String → Op

-- The abstract state: which rule has an id.
abbrev pub RuleMap : Type 0
RuleMap = String → Option MockRule

abbrev pub by_id : List MockRule → RuleMap
by_id rows id = first (has_id id) rows

abbrev pub assign : String → Option MockRule → RuleMap → RuleMap
assign id r m k = if id == k then r else m k

abbrev pub change : (MockRule → MockRule) → Option MockRule → Option MockRule
change f none = none
change f (some r) = some (f r)

abbrev pub adjust : String → (MockRule → MockRule) → RuleMap → RuleMap
adjust id f m k = if id == k then change f (m k) else m k

-- An update that does not set the id, by the name of its column or of its field.
abbrev pub KeepsId : Op → Type 0
KeepsId (update_rule id fields) = (lookup "id" fields ≡ none) × (lookup "ID" fields ≡ none)
KeepsId _ = Unit

-- Where a change can succeed: a creation at an id that is free, and the others at one that is not.
abbrev pub Allowed : Op → RuleMap → Type 0
Allowed (create_rule r) m = is_some (m r.id) ≡ false
Allowed (update_rule id fields) m = is_some (m id) ≡ true
Allowed (hit_rule id) m = is_some (m id) ≡ true
Allowed (delete_rule id) m = is_some (m id) ≡ true

module _ (column : String → String) (apply : Columns → MockRule → MockRule) where
  -- What a change that succeeds makes of the map.
  abbrev pub effect : Op → RuleMap → RuleMap
  effect (create_rule r) m = assign r.id (some (stored_rule column r)) m
  effect (update_rule id fields) m = adjust id (apply fields) m
  effect (hit_rule id) m = adjust id bump m
  effect (delete_rule id) m = assign id none m

  -- Changes one after the other, with which of them succeed, from one map to another: a change that
  -- succeeds is allowed and has its effect, and one that fails has none.
  pub data Follows : List Op → List Bool → RuleMap → RuleMap → Type 0 where
    ends : {m : RuleMap} → Follows [] [] m m
    succeeds :
        {op : Op} {ops : List Op} {done : List Bool} {m n : RuleMap}
        → Allowed op m
        → Follows ops done (effect op m) n
        → Follows (op ∷ ops) (true ∷ done) m n
    fails :
        {op : Op} {ops : List Op} {done : List Bool} {m n : RuleMap}
        → Follows ops done m n
        → Follows (op ∷ ops) (false ∷ done) m n

-- How the rows that the calls make read as a map.
pub by_id-append :
    (rows : List MockRule) (r : MockRule) (k : String)
    → is_some (by_id rows r.id) ≡ false
    → by_id (rows ++ (r ∷ [])) k ≡ assign r.id (some r) (by_id rows) k
by_id-append [] r k h = refl
by_id-append (q ∷ rows) r k h = elim (Bool-cases (q.id == r.id)) [
  | inl e ↦ (let stuck = rw e at h in ground arith)
  | inr other ↦
      (let rest = by_id-append rows r k (rw other at h) in
        elim (Bool-cases (q.id == k)) [
          | inr e ↦ rw e rest
          | inl e ↦ elim (Bool-cases (r.id == k)) [
            | inr f ↦ rw (e, f) refl
            | inl f ↦
                (let same = (eq_iff q.id k).0 e ∙ sym ((eq_iff r.id k).0 f) in
                  let stuck = sym other ∙ (eq_iff q.id r.id).1 same in ground arith)
          ]
        ])
]

module _ (f : MockRule → MockRule) (id : String) (keeps : (r : MockRule) → (f r).id ≡ r.id) where
  by_id-update-same :
      (rows : List MockRule) → by_id (update_all (has_id id) f rows) id ≡ change f (by_id rows id)
  by_id-update-same [] = refl
  by_id-update-same (r ∷ rows) = elim (Bool-cases (r.id == id)) [
    | inl e ↦ rw e (rw (keeps r) (rw e refl))
    | inr e ↦ rw e (rw e (by_id-update-same rows))
  ]

  by_id-update-other :
      (rows : List MockRule) (k : String)
      → (id == k) ≡ false
      → by_id (update_all (has_id id) f rows) k ≡ by_id rows k
  by_id-update-other [] k h = refl
  by_id-update-other (r ∷ rows) k h =
      let rest = by_id-update-other rows k h in
      elim (Bool-cases (r.id == id)) [
        | inl e ↦
            (let apart : (r.id == k) ≡ false = ap (λ i. i == k) ((eq_iff r.id id).0 e) ∙ h in
              rw e (rw (keeps r) (rw apart rest)))
        | inr e ↦ elim (Bool-cases (r.id == k)) [
          | inl g ↦ rw e (rw g refl)
          | inr g ↦ rw e (rw g rest)
        ]
      ]

  pub by_id-update :
      (rows : List MockRule) (k : String)
      → by_id (update_all (has_id id) f rows) k ≡ adjust id f (by_id rows) k
  by_id-update rows k = elim (Bool-cases (id == k)) [
    | inl e ↦ rw e (
        subst (λ j. by_id (update_all (has_id id) f rows) j ≡ change f (by_id rows j))
          ((eq_iff id k).0 e) (by_id-update-same rows))
    | inr e ↦ rw e (by_id-update-other rows k e)
  ]

by_id-delete-same :
    (id : String) (rows : List MockRule) → by_id (delete_all (has_id id) rows) id ≡ none
by_id-delete-same id [] = refl
by_id-delete-same id (r ∷ rows) = elim (Bool-cases (r.id == id)) [
  | inl e ↦ rw e (by_id-delete-same id rows)
  | inr e ↦ rw e (rw e (by_id-delete-same id rows))
]

by_id-delete-other :
    (id : String) (rows : List MockRule) (k : String)
    → (id == k) ≡ false
    → by_id (delete_all (has_id id) rows) k ≡ by_id rows k
by_id-delete-other id [] k h = refl
by_id-delete-other id (r ∷ rows) k h =
    let rest = by_id-delete-other id rows k h in
    elim (Bool-cases (r.id == id)) [
      | inl e ↦
          (let apart : (r.id == k) ≡ false = ap (λ i. i == k) ((eq_iff r.id id).0 e) ∙ h in
            rw e (rw apart rest))
      | inr e ↦ elim (Bool-cases (r.id == k)) [
        | inl g ↦ rw e (rw g refl)
        | inr g ↦ rw e (rw g rest)
      ]
    ]

pub by_id-delete :
    (id : String) (rows : List MockRule) (k : String)
    → by_id (delete_all (has_id id) rows) k ≡ assign id none (by_id rows) k
by_id-delete id rows k = elim (Bool-cases (id == k)) [
  | inl e ↦ rw e (
      subst (λ j. by_id (delete_all (has_id id) rows) j ≡ none) ((eq_iff id k).0 e)
        (by_id-delete-same id rows))
  | inr e ↦ rw e (by_id-delete-other id rows k e)
]
