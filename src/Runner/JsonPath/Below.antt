-- ===== src/Runner/JsonPath/Below.antt =====
-- When a lookup panics, told by the path and the body.
use sentinel_api_platform.Prelude.{
  ℕ, zero, suc, ℤ, pos, negsuc, ◌≡◌, ◌≢◌, refl, ◌↔◌, inl, inr, Option, none, some, String, arith,
  Option-cases,
}
use mathlib.Core.List.{List}
use sentinel_api_platform.Prelude.Checked.{good, bad, Checked-cases}
use sentinel_api_platform.Json.{
  Json, null, bool, num, str, arr, obj, Fields, Items, entries, elements, lookup, Std,
}
use sentinel_api_platform.Runner.JsonPath.{
  panics, split_dots, trim_root, scan_int, cut_at, parse_part, item_at, index_into, step_into, walk,
  json_path_lookup,
}

-- The item of a list at an index.
pub data IsItem : List Json → ℕ → Json → Type 0 where
  first : {v : Json} {vs : List Json} → IsItem (List.◌∷◌ v vs) zero v
  later : {v w : Json} {vs : List Json} {n : ℕ} → IsItem vs n w → IsItem (List.◌∷◌ v vs) (suc n) w

-- The path leads from a value to an index below zero at an array: through the values at keys of
-- objects and the items of arrays, to a part whose index is below zero and whose key holds an array.
pub data HitsBelowZero : Json → List String → Type 0 where
  at_array :
      {fs : Fields} {part : String} {parts : List String} (key : String) (n : ℕ) (vs : Items)
      → parse_part part ≡ good (key, some (negsuc n))
      → lookup key (entries fs) ≡ some (arr vs)
      → HitsBelowZero (obj fs) (List.◌∷◌ part parts)
  past_key :
      {fs : Fields} {part : String} {parts : List String} (key : String) (v : Json)
      → parse_part part ≡ good (key, none)
      → lookup key (entries fs) ≡ some v
      → HitsBelowZero v parts
      → HitsBelowZero (obj fs) (List.◌∷◌ part parts)
  past_item :
      {fs : Fields} {part : String} {parts : List String} (key : String) (n : ℕ) (vs : Items)
      (v : Json)
      → parse_part part ≡ good (key, some (pos n))
      → lookup key (entries fs) ≡ some (arr vs)
      → IsItem (elements vs) n v
      → HitsBelowZero v parts
      → HitsBelowZero (obj fs) (List.◌∷◌ part parts)

item_at-IsItem : (vs : List Json) (n : ℕ) (v : Json) → item_at vs n ≡ good v → IsItem vs n v
item_at-IsItem List.[] n v h = ground arith
item_at-IsItem (List.◌∷◌ w vs) zero v h = let same : w ≡ v = ground arith in rw same first
item_at-IsItem (List.◌∷◌ w vs) (suc n) v h = later (item_at-IsItem vs n v h)

IsItem-item_at : (vs : List Json) (n : ℕ) (v : Json) → IsItem vs n v → item_at vs n ≡ good v
IsItem-item_at List.[] n v i = elim i [ ]
IsItem-item_at (List.◌∷◌ v vs) zero w first = refl
IsItem-item_at (List.◌∷◌ v vs) (suc n) w (later i) = IsItem-item_at vs n w i

item_at-ne-panics : (vs : List Json) (n : ℕ) → item_at vs n ≢ bad panics
item_at-ne-panics List.[] n h = cc
item_at-ne-panics (List.◌∷◌ v vs) zero h = cc
item_at-ne-panics (List.◌∷◌ v vs) (suc n) h = item_at-ne-panics vs n h

parse_part-ne-panics : (part : String) → parse_part part ≢ bad panics
unfolding parse_part
parse_part-ne-panics part h = elim (Option-cases (cut_at b'[' part)) [
  | inl e ↦ (let stuck = rw (e, parse_part) at h in ground arith)
  | inr ((key, inner), e) ↦ elim (Option-cases (cut_at b']' inner)) [
    | inl f ↦ (let stuck = rw (e, parse_part, f) at h in ground arith)
    | inr ((digits, rest), f) ↦ elim (Option-cases (scan_int digits)) [
      | inl g ↦ (let stuck = rw (e, parse_part, f, g) at h in ground arith)
      | inr (n, g) ↦ (let stuck = rw (e, parse_part, f, g) at h in ground arith)
    ]
  ]
]

-- What follows a part whose key and index are known, at an object whose value at the key is known.
hits_in :
    (fs : Fields) (part key : String) (parts : List String) (idx : Option ℤ) (v : Json)
    → ((w : Json) → walk w parts ≡ bad panics → HitsBelowZero w parts)
    → parse_part part ≡ good (key, idx)
    → lookup key (entries fs) ≡ some v
    → walk (obj fs) (List.◌∷◌ part parts) ≡ bad panics
    → HitsBelowZero (obj fs) (List.◌∷◌ part parts)
unfolding walk step_into index_into
hits_in fs part key parts none v rest parsed found h =
    past_key key v parsed found (rest v (rw (parsed, walk, found, step_into) at h))
hits_in fs part key parts (some (negsuc n)) (arr vs) rest parsed found h =
    at_array key n vs parsed found
hits_in fs part key parts (some (pos n)) (arr vs) rest parsed found h =
    elim (Checked-cases (item_at (elements vs) n)) [
      | inl (e, failed) ↦
          (let stopped = rw (parsed, walk, found, step_into, failed) at h in
            let same : e ≡ panics = ground arith in
            absurd (item_at-ne-panics (elements vs) n (rw same at failed)))
      | inr (w, there) ↦
          past_item key n vs w parsed found (item_at-IsItem (elements vs) n w there)
            (rest w (rw (parsed, walk, found, step_into, there) at h))
    ]
hits_in fs part key parts (some (pos n)) _ rest parsed found h =
    let stopped = rw (parsed, walk, found, step_into) at h in ground arith
hits_in fs part key parts (some (negsuc n)) _ rest parsed found h =
    let stopped = rw (parsed, walk, found, step_into) at h in ground arith

hits_at :
    (cur : Json) (part key : String) (parts : List String) (idx : Option ℤ)
    → ((w : Json) → walk w parts ≡ bad panics → HitsBelowZero w parts)
    → parse_part part ≡ good (key, idx)
    → walk cur (List.◌∷◌ part parts) ≡ bad panics
    → HitsBelowZero cur (List.◌∷◌ part parts)
unfolding walk step_into
hits_at (obj fs) part key parts idx rest parsed h = elim (Option-cases (lookup key (entries fs))) [
  | inl missing ↦ (let stopped = rw (parsed, walk, missing, step_into) at h in ground arith)
  | inr (v, found) ↦ hits_in fs part key parts idx v rest parsed found h
]
hits_at _ part key parts idx rest parsed h = let stopped = rw (parsed, walk) at h in ground arith

walk-HitsBelowZero :
    (cur : Json) (parts : List String) → walk cur parts ≡ bad panics → HitsBelowZero cur parts
unfolding walk
walk-HitsBelowZero cur List.[] h = ground arith
walk-HitsBelowZero cur (List.◌∷◌ part parts) h = elim (Checked-cases (parse_part part)) [
  | inl (e, failed) ↦
      (let stopped = rw (failed, walk) at h in
        let same : e ≡ panics = ground arith in
        absurd (parse_part-ne-panics part (rw same at failed)))
  | inr ((key, idx), parsed) ↦
      hits_at cur part key parts idx (λ w k. walk-HitsBelowZero w parts k) parsed h
]

HitsBelowZero-walk :
    (cur : Json) (parts : List String) → HitsBelowZero cur parts → walk cur parts ≡ bad panics
unfolding walk step_into index_into
HitsBelowZero-walk null parts hits = elim hits [ ]
HitsBelowZero-walk (bool b) parts hits = elim hits [ ]
HitsBelowZero-walk (num n) parts hits = elim hits [ ]
HitsBelowZero-walk (str s) parts hits = elim hits [ ]
HitsBelowZero-walk (arr vs) parts hits = elim hits [ ]
HitsBelowZero-walk (obj fs) List.[] hits = elim hits [ ]
HitsBelowZero-walk (obj fs) (List.◌∷◌ part parts) (at_array key n vs parsed found) =
    rw (parsed, walk, found, step_into) refl
HitsBelowZero-walk (obj fs) (List.◌∷◌ part parts) (past_key key v parsed found rest) =
    rw (parsed, walk, found, step_into) (HitsBelowZero-walk v parts rest)
HitsBelowZero-walk (obj fs) (List.◌∷◌ part parts) (past_item key n vs v parsed found i rest) =
    rw (parsed, walk, found, step_into, IsItem-item_at (elements vs) n v i)
      (HitsBelowZero-walk v parts rest)

-- A lookup panics exactly where the body is read and the path leads, from its root, to an index
-- below zero at an array.
pub json_path_lookup-panics_iff :
    (std : Std) (raw path : String)
    → (json_path_lookup std raw path ≡ bad panics) ↔ (
        (root : Json) × (std.parse raw ≡ some root)
        × HitsBelowZero root (split_dots (trim_root path)))
unfolding json_path_lookup
json_path_lookup-panics_iff std raw path = (
  λ h. elim (Option-cases (std.parse raw)) [
    | inl e ↦ (let failed = rw (e, json_path_lookup) at h in ground arith)
    | inr (root, e) ↦ (
      root,
      e,
      walk-HitsBelowZero root (split_dots (trim_root path)) (rw (e, json_path_lookup) at h),
    )
  ],
  λ (root, e, hits).
      rw (e, json_path_lookup) (HitsBelowZero-walk root (split_dots (trim_root path)) hits),
)
