-- ===== src/Runner/JsonPath/Laws.antt =====
-- When a lookup panics.
use sentinel_api_platform.Prelude.{
  ℕ, zero, suc, ℤ, pos, negsuc, ◌≡◌, ◌≢◌, inl, inr, Option, none, some, String, arith, All,
  Option-cases,
}
use mathlib.Core.List.{List}
use sentinel_api_platform.Prelude.Checked.{Checked, good, bad, Checked-cases}
use sentinel_api_platform.Json.{Json, null, arr, obj, Fields, Items, entries, lookup, Std}
use sentinel_api_platform.Runner.JsonPath.{
  PathError, panics, split_dots, trim_root, parse_part, item_at, index_into, step_into, walk,
  json_path_lookup,
}

-- The part has no index below zero.
abbrev pub HasNoNegativeIndex : Checked PathError (String × Option ℤ) → Type 0
HasNoNegativeIndex (good (key, some (negsuc n))) = ⊥
HasNoNegativeIndex (bad panics) = ⊥
HasNoNegativeIndex _ = Unit

item_at-ne-panics : (vs : List Json) (n : ℕ) → item_at vs n ≢ bad panics
item_at-ne-panics List.[] n h = cc
item_at-ne-panics (List.◌∷◌ v vs) zero h = cc
item_at-ne-panics (List.◌∷◌ v vs) (suc n) h = item_at-ne-panics vs n h

index_into-ne-panics : (v : Json) (n : ℕ) → index_into v (pos n) ≢ bad panics
unfolding index_into
index_into-ne-panics (arr vs) n h = item_at-ne-panics _ n h
index_into-ne-panics null n h = cc
index_into-ne-panics _ n h = cc

step_into-ne-panics :
    (cur : Json) (step : String × Option ℤ)
    → HasNoNegativeIndex (good step)
    → step_into cur step ≢ bad panics
unfolding step_into
step_into-ne-panics (obj fs) (key, none) ok h = ground arith
step_into-ne-panics (obj fs) (key, some (pos n)) ok h =
    elim (Option-cases (lookup key (entries fs))) [
      | inl e ↦ ground arith
      | inr (v, e) ↦ index_into-ne-panics v n (rw (e, step_into) at h)
    ]
step_into-ne-panics (obj fs) (key, some (negsuc n)) ok h = ok
step_into-ne-panics null step ok h = cc
step_into-ne-panics _ step ok h = cc

walk-ne-panics :
    (cur : Json) (parts : List String)
    → All (λ part. HasNoNegativeIndex (parse_part part)) parts
    → walk cur parts ≢ bad panics
unfolding walk
walk-ne-panics cur List.[] ok h = cc
walk-ne-panics cur (List.◌∷◌ part parts) (ok, oks) h = elim (Checked-cases (parse_part part)) [
  | inl (e, failed) ↦ let same : e ≡ panics = ground arith in absurd (rw (failed, same) at ok)
  | inr (step, parsed) ↦ elim (Checked-cases (step_into cur step)) [
    | inl (e, failed) ↦
        let same : e ≡ panics = ground arith in
        step_into-ne-panics cur step (rw parsed at ok) (rw same at failed)
    | inr (next, found) ↦ walk-ne-panics next parts oks (rw (parsed, found, walk) at h)
  ]
]

-- A lookup along a path without an index below zero never panics, whatever the body is.
pub json_path_lookup-ne-panics :
    (std : Std) (raw path : String)
    → All (λ part. HasNoNegativeIndex (parse_part part)) (split_dots (trim_root path))
    → json_path_lookup std raw path ≢ bad panics
unfolding json_path_lookup
json_path_lookup-ne-panics std raw path ok h = elim (Option-cases (std.parse raw)) [
  | inl e ↦ let failed = rw (e, json_path_lookup) at h in cc
  | inr (root, e) ↦
      walk-ne-panics root (split_dots (trim_root path)) ok (rw (e, json_path_lookup) at h)
]

-- A part with an index below zero, at a key that holds an array, makes the lookup panic: the bound
-- that the code tests is the upper one alone.
pub json_path_lookup-panics :
    (std : Std) (raw path part key : String) (rest : List String) (fs : Fields) (vs : Items) (n : ℕ)
    → std.parse raw ≡ some (obj fs)
    → split_dots (trim_root path) ≡ List.◌∷◌ part rest
    → parse_part part ≡ good (key, some (negsuc n))
    → lookup key (entries fs) ≡ some (arr vs)
    → json_path_lookup std raw path ≡ bad panics
unfolding json_path_lookup
json_path_lookup-panics std raw path part key rest fs vs n body parts parsed found =
    rw (body, parts, parsed, found, json_path_lookup, walk, step_into)
