-- ===== src/Apis/Handlers/Tags.antt =====
-- The tags of an API, a list without repetitions: the helpers of backend/internal/api/api.go.
use sentinel_api_platform.Prelude.{
  ◌≡◌, refl, ap, String, Bool, true, false, ◌==◌, eq_iff, List, [], ◌∷◌, ◌++◌, arith, Bool-cases,
  inl, inr, if◌then◌else◌,
}

-- A column that is empty, or holds JSON's null, is no tags; `unmarshal` ignores its error.
abbrev pub decode_tags : (String → List String) → String → List String
decode_tags unmarshal raw = if raw == "" then [] else unmarshal raw

abbrev pub contains_tag : List String → String → Bool
contains_tag [] tag = false
contains_tag (t ∷ tags) tag = let rest = contains_tag tags tag in if t == tag then true else rest

abbrev pub append_unique : List String → String → List String
append_unique tags tag = if contains_tag tags tag then tags else tags ++ (tag ∷ [])

abbrev pub remove_tag : List String → String → List String
remove_tag [] tag = []
remove_tag (t ∷ tags) tag = let rest = remove_tag tags tag in if t == tag then rest else t ∷ rest

-- A tag that is removed is gone.
pub remove_tag-gone :
    (tags : List String) (tag : String) → contains_tag (remove_tag tags tag) tag ≡ false
remove_tag-gone [] tag = refl
remove_tag-gone (t ∷ tags) tag = elim (Bool-cases (t == tag)) [
  | inl e ↦ rw e (remove_tag-gone tags tag)
  | inr e ↦ rw e (rw e (remove_tag-gone tags tag))
]

remove_tag-absent :
    (tags : List String) (tag : String) → contains_tag tags tag ≡ false → remove_tag tags tag ≡ tags
remove_tag-absent [] tag h = refl
remove_tag-absent (t ∷ tags) tag h = elim (Bool-cases (t == tag)) [
  | inl e ↦ (let stuck = rw e at h in ground arith)
  | inr e ↦ rw e (ap (λ ts. t ∷ ts) (remove_tag-absent tags tag (rw e at h)))
]

remove_tag-append :
    (tags : List String) (tag : String)
    → contains_tag tags tag ≡ false
    → remove_tag (tags ++ (tag ∷ [])) tag ≡ tags
remove_tag-append [] tag h = rw ((eq_iff tag tag).1 refl) refl
remove_tag-append (t ∷ tags) tag h = elim (Bool-cases (t == tag)) [
  | inl e ↦ (let stuck = rw e at h in ground arith)
  | inr e ↦ rw e (ap (λ ts. t ∷ ts) (remove_tag-append tags tag (rw e at h)))
]

-- A tag that the API does not have, when it is added and then removed, leaves the tags as they
-- were, in their order; and a tag that it has is not added again.
pub remove_tag-append_unique :
    (tags : List String) (tag : String)
    → ((contains_tag tags tag ≡ false) → remove_tag (append_unique tags tag) tag ≡ tags)
      × ((contains_tag tags tag ≡ true) → append_unique tags tag ≡ tags)
remove_tag-append_unique tags tag = (λ h. rw h (remove_tag-append tags tag h), λ h. rw h refl)
