-- ===== src/Contract/Specs/Laws.antt =====
-- What a comparison of two documents sees.
mod Tests
use sentinel_api_platform.Prelude.{
  ◌≡◌, refl, sym, ap, ◌∙◌, ◌↔◌, inl, inr, String, Bool, true, false, ◌==◌, Option, none, some, List,
  [], ◌∷◌, All, Bool-cases, Option-cases, arith, if◌then◌else◌,
}
use mathlib.Core.Path.{subst}
use sentinel_api_platform.Effects.{Result, ok, err, ok_injective}
use sentinel_api_platform.Json.{lookup}
use sentinel_api_platform.Model.{Api}
use sentinel_api_platform.Contract.Differ.{
  Change, Operation, key_of, put, index_from, index_by_path, is_breaking, diff,
}
use sentinel_api_platform.Contract.Differ.Laws.{IsKept, StaysIn, diff_iff}
use sentinel_api_platform.Contract.Parser.{PathItem, Document, item_at, extract_apis}
use sentinel_api_platform.Contract.Parser.Laws.{IsOperation, extract_apis-IsOperation}
use sentinel_api_platform.Contract.Specs.{
  SpecDocument, SpecReader, operation_of, diff_docs, diff_specs,
}

All-map :
    {A : Type 0} {P Q : A → Type 0} (f : (a : A) → P a → Q a) (xs : List A) → All P xs → All Q xs
All-map f [] h = tt
All-map f (x ∷ xs) (p, ps) = (f x p, All-map f xs ps)

module _ (P : Api → Type 0) where
  abbrev OfValue : String × Api → Type 0
  OfValue (k, a) = P a

  put-OfValue :
      (k : String) (a : Api) (m : List (String × Api))
      → P a
      → All OfValue m
      → All OfValue (put k a m)
  put-OfValue k a [] p ps = (p, tt)
  put-OfValue k a ((j, b) ∷ m) p ps = elim (Bool-cases (j == k)) [
    | inl e ↦ rw e (p, ps.1)
    | inr e ↦ rw e (ps.0, put-OfValue k a m p ps.1)
  ]

  index_from-OfValue :
      (m : List (String × Api)) (apis : List Api)
      → All OfValue m
      → All P apis
      → All OfValue (index_from m apis)
  unfolding index_from
  index_from-OfValue m [] h k = h
  index_from-OfValue m (a ∷ apis) h (p, ps) =
      index_from-OfValue (put (key_of a) a m) apis (put-OfValue (key_of a) a m p h) ps

  index_by_path-OfValue : (apis : List Api) → All P apis → All OfValue (index_by_path apis)
  unfolding index_by_path
  index_by_path-OfValue apis h = index_from-OfValue [] apis tt h

-- The entry is found under its key in the other index, with the same method.
abbrev pub StaysUnder : List (String × Api) → String × Api → Type 0
StaysUnder newer (k, a) = (b : Api) × (lookup k newer ≡ some b) × (a.method ≡ b.method)

none-some : {A : Type 0} {x : A} → none ≡ some x → ⊥
none-some h = ground arith

stays_iff :
    (operation : Api → Option Operation) (newer old : List (String × Api))
    → All (OfValue (λ a. operation a ≡ none)) old
    → All (StaysIn operation newer) old ↔ All (StaysUnder newer) old
stays_iff operation newer [] unread = (λ h. tt, λ h. tt)
stays_iff operation newer ((k, a) ∷ old) (here, rest) =
    let (to, from) = stays_iff operation newer old rest in
    (
      λ ((b, there, kept), others). ((b, there, kept.same_method), to others),
      λ ((b, there, same), others). (
        (
          b,
          there,
          record {
            same_method = same;
            still_required = λ o n known _. absurd (none-some (sym here ∙ known));
          },
        ),
        from others,
      ),
    )

module _ {S : Type 0} (load : String → Result Document) (read : SpecReader)
    (marshal_tags : List String → String) (to_upper : String → String)
    (new_id : S → String × S) where
  -- No path item of the document, read as a document itself, has paths.
  abbrev pub HasNoPaths : Document → Type 0
  HasNoPaths doc =
      (path : String) (item : PathItem) (inner : SpecDocument)
      → item_at marshal_tags to_upper new_id doc path ≡ some item
      → read item.json ≡ some inner
      → inner.path_keys ≡ []

  -- `Paths.Find` finds no path in a document that has been read and has none.
  abbrev pub FindsKeys : Type 0
  FindsKeys =
      (text : String) (inner : SpecDocument) (path method : String)
      → read text ≡ some inner
      → inner.path_keys ≡ []
      → inner.find_operation path method ≡ none

  operation-unread :
      (doc : Document) (a : Api)
      → HasNoPaths doc
      → FindsKeys
      → IsOperation marshal_tags to_upper new_id doc "" a
      → operation_of read a ≡ none
  operation-unread doc a no_paths finds is = elim (Option-cases (read a.spec_json)) [
    | inl e ↦ rw (e, operation_of) refl
    | inr (inner, e) ↦
        rw (e, operation_of)
          (finds a.spec_json inner a.path a.method e
            (no_paths a.path is.item inner is.listed (ap read (sym is.has_spec) ∙ e)))
  ]

  extracted-unread :
      (doc : Document) (s : S)
      → HasNoPaths doc
      → FindsKeys
      → All (λ a. operation_of read a ≡ none) (extract_apis marshal_tags to_upper new_id doc "" s).0
  extracted-unread doc s no_paths finds =
      All-map (λ a is. operation-unread doc a no_paths finds is)
        (extract_apis marshal_tags to_upper new_id doc "" s).0
        (extract_apis-IsOperation marshal_tags to_upper new_id doc "" s)

  -- Where the path items of the old document have no paths when they are read as documents, and a
  -- document without paths finds none, a comparison of two documents that both load reports no
  -- breaking change exactly where every old API is still there under its key with its method: what
  -- the operations require plays no part.
  pub diff_specs_blind :
      (old_spec new_spec : String) (old newer : Document) (s : S)
      → load old_spec ≡ ok old
      → load new_spec ≡ ok newer
      → HasNoPaths old
      → FindsKeys
      → let first_apis = extract_apis marshal_tags to_upper new_id old "" s in
        let second_apis = extract_apis marshal_tags to_upper new_id newer "" first_apis.1 in
        (changes : List Change) × ((diff_specs load read marshal_tags to_upper new_id old_spec
            new_spec s).0
          ≡ ok changes)
        × ((is_breaking changes ≡ false)
            ↔ All (StaysUnder (index_by_path second_apis.0)) (index_by_path first_apis.0))
  unfolding diff_specs diff_docs
  diff_specs_blind old_spec new_spec old newer s loaded₁ loaded₂ no_paths finds =
      let first_apis = extract_apis marshal_tags to_upper new_id old "" s in
      let second_apis = extract_apis marshal_tags to_upper new_id newer "" first_apis.1 in
      let kept = diff_iff (operation_of read) first_apis.0 second_apis.0 in
      let blind =
        stays_iff (operation_of read) (index_by_path second_apis.0) (index_by_path first_apis.0) (
          index_by_path-OfValue (λ a. operation_of read a ≡ none) first_apis.0
            (extracted-unread old s no_paths finds)) in
      (
        diff (operation_of read) first_apis.0 second_apis.0,
        rw (loaded₁, diff_specs, loaded₂) refl,
        (λ h. blind.0 (kept.0 h), λ h. kept.1 (blind.1 h)),
      )
