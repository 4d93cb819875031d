-- ===== src/Contract/Parser/Laws.antt =====
-- What an API that is extracted from a document has.
mod Tests
use sentinel_api_platform.Prelude.{
  ◌≡◌, refl, ap, ◌∙◌, inl, inr, String, Bool, true, false, ◌==◌, Option, none, some, Bool-cases,
  eq_iff, List, [], ◌∷◌, ◌++◌, All, Option-cases, if◌then◌else◌,
}
use mathlib.Core.List.{Memᴰ}
use Prim.Native.String
use sentinel_api_platform.Model.{Api}
use sentinel_api_platform.Contract.Parser.{
  DocOperation, PathItem, Document, http_methods, build_api, or_else, or_empty, tags_text,
  canonical_response, extract_methods, item_at, extract_paths, extract_apis, sorted_keys,
}

All-append : {A : Type 0} (P : A → Type 0) (xs ys : List A) → All P xs → All P ys → All P (xs ++ ys)
All-append P [] ys h k = k
All-append P (x ∷ xs) ys (p, ps) k = (p, All-append P xs ys ps k)

module _ {S : Type 0} (marshal_tags : List String → String) (to_upper : String → String)
    (new_id : S → String × S) where
  -- The name: the summary, where it is empty the operation's id, and where both are the method in
  -- capitals and the path.
  pub data NameOf (op : DocOperation) (path method name : String) : Type 0 where
    by_summary : (op.summary == "") ≡ false → name ≡ op.summary → NameOf op path method name
    by_id :
        op.summary ≡ ""
        → (op.operation_id == "") ≡ false
        → name ≡ op.operation_id
        → NameOf op path method name
    by_place :
        op.summary ≡ ""
        → op.operation_id ≡ ""
        → name ≡ String.◌++◌ (to_upper method) (String.◌++◌ " " path)
        → NameOf op path method name

  -- The tags as JSON, and nothing where there are none.
  pub data TagsOf : List String → String → Type 0 where
    no_tags : TagsOf [] ""
    some_tags : (t : String) (tags : List String) → TagsOf (t ∷ tags) (marshal_tags (t ∷ tags))

  -- The text that there may be, and nothing where there is none.
  pub data TextOf : Option String → String → Type 0 where
    no_text : TextOf none ""
    the_text : (s : String) → TextOf (some s) s

  -- The response of status 200, where there is none that of 201, and then the default one.
  pub data ResponseOf (op : DocOperation) (schema : String) : Type 0 where
    of_200 : op.response "200" ≡ some schema → ResponseOf op schema
    of_201 : op.response "200" ≡ none → op.response "201" ≡ some schema → ResponseOf op schema
    of_default :
        op.response "200" ≡ none
        → op.response "201" ≡ none
        → TextOf (op.response "default") schema
        → ResponseOf op schema

  TextOf-or_empty : (o : Option String) → TextOf o (or_empty o)
  TextOf-or_empty none = no_text
  TextOf-or_empty (some s) = the_text s

  TagsOf-tags_text :
      (tags : List String) → TagsOf tags (tags_text marshal_tags to_upper new_id tags)
  TagsOf-tags_text [] = no_tags
  TagsOf-tags_text (t ∷ tags) = some_tags t tags

  ResponseOf-canonical : (op : DocOperation) → ResponseOf op (or_empty (canonical_response op))
  ResponseOf-canonical op = elim (Option-cases (op.response "200")) [
    | inr (r, e) ↦ of_200 (rw (e, canonical_response) refl)
    | inl e ↦ elim (Option-cases (op.response "201")) [
      | inr (r, f) ↦ of_201 e (rw (e, canonical_response, f) refl)
      | inl f ↦
          of_default e f (rw (e, canonical_response, f) (TextOf-or_empty (op.response "default")))
    ]
  ]

  NameOf-build :
      (op : DocOperation) (path method : String)
      → NameOf op path method (
          or_else
            (or_else op.summary op.operation_id)
            (String.◌++◌ (to_upper method) (String.◌++◌ " " path)))
  NameOf-build op path method = elim (Bool-cases (op.summary == "")) [
    | inr named ↦ by_summary named (rw named (rw named refl))
    | inl e ↦ elim (Bool-cases (op.operation_id == "")) [
      | inr named ↦ by_id ((eq_iff op.summary "").0 e) named (rw e (rw named refl))
      | inl f ↦
          by_place ((eq_iff op.summary "").0 e) ((eq_iff op.operation_id "").0 f) (rw e (rw f refl))
    ]
  ]

  -- The API is that of an operation of the document, in the project.
  pub record IsOperation (doc : Document) (pid : String) (a : Api) : Type 0 where
    pub item : PathItem
    pub op : DocOperation
    pub listed : item_at marshal_tags to_upper new_id doc a.path ≡ some item
    pub present : item.operation_at a.method ≡ some op
    pub is_method : Memᴰ a.method http_methods
    pub has_project : a.project_id ≡ pid
    pub named : NameOf op a.path a.method a.name
    pub has_operation_id : a.operation_id ≡ op.operation_id
    pub tagged : TagsOf op.tags a.tags_json
    pub has_request : TextOf op.request_body a.request_schema_json
    pub has_response : ResponseOf op a.response_schema_json
    pub has_spec : a.spec_json ≡ item.json
    pub is_imported : a.source ≡ "openapi"

  methods-IsOperation :
      (doc : Document) (pid path : String) (item : PathItem) (methods : List String) (s : S)
      → item_at marshal_tags to_upper new_id doc path ≡ some item
      → ((m : String) → Memᴰ m methods → Memᴰ m http_methods)
      → All
          (IsOperation doc pid)
          (extract_methods marshal_tags to_upper new_id pid path item methods s).0
  unfolding extract_methods build_api
  methods-IsOperation doc pid path item [] s listed inside = tt
  methods-IsOperation doc pid path item (m ∷ methods) s listed inside =
      let rest = λ (t : S).
        methods-IsOperation doc pid path item methods t listed (λ j i. inside j (Memᴰ.tail i)) in
      elim (Option-cases (item.operation_at m)) [
        | inl e ↦ rw (e, extract_methods) (rest s)
        | inr (op, e) ↦
            rw (e, extract_methods)
              (
                record {
                  item = item;
                  op = op;
                  listed = listed;
                  present = e;
                  is_method = inside m (Memᴰ.head refl);
                  has_project = refl;
                  named = NameOf-build op path m;
                  has_operation_id = refl;
                  tagged = TagsOf-tags_text op.tags;
                  has_request = TextOf-or_empty op.request_body;
                  has_response = ResponseOf-canonical op;
                  has_spec = refl;
                  is_imported = refl;
                },
                rest (new_id s).1,
              )
      ]

  paths-IsOperation :
      (doc : Document) (pid : String) (paths : List String) (s : S)
      → All (IsOperation doc pid) (extract_paths marshal_tags to_upper new_id doc pid paths s).0
  unfolding extract_paths
  paths-IsOperation doc pid [] s = tt
  paths-IsOperation doc pid (path ∷ paths) s =
      elim (Option-cases (item_at marshal_tags to_upper new_id doc path)) [
        | inl e ↦ rw (e, extract_paths) (paths-IsOperation doc pid paths s)
        | inr (item, e) ↦
            rw (e, extract_paths)
              (let here =
                  extract_methods marshal_tags to_upper new_id pid path item http_methods s in
                All-append (IsOperation doc pid) here.0
                  (extract_paths marshal_tags to_upper new_id doc pid paths here.1).0
                  (methods-IsOperation doc pid path item http_methods s e (λ m i. i))
                  (paths-IsOperation doc pid paths here.1))
      ]

  -- Every API that is extracted from a document is that of an operation of it: at its path and its
  -- method, one of the seven, and in the project that is given; its name is the summary, or else the
  -- id, or else the method and the path, its tags and its request are the operation's, and its
  -- response is that of 200, or else of 201, or else the default one.
  pub extract_apis-IsOperation :
      (doc : Document) (pid : String) (s : S)
      → All (IsOperation doc pid) (extract_apis marshal_tags to_upper new_id doc pid s).0
  unfolding extract_apis
  extract_apis-IsOperation doc pid s = paths-IsOperation doc pid (sorted_keys doc.paths) s
