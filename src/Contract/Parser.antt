-- ===== src/Contract/Parser.antt =====
-- backend/internal/contract/parser.go and loader.go: the APIs of an OpenAPI document. kin-openapi's
-- document is a parameter, of which the parts that the code reads are here.
pub mod Laws
use sentinel_api_platform.Prelude.{
  ◌++◌, String, false, ◌==◌, Option, none, some, List, [], ◌∷◌, str_lt, if◌then◌else◌,
}
use Prim.Native.String
use sentinel_api_platform.Errs.{Error, sentinel, wrapped, bad_request}
use sentinel_api_platform.Effects.{Result, ok, err}
use sentinel_api_platform.Json.{lookup}
use sentinel_api_platform.Model.{Api}

-- An operation: the texts are those that `json.Marshal` prints, and a response is found by its
-- status.
pub record DocOperation : Type 0 where
  pub summary : String
  pub operation_id : String
  pub tags : List String
  pub request_body : Option String
  pub response : String → Option String

pub record PathItem : Type 0 where
  -- `p.Get`, `p.Post` and so on, by the name of the method
  pub operation_at : String → Option DocOperation
  pub json : String

-- The paths are a Go map, in any order; an item may be nil.
pub record Document : Type 0 where
  pub paths : List (String × Option PathItem)

pub http_methods : List String
http_methods = "GET" ∷ "POST" ∷ "PUT" ∷ "PATCH" ∷ "DELETE" ∷ "HEAD" ∷ "OPTIONS" ∷ []

abbrev pub insert_key : String → List String → List String
insert_key k [] = k ∷ []
insert_key k (j ∷ ks) = let rest = insert_key k ks in if str_lt j k then j ∷ rest else k ∷ j ∷ ks

-- `sort.Strings` on the keys of the map
abbrev pub sorted_keys : {V : Type 0} → List (String × V) → List String
sorted_keys [] = []
sorted_keys ((k, _) ∷ m) = insert_key k (sorted_keys m)

abbrev pub or_else : String → String → String
or_else s t = if s == "" then t else s

-- The first of the statuses 200, 201 and default that has a response.
abbrev pub canonical_response : DocOperation → Option String
canonical_response op = elim (op.response "200") [
  | some r ↦ some r
  | none ↦ elim (op.response "201") [ some r ↦ some r | none ↦ op.response "default" ]
]

abbrev pub or_empty : Option String → String
or_empty none = ""
or_empty (some s) = s

-- `marshal_tags` is `json.Marshal`, `to_upper` is `strings.ToUpper`, and `new_id` is `id.New`.
module _ {S : Type 0} (marshal_tags : List String → String) (to_upper : String → String)
    (new_id : S → String × S) where
  abbrev pub tags_text : List String → String
  tags_text [] = ""
  tags_text (t ∷ tags) = marshal_tags (t ∷ tags)

  unfoldable pub build_api : String → String → String → String → DocOperation → PathItem → Api
  build_api id pid path method op item = record {
    id = id;
    project_id = pid;
    name =
        or_else (or_else op.summary op.operation_id)
          (Prim.Native.String.◌++◌ (to_upper method) (Prim.Native.String.◌++◌ " " path));
    method = method;
    path = path;
    operation_id = op.operation_id;
    tags_json = tags_text op.tags;
    request_schema_json = or_empty op.request_body;
    response_schema_json = or_empty (canonical_response op);
    spec_json = item.json;
    source = "openapi";
    deprecated = false;
  }

  unfoldable pub extract_methods : String → String → PathItem → List String → S → List Api × S
  extract_methods pid path item [] s = ([], s)
  extract_methods pid path item (m ∷ methods) s = elim (item.operation_at m) [
    | none ↦ extract_methods pid path item methods s
    | some op ↦
        (let (id, s₁) = new_id s in
          let (apis, s₂) = extract_methods pid path item methods s₁ in
          (build_api id pid path m op item ∷ apis, s₂))
  ]

  abbrev pub item_at : Document → String → Option PathItem
  item_at doc path = elim (lookup path doc.paths) [ none ↦ none | some item ↦ item ]

  unfoldable pub extract_paths : Document → String → List String → S → List Api × S
  extract_paths doc pid [] s = ([], s)
  extract_paths doc pid (path ∷ paths) s = elim (item_at doc path) [
    | none ↦ extract_paths doc pid paths s
    | some item ↦
        (let (here, s₁) = extract_methods pid path item http_methods s in
          let (rest, s₂) = extract_paths doc pid paths s₁ in (here ++ rest, s₂))
  ]

  unfoldable pub extract_apis : Document → String → S → List Api × S
  extract_apis doc pid s = extract_paths doc pid (sorted_keys doc.paths) s

-- `Load`: `read` is the loader without external references, and `check` is `doc.Validate`. The
-- text of an error follows the sentinel by `%v`.
module _ (read : String → Result Document) (check : Document → Result (Unit {0}))
    (text : Error → String) where
  abbrev bad_document : Error → Error
  bad_document e = wrapped "" (sentinel bad_request) (Prim.Native.String.◌++◌ ": " (text e))

  unfoldable pub load : String → Result Document
  load spec = elim (read spec) [
    | err e ↦ err (bad_document e)
    | ok doc ↦ elim (check doc) [ err e ↦ err (bad_document e) | ok _ ↦ ok doc ]
  ]
