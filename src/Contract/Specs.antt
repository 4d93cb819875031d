-- ===== src/Contract/Specs.antt =====
-- `DiffSpecs` of backend/internal/contract/differ.go: the comparison of two documents, by the APIs
-- that are extracted from them.
pub mod Laws
use sentinel_api_platform.Prelude.{String, Option, none, some, List}
use sentinel_api_platform.Effects.{Result, ok, err}
use sentinel_api_platform.Model.{Api}
use sentinel_api_platform.Contract.Differ.{Change, Operation, diff}
use sentinel_api_platform.Contract.Parser.{Document, extract_apis}

-- A document of kin-openapi: the keys of its paths, and `Paths.Find` of a path with `GetOperation`
-- of a method, where there are such.
pub record SpecDocument : Type 0 where
  pub path_keys : List String
  pub find_operation : String → String → Option Operation

-- `NewLoader().LoadFromData`, of which the error is dropped: no document where there is one
abbrev pub SpecReader : Type 0
SpecReader = String → Option SpecDocument

-- The operation of an API in its `SpecJSON`.
abbrev pub operation_of : SpecReader → Api → Option Operation
operation_of read a = elim (read a.spec_json) [
  | none ↦ none
  | some doc ↦ doc.find_operation a.path a.method
]

-- `load` is `Load`, and the others are the parameters of `ExtractAPIs`, which has no error.
module _ {S : Type 0} (load : String → Result Document) (read : SpecReader)
    (marshal_tags : List String → String) (to_upper : String → String)
    (new_id : S → String × S) where
  unfoldable pub diff_docs : Document → Document → S → List Change × S
  diff_docs old newer s =
      let (old_apis, s₁) = extract_apis marshal_tags to_upper new_id old "" s in
      let (new_apis, s₂) = extract_apis marshal_tags to_upper new_id newer "" s₁ in
      (diff (operation_of read) old_apis new_apis, s₂)

  unfoldable pub diff_specs : String → String → S → Result (List Change) × S
  diff_specs old_spec new_spec s = elim (load old_spec) [
    | err e ↦ (err e, s)
    | ok old ↦ elim (load new_spec) [
      | err e ↦ (err e, s)
      | ok newer ↦ (let (changes, s') = diff_docs old newer s in (ok changes, s'))
    ]
  ]
