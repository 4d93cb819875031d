-- ===== src/Mock/Extractor.antt =====
-- backend/internal/mock/extractor.go: writing values of a response body into the session's bag.
pub mod Laws
use sentinel_api_platform.Prelude.{
  String, Bool, true, false, not, ◌&&◌, ◌==◌, Option, none, some, List, [], ◌∷◌, if◌then◌else◌,
}
use sentinel_api_platform.Errs.{Error, other}
use sentinel_api_platform.Effects.{Result, ok, err, Call, pure, throw, ◌>>=◌, ◌>>◌, map_err, wrap}
use sentinel_api_platform.Json.{Json, null, arr, obj, Items, nil, cons, entries, Std}
use sentinel_api_platform.Mock.Matcher.{string_field}
use sentinel_api_platform.Mock.VarBag.{Bag}

pub record ExtractRule : Type 0 where
  pub path : String
  pub as_name : String
  pub from : String
  pub kind : String

-- One element of the array, decoded into an `extractRule`; `none` where that fails.
decode_rule : Json → Option ExtractRule
decode_rule null = some (record { path = ""; as_name = ""; from = ""; kind = "" })
decode_rule (obj fs) = elim (string_field "path" "" (entries fs)) [
  | none ↦ none
  | some path ↦ elim (string_field "as" "" (entries fs)) [
    | none ↦ none
    | some as_name ↦ elim (string_field "from" "" (entries fs)) [
      | none ↦ none
      | some from ↦ elim (string_field "type" "" (entries fs)) [
        | none ↦ none
        | some kind ↦ some (record { path = path; as_name = as_name; from = from; kind = kind })
      ]
    ]
  ]
]
decode_rule _ = none

decode_items : Items → Option (List ExtractRule)
decode_items nil = some []
decode_items (cons v vs) = elim (decode_rule v) [
  | none ↦ none
  | some r ↦ elim (decode_items vs) [ none ↦ none | some rs ↦ some (r ∷ rs) ]
]

-- `json.Unmarshal` into a slice of rules
pub decode_rules : Option Json → Option (List ExtractRule)
decode_rules (some (arr vs)) = decode_items vs
decode_rules (some null) = some []
decode_rules _ = none

-- What a rule extracts: nothing, a value, or an error of the configuration.
pub data Extracted : Type 0 where
  nothing : Extracted
  value : String → Extracted
  invalid : String → Extracted

-- The whole match where the pattern has no group, and the first group where it has one.
of_submatch : List String → Extracted
of_submatch [] = nothing
of_submatch (m ∷ []) = value m
of_submatch (m ∷ g ∷ _) = value g

of_gjson : Option String → Extracted
of_gjson none = nothing
of_gjson (some v) = value v

-- `gjson` is the library's lookup of a path in a body: the text of the value that is there.
module _ (std : Std) (gjson : String → String → Option String) where
  pub extract : ExtractRule → String → Extracted
  extract r body =
      if r.as_name == ""
      then invalid "`as` is required"
      else if r.path == ""
      then invalid "`path` is required"
      else if not (r.from == "") && not (r.from == "response.body")
      then invalid "`from` must be \"response.body\""
      else if r.kind == "regex"
      then (if std.compiles r.path
          then of_submatch (std.submatch r.path body)
          else invalid "bad regex")
      else of_gjson (gjson body r.path)

  module _ {S : Type 0} (bag : Bag S) (slug session body : String) where
    -- the loop of `Apply`
    pub apply_rules : List ExtractRule → Call S (Unit {0})
    apply_rules [] = pure tt
    apply_rules (r ∷ rs) = elim (extract r body) [
      | nothing ↦ apply_rules rs
      | invalid why ↦ throw (other why)
      | value v ↦
          map_err (wrap "extractor_json: write: ") (bag.set slug session r.as_name v)
          >> apply_rules rs
    ]

    unfoldable pub apply : String → Call S (Unit {0})
    unfolding string_field decode_rules decode_items decode_rule apply_rules extract of_submatch
        of_gjson
    apply extractor_json =
        if extractor_json == "" then pure tt else elim (decode_rules (std.parse extractor_json)) [
          | none ↦ throw (other "extractor_json: not an array")
          | some rules ↦ apply_rules rules
        ]
