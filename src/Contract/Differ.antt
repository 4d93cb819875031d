-- ===== src/Contract/Differ.antt =====
-- backend/internal/contract/differ.go: the changes between two sets of APIs.
pub mod Laws
use sentinel_api_platform.Prelude.{
  String, Bool, true, false, not, ◌&&◌, ◌||◌, ◌==◌, Option, none, some, List, [], ◌∷◌, ◌++◌, keep,
  if◌then◌else◌,
}
use Prim.Native.String
use sentinel_api_platform.Json.{lookup}
use sentinel_api_platform.Model.{Api}

-- `ChangeType` and `Change`
pub data ChangeType : Type 0 where
  added removed modified : ChangeType

pub record Change : Type 0 where
  pub kind : ChangeType
  pub path : String
  pub method : String
  pub field_name : String
  pub old_value : String
  pub new_value : String
  pub breaking : Bool

-- What is read of an operation of a document: the name of each parameter that has a value, with
-- whether it is required, and whether the body is, where there is one.
pub record Operation : Type 0 where
  pub parameters : List (Option (String × Bool))
  pub request_body : Option Bool

abbrev plain_change : ChangeType → Api → Bool → Change
plain_change kind a breaking = record {
  kind = kind;
  path = a.path;
  method = a.method;
  field_name = "";
  old_value = "";
  new_value = "";
  breaking = breaking;
}

pub method_change : Api → Api → Change
method_change a b = record (plain_change modified a true) {
  field_name = "method";
  old_value = a.method;
  new_value = b.method;
}

pub required_change : Api → String → Change
required_change a f = record (plain_change modified a true) {
  field_name = Prim.Native.String.◌++◌ "required." f;
  old_value = "required";
  new_value = "removed";
}

abbrev pub key_of : Api → String
key_of a = Prim.Native.String.◌++◌ a.method (Prim.Native.String.◌++◌ " " a.path)

-- `m[k] = a`
abbrev pub put : String → Api → List (String × Api) → List (String × Api)
put k a [] = (k, a) ∷ []
put k a ((j, b) ∷ m) = if j == k then (j, a) ∷ m else (j, b) ∷ put k a m

unfoldable pub index_from : List (String × Api) → List Api → List (String × Api)
index_from m [] = m
index_from m (a ∷ as') = index_from (put (key_of a) a m) as'

unfoldable pub index_by_path : List Api → List (String × Api)
unfolding index_from
index_by_path apis = index_from [] apis

abbrev pub contains : List String → String → Bool
contains [] s = false
contains (v ∷ vs) s = v == s || contains vs s

pub required_parameters : List (Option (String × Bool)) → List String
required_parameters [] = []
required_parameters (none ∷ ps) = required_parameters ps
required_parameters (some (name, true) ∷ ps) = name ∷ required_parameters ps
required_parameters (some (name, false) ∷ ps) = required_parameters ps

pub required_body : Option Bool → List String
required_body (some true) = "requestBody" ∷ []
required_body _ = []

pub collect_required : Operation → List String
collect_required op = required_parameters op.parameters ++ required_body op.request_body

pub is_breaking : List Change → Bool
is_breaking [] = false
is_breaking (c ∷ cs) = c.breaking || is_breaking cs

unfoldable pub breaking_changes : List Change → List Change
breaking_changes changes = keep (λ c. c.breaking) changes

-- `operation` is kin-openapi's reading of an API's document, and the operation found in it.
module _ (operation : Api → Option Operation) where
  pub lost_required : Api → List String → List String → List Change
  lost_required a [] now = []
  lost_required a (f ∷ fs) now =
      if contains now f
      then lost_required a fs now
      else required_change a f ∷ lost_required a fs now

  pub required_changes : Api → Api → List Change
  required_changes a b = elim (operation a) [
    | none ↦ []
    | some old ↦ elim (operation b) [
      | none ↦ []
      | some new ↦ lost_required a (collect_required old) (collect_required new)
    ]
  ]

  -- An API without a change is reported too, as modified and not breaking.
  pub or_modified : Api → List Change → List Change
  or_modified a [] = plain_change modified a false ∷ []
  or_modified a (c ∷ cs) = c ∷ cs

  pub diff_one : Api → Api → List Change
  diff_one a b =
      or_modified a
        ((if a.method == b.method then [] else method_change a b ∷ []) ++ required_changes a b)

  pub diff_old : List (String × Api) → List (String × Api) → List Change
  diff_old [] newer = []
  diff_old ((k, a) ∷ old) newer =
      (elim (lookup k newer) [ none ↦ plain_change removed a true ∷ [] | some b ↦ diff_one a b ])
      ++ diff_old old newer

  pub diff_new : List (String × Api) → List (String × Api) → List Change
  diff_new old [] = []
  diff_new old ((k, b) ∷ newer) = elim (lookup k old) [
    | none ↦ plain_change added b false ∷ diff_new old newer
    | some _ ↦ diff_new old newer
  ]

  unfoldable pub diff : List Api → List Api → List Change
  unfolding diff_old diff_new diff_one or_modified required_changes lost_required collect_required
      required_body required_parameters required_change method_change index_from
  diff old newer =
      diff_old (index_by_path old) (index_by_path newer)
      ++ diff_new (index_by_path old) (index_by_path newer)
