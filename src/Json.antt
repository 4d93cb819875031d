-- ===== src/Json.antt =====
-- JSON as `encoding/json` decodes it, and the parts of Go's standard library whose inner workings
-- the models leave open: the JSON reader and printer, the regular expressions, and the canonical
-- spelling of header names.
pub mod Toy
use sentinel_api_platform.Prelude.{
  ℕ, ℤ, String, Bool, true, false, Option, none, some, List, [], ◌∷◌, ◌==◌, ◌&&◌, ◌+◌, leb, nat_eq,
  if◌then◌else◌,
}
use Prim.Native.Char.{code}
use Prim.Native.String

-- A decoded value. A number is kept as the text that `json.Marshal` prints for its float64. The
-- entries of an object have distinct keys, as in a Go map, in the order of the document.
mutual
  pub data Json : Type 0 where
    null : Json
    bool : Bool → Json
    num : String → Json
    str : String → Json
    arr : Items → Json
    obj : Fields → Json

  pub data Items : Type 0 where
    nil : Items
    cons : Json → Items → Items

  pub data Fields : Type 0 where
    end : Fields
    field : String → Json → Fields → Fields

abbrev pub entries : Fields → List (String × Json)
entries end = []
entries (field k v fs) = (k, v) ∷ entries fs

abbrev pub elements : Items → List Json
elements nil = []
elements (cons v vs) = v ∷ elements vs

abbrev pub lookup {ℓ} : {V : Type ℓ} → String → List (String × V) → Option V
lookup k [] = none
lookup k ((j, v) ∷ m) = if j == k then some v else lookup k m

abbrev lower : ℕ → ℕ
lower c = if leb b'A' c && leb c b'Z' then c + 32 else c

-- `strings.EqualFold` on ASCII letters
abbrev pub equal_fold : String → String → Bool
equal_fold String.[] String.[] = true
equal_fold (String.◌∷◌ c s) (String.◌∷◌ d t) =
    nat_eq (lower (code c)) (lower (code d)) && equal_fold s t
equal_fold _ _ = false

pub record Std : Type 0 where
  -- `json.Unmarshal` into an `any`, and `json.Marshal` of one
  pub parse : String → Option Json
  pub marshal : Json → String
  -- whether `regexp.Compile` accepts the pattern, and `FindStringSubmatch`: the match and its
  -- groups, empty where there is no match
  pub compiles : String → Bool
  pub submatch : String → String → List String
  -- `int(f)` for the float64 that prints so
  pub truncate : String → ℤ
  -- `http.CanonicalHeaderKey`
  pub canonical : String → String

-- `re.MatchString(s)`
abbrev pub matches : Std → String → String → Bool
matches std pattern s = elim (std.submatch pattern s) [ [] ↦ false | _ ∷ _ ↦ true ]

-- `http.Header.Set` and `http.Header.Del`, on headers with one value each
abbrev pub set_header : Std → String → String → List (String × String) → List (String × String)
set_header std k v [] = (std.canonical k, v) ∷ []
set_header std k v ((j, w) ∷ hs) =
    if j == std.canonical k then (j, v) ∷ hs else (j, w) ∷ set_header std k v hs

abbrev pub del_header : Std → String → List (String × String) → List (String × String)
del_header std k [] = []
del_header std k ((j, w) ∷ hs) =
    if j == std.canonical k then del_header std k hs else (j, w) ∷ del_header std k hs
