-- ===== src/Contract/Specs/Laws/Tests.antt =====
-- Two documents with one path, of which the second has lost a method.
use sentinel_api_platform.Prelude.{
  ℕ, suc, ◌≡◌, refl, sym, ap, some_injective, ◌↔◌, String, false, ◌==◌, ◌||◌, none, some, List, [],
  ◌∷◌, All, if◌then◌else◌,
}
use sentinel_api_platform.Effects.{Result, ok}
use sentinel_api_platform.Contract.Differ.{Change, index_by_path, is_breaking}
use sentinel_api_platform.Contract.Parser.{DocOperation, PathItem, Document, extract_apis}
use sentinel_api_platform.Contract.Specs.{SpecDocument, SpecReader, diff_specs}
use sentinel_api_platform.Contract.Specs.Laws.{StaysUnder, HasNoPaths, FindsKeys, diff_specs_blind}

abbrev list_pets : DocOperation
list_pets = record {
  summary = "";
  operation_id = "listPets";
  tags = [];
  request_body = none;
  response = λ status. none;
}

abbrev both : PathItem
both = record {
  operation_at = λ m. if m == "GET" || m == "HEAD" then some list_pets else none;
  json = "{}";
}

abbrev get_alone : PathItem
get_alone = record { operation_at = λ m. if m == "GET" then some list_pets else none; json = "{}" }

abbrev old_doc : Document
old_doc = record { paths = ("/pets", some both) ∷ [] }

abbrev new_doc : Document
new_doc = record { paths = ("/pets", some get_alone) ∷ [] }

abbrev load : String → Result Document
load spec = ok (if spec == "old" then old_doc else new_doc)

-- A path item has no paths of its own.
abbrev empty_document : SpecDocument
empty_document = record { path_keys = []; find_operation = λ path method. none }

abbrev read : SpecReader
read spec = some empty_document

abbrev no_tags : List String → String
no_tags tags = "[]"

abbrev same : String → String
same m = m

abbrev new_id : ℕ → String × ℕ
new_id n = ("a1", suc n)

reads_no_paths : HasNoPaths load read no_tags same new_id old_doc
reads_no_paths path item inner listed h = ap SpecDocument.path_keys (sym (some_injective h))

finds_keys : FindsKeys load read no_tags same new_id
finds_keys spec inner path method h none_there =
    ap (λ d. SpecDocument.find_operation d path method) (sym (some_injective h))

diff_specs_blind_example :
    let first_apis = extract_apis no_tags same new_id old_doc "" 0 in
    let second_apis = extract_apis no_tags same new_id new_doc "" first_apis.1 in
    (changes : List Change) × ((diff_specs load read no_tags same new_id "old" "new" 0).0
      ≡ ok changes)
    × ((is_breaking changes ≡ false)
        ↔ All (StaysUnder (index_by_path second_apis.0)) (index_by_path first_apis.0))
diff_specs_blind_example =
    diff_specs_blind load read no_tags same new_id "old" "new" old_doc new_doc 0 refl refl
      reads_no_paths finds_keys
