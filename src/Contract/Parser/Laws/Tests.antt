-- ===== src/Contract/Parser/Laws/Tests.antt =====
-- A document with two paths, of which one has no item.
use sentinel_api_platform.Prelude.{
  ℕ, suc, ◌≡◌, refl, String, ◌==◌, ◌||◌, none, some, List, [], ◌∷◌, map, All, str_lt, if◌then◌else◌,
}
use sentinel_api_platform.Model.{Api}
use sentinel_api_platform.Contract.Parser.{
  DocOperation, PathItem, Document, http_methods, build_api, extract_methods, extract_paths,
  extract_apis,
}
use sentinel_api_platform.Contract.Parser.Laws.{IsOperation, extract_apis-IsOperation}

abbrev list_pets : DocOperation
list_pets = record {
  summary = "";
  operation_id = "listPets";
  tags = "pets" ∷ [];
  request_body = some "{\"required\":true}";
  response = λ status. if status == "201" then some "{}" else none;
}

abbrev pets_item : PathItem
pets_item = record {
  operation_at = λ m. if m == "GET" || m == "HEAD" then some list_pets else none;
  json = "{}";
}

abbrev doc : Document
doc = record { paths = ("/pets", some pets_item) ∷ ("/dogs", none) ∷ [] }

abbrev one_tag : List String → String
one_tag tags = "[\"pets\"]"

abbrev same : String → String
same m = m

abbrev new_id : ℕ → String × ℕ
new_id n = ("a1", suc n)

extract_apis-IsOperation_example :
    All (IsOperation one_tag same new_id doc "p1") (extract_apis one_tag same new_id doc "p1" 0).0
extract_apis-IsOperation_example = extract_apis-IsOperation one_tag same new_id doc "p1" 0

extract_run : map Api.method (extract_apis one_tag same new_id doc "p1" 0).0 ≡ "GET" ∷ "HEAD" ∷ []
unfolding extract_apis extract_paths extract_methods http_methods build_api str_lt
extract_run = refl
