-- ===== src/Contract/Differ/Laws/Tests.antt =====
-- The theorem on comparisons at two versions of one API.
use sentinel_api_platform.Prelude.{
  ◌≡◌, refl, ◌↔◌, String, true, false, ◌==◌, Option, some, [], ◌∷◌, All,
}
use sentinel_api_platform.Model.{Api}
use sentinel_api_platform.Contract.Differ.{Operation, index_by_path, is_breaking, diff}
use sentinel_api_platform.Contract.Differ.Laws.{StaysIn, diff_iff}

abbrev pets : String → Api
pets spec = record {
  id = "a1";
  project_id = "p1";
  name = "pets";
  method = "GET";
  path = "/pets";
  operation_id = "";
  tags_json = "";
  request_schema_json = "";
  response_schema_json = "";
  spec_json = spec;
  source = "openapi";
  deprecated = false;
}

-- The first version requires a limit.
abbrev operation : Api → Option Operation
operation a =
    some
      (record { parameters = some ("limit", a.spec_json == "v1") ∷ []; request_body = some false })

diff_iff_example :
    (is_breaking (diff operation (pets "v1" ∷ []) (pets "v2" ∷ [])) ≡ false)
    ↔ All (StaysIn operation (index_by_path (pets "v2" ∷ []))) (index_by_path (pets "v1" ∷ []))
diff_iff_example = diff_iff operation (pets "v1" ∷ []) (pets "v2" ∷ [])

-- The requirement is gone.
lost_run : is_breaking (diff operation (pets "v1" ∷ []) (pets "v2" ∷ [])) ≡ true
unfolding diff index_by_path is_breaking
lost_run = refl

kept_run : is_breaking (diff operation (pets "v2" ∷ []) (pets "v1" ∷ [])) ≡ false
unfolding diff index_by_path is_breaking
kept_run = refl
