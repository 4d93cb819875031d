-- ===== src/Apis/Handlers/Laws/Tests.antt =====
-- An import at a service that creates every API but one.
use sentinel_api_platform.Prelude.{
  ℕ, suc, ◌≡◌, refl, String, false, ◌==◌, List, [], ◌∷◌, if◌then◌else◌,
}
use sentinel_api_platform.Errs.{sentinel, conflict}
use sentinel_api_platform.Effects.{ok, err, Call}
use sentinel_api_platform.Model.{Api}
use sentinel_api_platform.Http.{Request, sent, Binder, reply_of}
use sentinel_api_platform.Apis.Handlers.Import.{Imported, import_openapi, import_apis, import_all}
use sentinel_api_platform.Apis.Handlers.Laws.{IsImport, import_openapi-IsImport}

abbrev pets_api : Api
pets_api = record {
  id = "a1";
  project_id = "p1";
  name = "List pets";
  method = "GET";
  path = "/pets";
  operation_id = "";
  tags_json = "";
  request_schema_json = "";
  response_schema_json = "";
  spec_json = "";
  source = "manual";
  deprecated = false;
}

abbrev driver : ℕ → String
driver n = ""

-- A document with two operations, of which the second is there already.
abbrev create_one : String → String → Api → Call ℕ Api
create_one caller pid a n = (if a.path == "/pets" then ok a else err (sentinel conflict), suc n)

abbrev load : String → Call ℕ ℕ
load spec n = (ok 2, n)

abbrev extract : ℕ → String → Call ℕ (List Api)
extract doc pid n = (ok (pets_api ∷ record pets_api { path = "/dogs" } ∷ []), n)

abbrev read_spec : Binder String
read_spec body = ok body

abbrev by_ann : Request
by_ann = record { user_id = "ann"; param = λ _. "p1"; query = λ _. ""; body = "{}" }

abbrev counted : Imported
counted = record { imported = 1; total = 2; failures = "GET /dogs" ∷ [] }

import_run : (import_openapi create_one driver load extract read_spec by_ann 0).0 ≡ sent counted
unfolding import_openapi import_apis import_all reply_of
import_run = refl

import_openapi-IsImport_example :
    IsImport create_one driver load extract read_spec by_ann 0 counted
      (import_openapi create_one driver load extract read_spec by_ann 0).1
import_openapi-IsImport_example =
    import_openapi-IsImport create_one driver load extract read_spec by_ann 0 counted import_run
