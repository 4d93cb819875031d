-- ===== src/Rules/Repo/Refines/Tests.antt =====
-- The refinement at a table that is a list of rows.
use sentinel_api_platform.Prelude.{
  String, ◌==◌, ◌≡◌, refl, Bool, true, false, Option, some, List, [], ◌∷◌, ◌++◌, pos, if◌then◌else◌,
}
use sentinel_api_platform.Errs.{mysql_error}
use sentinel_api_platform.Effects.{ok, err, Call}
use sentinel_api_platform.Json.{lookup}
use sentinel_api_platform.Model.{MockRule, Api, Value, text, Columns}
use sentinel_api_platform.Gorm.{Table, first, count, update_all, delete_all, result_of, is_some}
use sentinel_api_platform.Rules.Repo.{stored_rule}
use sentinel_api_platform.Rules.Repo.RuleMap.{Op, create_rule, update_rule, hit_rule, delete_rule}
use sentinel_api_platform.Rules.Repo.Refines.{statements}

abbrev Rows : Type 0
Rows = List MockRule

abbrev column : String → String
column written = if written == "{ }" then "{}" else written

abbrev is_there : MockRule → Rows → Bool
is_there r rows = is_some (first (λ q. q.id == r.id) rows)

abbrev table : Table Rows MockRule
table = record {
  insert = λ r rows. (
    if is_there r rows then err (mysql_error 1062) else ok tt,
    if is_there r rows then rows else rows ++ (stored_rule column r ∷ []),
  );
  first_where = λ p rows. (result_of (first p rows), rows);
  find_where = λ p before rows. (ok [], rows);
  update_where = λ p f rows. (ok (count p rows), update_all p f rows);
  delete_where = λ p rows. (ok (count p rows), delete_all p rows);
}

-- A row takes the name of an update.
abbrev renamed : Option Value → MockRule → MockRule
renamed (some (text s)) r = record r { name = s }
renamed _ r = r

abbrev apply : Columns → MockRule → MockRule
apply fields r = renamed (lookup "name" fields) r

abbrev no_join : (MockRule → Api → Bool) → (MockRule → MockRule → Bool) → Call Rows (List MockRule)
no_join p before rows = (ok [], rows)

abbrev sample : MockRule
sample = record {
  id = "r1";
  api_id = "a1";
  name = "any";
  match_json = "{}";
  response_status = pos 200;
  response_headers_json = "";
  response_body_json = "";
  extractor_json = "";
  priority = pos 100;
  delay_ms = pos 0;
  enabled = false;
  hit_count = 0;
}

-- The second creation and the hit of a rule that is not there fail.
abbrev calls : List Op
calls =
    create_rule sample
    ∷ create_rule sample
    ∷ hit_rule "r1"
    ∷ hit_rule "r2"
    ∷ update_rule "r1" (("name", text "pets") ∷ [])
    ∷ delete_rule "r1"
    ∷ []

-- Which of the statements have an effect.
statements_run :
    (statements table apply no_join calls []).0 ≡ true ∷ false ∷ true ∷ false ∷ true ∷ true ∷ []
statements_run = refl
