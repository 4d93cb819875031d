-- ===== src/Testing/Repo.antt =====
-- backend/internal/repository/test_case_repo.go, test_run_repo.go, test_result_repo.go and
-- mock_hit_repo.go: the rows of test cases, runs, results and mock hits. The errors of gorm are
-- passed on as they are. The times of creation and of updates are left out, and so the orders of
-- the lists are arguments.
use sentinel_api_platform.Prelude.{String, Bool, ◌==◌, List, if◌then◌else◌}
use sentinel_api_platform.Effects.{Call, pure, draw, ◌>>=◌, ◌>>◌, map_err, wrap}
use sentinel_api_platform.Model.{TestCase, TestRun, Columns}
use sentinel_api_platform.Gorm.{Table}
use sentinel_api_platform.Testing.Cases.{CaseStore}
use sentinel_api_platform.Testing.Runs.{RunStore}
use sentinel_api_platform.Runner.Executor.{TestResult}
use sentinel_api_platform.Mock.Engine.{MockHit}

-- `if row.ID == "" { row.ID = id.New() }`
abbrev pub with_id : {S : Type 0} → (S → String × S) → String → Call S String
with_id new_id id = if id == "" then draw new_id else pure id

-- `apply` is what gorm's `Updates` makes of a row.
module _ {S : Type 0} (table : Table S TestCase) (apply : Columns → TestCase → TestCase)
    (by_priority : TestCase → TestCase → Bool) (new_id : S → String × S) where
  pub create_case : TestCase → Call S (Unit {0})
  create_case tc = do id ← with_id new_id tc.id; table.insert (record tc { id = id })

  pub find_case : String → Call S TestCase
  find_case id = table.first_where (λ tc. tc.id == id)

  pub list_cases : String → Call S (List TestCase)
  list_cases pid = table.find_where (λ tc. tc.project_id == pid) by_priority

  pub update_case : String → Columns → Call S (Unit {0})
  update_case id fields = table.update_where (λ tc. tc.id == id) (apply fields) >> pure tt

  pub delete_case : String → Call S (Unit {0})
  delete_case id = table.delete_where (λ tc. tc.id == id) >> pure tt

  abbrev pub case_store : CaseStore S
  case_store = record {
    create = create_case;
    find_by_id = find_case;
    list_by_project = list_cases;
    update = update_case;
    delete = delete_case;
  }

module _ {S : Type 0} (table : Table S TestRun) (apply : Columns → TestRun → TestRun)
    (newer : TestRun → TestRun → Bool) (new_id : S → String × S) where
  pub create_run : TestRun → Call S (Unit {0})
  create_run run = do id ← with_id new_id run.id; table.insert (record run { id = id })

  pub find_run : String → Call S TestRun
  find_run id = table.first_where (λ run. run.id == id)

  pub list_runs : String → Call S (List TestRun)
  list_runs pid = table.find_where (λ run. run.project_id == pid) newer

  pub update_run : String → Columns → Call S (Unit {0})
  update_run id fields = table.update_where (λ run. run.id == id) (apply fields) >> pure tt

  abbrev pub run_store : RunStore S
  run_store = record {
    create = create_run;
    find_by_id = find_run;
    list_by_project = list_runs;
    update = update_run;
  }

module _ {S : Type 0} (table : Table S TestResult) (older : TestResult → TestResult → Bool)
    (new_id : S → String × S) where
  pub create_result : TestResult → Call S (Unit {0})
  create_result r = do id ← with_id new_id r.id; table.insert (record r { id = id })

  pub list_by_run : String → Call S (List TestResult)
  list_by_run run_id = table.find_where (λ r. r.run_id == run_id) older

module _ {S : Type 0} (table : Table S MockHit) where
  pub create_hit : MockHit → Call S (Unit {0})
  create_hit hit = map_err (wrap "create mock_hit: ") (table.insert hit)

  pub record_hit : MockHit → Call S (Unit {0})
  record_hit hit = create_hit hit
