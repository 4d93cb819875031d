-- ===== src/Testing/Runs.antt =====
-- backend/internal/service/test_run_service.go: the life of a test run.
pub mod Laws
use sentinel_api_platform.Prelude.{String, not, ◌&&◌, ◌||◌, ◌==◌, none, some, pos, List, [], ◌∷◌}
use Prim.Native.String.{◌++◌}
use sentinel_api_platform.Errs.{Error, sentinel, other, bad_request}
use sentinel_api_platform.Effects.{
  Result, ok, err, Call, pure, throw, guard, draw, ignore, ◌>>=◌, ◌>>◌,
}
use sentinel_api_platform.Model.{TestRun, TestCase, Value, text, Columns}
use sentinel_api_platform.Apis.Service.{RoleChecker}
use sentinel_api_platform.Runner.Executor.{TestResult}
use sentinel_api_platform.Testing.Cases.{checked_role}

-- The interface `testRunStore`.
pub record RunStore (S : Type 0) : Type 0 where
  pub create : TestRun → Call S (Unit {0})
  pub find_by_id : String → Call S TestRun
  pub list_by_project : String → Call S (List TestRun)
  pub update : String → Columns → Call S (Unit {0})

-- What else the service reaches: the cases of a project and the results of a run, the map of the
-- functions that cancel the runs under way, and the goroutine, of which only the start is here.
pub record Surroundings (S : Type 0) : Type 0 where
  pub list_cases : String → Call S (List TestCase)
  pub list_results : String → Call S (List TestResult)
  -- `s.cancellers.Store(runID, cancel)`, and the call of the function that is stored, if any
  pub keep_cancel : String → S → S
  pub call_cancel : String → S → S
  -- `go func() { runner.Run(…) }()`
  pub spawn : TestRun → List TestCase → S → S

abbrev pub step : {S : Type 0} → (S → S) → Call S (Unit {0})
step f s = (ok tt, f s)

abbrev pub status_column : String → Columns
status_column status = ("status", text status) ∷ []

module _ {S : Type 0} (runs : RunStore S) (around : Surroundings S) (role_for : RoleChecker S)
    (new_id : S → String × S) where
  pub new_run : String → String → String → String → String → String → TestRun
  new_run id caller pid name url mode = record {
    id = id;
    project_id = pid;
    name = name;
    status = "queued";
    mode = mode;
    concurrency = pos 0;
    target_base_url = url;
    total = 0;
    passed = 0;
    failed = 0;
    errored = 0;
    skipped = 0;
    started_at = none;
    finished_at = none;
    triggered_by = some caller;
    trigger_type = "manual";
  }

  pub store_run : String → String → String → String → String → Call S TestRun
  store_run caller pid name url mode = do
    id ← draw new_id
    runs.create (new_run id caller pid name url mode)
    pure (new_run id caller pid name url mode)

  unfoldable pub create : String → String → String → String → String → Call S TestRun
  create caller pid name url mode =
      checked_role role_for caller pid (store_run caller pid name url mode)

  -- what follows the checks of a start
  pub begin : TestRun → String → List TestCase → Call S TestRun
  begin run id [] = throw (sentinel bad_request)
  begin run id (c ∷ cases) = do
    step (around.keep_cancel id)
    ignore (runs.update id (status_column "running"))
    step (around.spawn run (c ∷ cases))
    runs.find_by_id id

  -- The caller is not looked at.
  unfoldable pub start : String → String → Call S TestRun
  start caller id = do
    run ← runs.find_by_id id
    guard (run.status == "queued") (other ("run " ++ (id ++ (" is already " ++ run.status))))
    cases ← around.list_cases run.project_id
    begin run id cases

  pub stop : String → Call S (Unit {0})
  stop id = do step (around.call_cancel id); runs.update id (status_column "cancelled")

  unfoldable pub cancel : String → String → Call S (Unit {0})
  cancel caller id = do
    run ← runs.find_by_id id
    guard (run.status == "running" || run.status == "queued")
        (other ("run " ++ (id ++ (" is " ++ (run.status ++ ", cannot cancel")))))
    stop id

  unfoldable pub export_results : String → Call S (List TestResult)
  export_results id = around.list_results id

  unfoldable pub find_by_id : String → Call S TestRun
  find_by_id id = runs.find_by_id id

  unfoldable pub list_by_project : String → Call S (List TestRun)
  list_by_project pid = runs.list_by_project pid
