-- ===== src/Testing/Handlers.antt =====
-- backend/internal/api/test_case.go and test_run.go: the HTTP handlers of test cases and runs.
-- `Export` and `Stream` have modules of their own.
pub mod Export
pub mod Stream
use sentinel_api_platform.Prelude.{ℕ, String, ◌==◌, List, if◌then◌else◌}
use sentinel_api_platform.Errs.{text}
use sentinel_api_platform.Errs.Mapper.{Failure, fail}
use sentinel_api_platform.Effects.{Result, ok, err, Call}
use sentinel_api_platform.Model.{TestCase, TestRun, Columns}
use sentinel_api_platform.Http.{Request, Reply, sent, failed, Handler, Binder, answer, with_body}
use sentinel_api_platform.Apis.Service.{RoleChecker}
use sentinel_api_platform.Testing.Cases.{CaseStore}
use sentinel_api_platform.Testing.Cases
use sentinel_api_platform.Testing.Runs.{RunStore, Surroundings}
use sentinel_api_platform.Testing.Runs
use sentinel_api_platform.Runner.Executor.{TestResult}

-- `Get` answers 404 to any error, with its text.
abbrev pub found_or_404 : {A : Type 0} → (ℕ → String) → Result A → Reply A
found_or_404 driver (ok a) = sent a
found_or_404 driver (err e) = failed (fail 404 40400 (text driver e))

module _ {S : Type 0} (cases : CaseStore S) (role_for : RoleChecker S) (new_id : S → String × S)
    (driver : ℕ → String) where
  unfoldable pub create_case : Binder TestCase → Request → Handler S TestCase
  create_case bind r =
      with_body driver bind r
        (λ tc. answer driver (Cases.create cases role_for new_id r.user_id (r.param "pid") tc))

  unfoldable pub list_cases : Request → Handler S (List TestCase)
  list_cases r = answer driver (Cases.list_by_project cases role_for new_id (r.param "pid"))

  unfoldable pub get_case : Request → Handler S TestCase
  get_case r s =
      let (found, s') = Cases.find_by_id cases role_for new_id (r.param "caseId") s in
      (found_or_404 driver found, s')

  unfoldable pub update_case : Binder Columns → Request → Handler S TestCase
  update_case bind r = with_body driver bind r (λ fields.
      answer driver
        (Cases.update cases role_for new_id r.user_id (r.param "pid") (r.param "caseId") fields))

  unfoldable pub delete_case : Request → Handler S (Unit {0})
  delete_case r =
      answer driver
        (Cases.delete cases role_for new_id r.user_id (r.param "pid") (r.param "caseId"))

pub record CreateRunRequest : Type 0 where
  pub name : String
  pub target_base_url : String
  pub mode : String

abbrev pub mode_or_default : String → String
mode_or_default mode = if mode == "" then "sequential" else mode

module _ {S : Type 0} (runs : RunStore S) (around : Surroundings S) (role_for : RoleChecker S)
    (new_id : S → String × S) (driver : ℕ → String) where
  unfoldable pub create_run : Binder CreateRunRequest → Request → Handler S TestRun
  create_run bind r = with_body driver bind r (λ q. answer driver (
      Runs.create runs around role_for new_id r.user_id (r.param "pid") q.name q.target_base_url
        (mode_or_default q.mode)))

  unfoldable pub start_run : Request → Handler S TestRun
  start_run r = answer driver (Runs.start runs around role_for new_id r.user_id (r.param "runId"))

  unfoldable pub list_runs : Request → Handler S (List TestRun)
  list_runs r = answer driver (Runs.list_by_project runs around role_for new_id (r.param "pid"))

  unfoldable pub get_run : Request → Handler S TestRun
  get_run r s =
      let (found, s') = Runs.find_by_id runs around role_for new_id (r.param "runId") s in
      (found_or_404 driver found, s')

  unfoldable pub cancel_run : Request → Handler S (Unit {0})
  cancel_run r = answer driver (Runs.cancel runs around role_for new_id r.user_id (r.param "runId"))
