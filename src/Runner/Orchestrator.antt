-- ===== src/Runner/Orchestrator.antt =====
-- backend/internal/runner/runner.go: a test run from its start to its final status. The cases run
-- in turn here; Pool has the parallel mode.
pub mod Pool
pub mod Counts
pub mod Sound
pub mod Laws
use sentinel_api_platform.Prelude.{
  ℕ, suc, ◌+◌, ℤ, pos, String, Bool, true, false, ◌&&◌, ◌||◌, ◌==◌, Option, none, some, List, [],
  ◌∷◌, length, ltb, int_lt, if◌then◌else◌,
}
use sentinel_api_platform.Effects.{Result, ok, err, Call}
use sentinel_api_platform.Model.{TestCase, TestRun}
use sentinel_api_platform.Runner.Executor.{TestResult, persist_failed}

-- `RunEvent`, without its time.
pub record RunEvent : Type 0 where
  pub kind : String
  pub run_id : String
  pub total : ℕ
  pub passed : ℕ
  pub failed : ℕ
  pub errored : ℕ
  pub skipped : ℕ
  pub status : String

-- The maps of columns that `RunUpdater.Update` is called with.
pub data Update : Type 0 where
  set_running : ℕ → Update
  set_cancelled set_finished : Update
  set_completed : String → ℕ → ℕ → ℕ → Update

-- What a run reaches: the execution of a case (`none` where it panics), fresh ids, the optional
-- hook, the stores, the optional publisher, the clock, and whether the context is done.
pub record Outside (W : Type 0) : Type 0 where
  pub execute : TestCase → W → Option TestResult × W
  pub fresh_id : W → String × W
  pub hook : Option (TestRun → TestResult → W → TestResult × W)
  pub create : TestResult → Call W (Unit {0})
  pub update : String → Update → Call W (Unit {0})
  pub publish : Option (RunEvent → Call W (Unit {0}))
  pub now : W → ℕ
  pub is_done : W → Bool

-- `aggregate`
unfoldable pub aggregate : String → TestRun → TestRun
aggregate status run =
    if status == "pass"
    then record run { passed = suc run.passed }
    else if status == "fail"
    then record run { failed = suc run.failed }
    else if status == "error"
    then record run { errored = suc run.errored }
    else if status == "skip"
    then record run { skipped = suc run.skipped }
    else run

abbrev pub event : String → TestRun → String → RunEvent
event kind run status = record {
  kind = kind;
  run_id = run.id;
  total = run.total;
  passed = run.passed;
  failed = run.failed;
  errored = run.errored;
  skipped = run.skipped;
  status = status;
}

-- The event of a cancelled run leaves the counts at 0.
abbrev pub cancel_event : TestRun → RunEvent
cancel_event run = record {
  kind = "complete";
  run_id = run.id;
  total = 0;
  passed = 0;
  failed = 0;
  errored = 0;
  skipped = 0;
  status = "cancelled";
}

abbrev pub final_status : TestRun → String
final_status run = if ltb 0 run.failed || ltb 0 run.errored then "failed" else "success"

-- `run.Mode == "parallel" && run.Concurrency > 1`
abbrev pub is_parallel : TestRun → Bool
is_parallel run = run.mode == "parallel" && int_lt (pos 1) run.concurrency

module _ {W : Type 0} (o : Outside W) where
  -- An event's error is only logged, and so is an update's.
  pub publish_event : RunEvent → W → W
  publish_event evt w = elim o.publish [ none ↦ w | some f ↦ (f evt w).1 ]

  pub update_run : TestRun → Update → W → W
  update_run run fields w = (o.update run.id fields w).1

  -- The first lines of `execOne`.
  pub send : TestRun → TestCase → W → Option TestResult × W
  send run tc w =
      let (result, w₁) = o.execute tc w in
      elim result [
        | none ↦ (none, w₁)
        | some r ↦
            let (id, w₂) = o.fresh_id w₁ in (some (record r { id = id; run_id = run.id }), w₂)
      ]

  pub run_hook : TestRun → TestResult → W → TestResult × W
  run_hook run r w = elim o.hook [ none ↦ (r, w) | some f ↦ f run r w ]

  pub store_result : TestResult → W → TestResult × W
  store_result r w =
      let (stored, w') = o.create r w in
      elim stored [
        | ok _ ↦ (r, w')
        | err _ ↦ (record r { status = "error"; problem = persist_failed }, w')
      ]

  -- The hook and the store of the result.
  pub save : TestRun → TestResult → W → TestResult × W
  save run r w = let (r', w') = run_hook run r w in store_result r' w'

  -- The count under the lock, and the event with the counts it has seen.
  pub count : TestRun → TestResult → W → TestRun × W
  count run r w =
      let run' = aggregate r.status run in (run', publish_event (event "progress" run' "running") w)

  -- `none` where the case panics: the process ends
  pub exec_one : TestRun → TestCase → W → Option (TestRun × W)
  exec_one run tc w =
      let (result, w₁) = send run tc w in
      elim result [ none ↦ none | some r ↦ let (r', w₂) = save run r w₁ in some (count run r' w₂) ]

  pub cancel : TestRun → W → TestRun × W
  cancel run w =
      let run' = record run { status = "cancelled" } in
      (run', publish_event (cancel_event run') (update_run run' set_cancelled w))

  pub run_sequential : TestRun → List TestCase → W → Option (TestRun × W)
  run_sequential run [] w = some (run, w)
  run_sequential run (tc ∷ tcs) w =
      if o.is_done w
      then some (cancel run w)
      else elim (exec_one run tc w) [ none ↦ none | some (run', w') ↦ run_sequential run' tcs w' ]

  -- Before the cases: the run is marked running.
  pub start : TestRun → List TestCase → W → TestRun × W
  start run cases w =
      let run' = record run {
        total = length cases;
        status = "running";
        started_at = some (o.now w);
      } in
      (run', update_run run' (set_running (length cases)) w)

  pub complete : TestRun → W → TestRun × W
  complete run w =
      let run' = record run { status = final_status run } in
      let w' = publish_event (event "complete" run' run'.status) w in
      (run', update_run run' (set_completed run'.status run'.passed run'.failed run'.errored) w')

  -- After the cases: a cancelled run keeps its status.
  pub finish : TestRun → W → TestRun × W
  finish run w =
      let run' = record run { finished_at = some (o.now w) } in
      if run.status == "cancelled" then (run', update_run run' set_finished w) else complete run' w
