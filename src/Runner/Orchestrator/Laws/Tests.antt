-- ===== src/Runner/Orchestrator/Laws/Tests.antt =====
-- The theorems on runs at concrete runs, over a world that counts the requests.
use sentinel_api_platform.Prelude.{
  ℕ, suc, ◌+◌, ◌*◌, ◌≤◌, refl, ◌⊎◌, pos, String, true, false, none, some, [], ◌∷◌, length, arith,
}
use sentinel_api_platform.Effects.{ok}
use sentinel_api_platform.Json.Toy.{toy}
use sentinel_api_platform.Model.{TestCase, TestRun}
use sentinel_api_platform.Runner.Assertion.{Validated, found, assert}
use sentinel_api_platform.Runner.Executor.{Network, TestResult, no_problem, answered, execute}
use sentinel_api_platform.Runner.Orchestrator.{
  Outside, aggregate, start, finish, exec_one, run_sequential, send, save, run_hook, store_result,
  count, publish_event, update_run, complete,
}
use sentinel_api_platform.Runner.Orchestrator.Counts.{IsSound}
use sentinel_api_platform.Runner.Orchestrator.Sound.{execute-IsCounted}
use sentinel_api_platform.Runner.Orchestrator.Pool.{
  Pool, sending, pool, capacity, Step, take, acquire, Steps, none_left, more, IsOver,
}
use sentinel_api_platform.Runner.Orchestrator.Pool.Progress.{
  number, Steps-end, Panics, Step-or-IsOver,
}
use sentinel_api_platform.Runner.Orchestrator.Laws.{Steps-bounded}

abbrev valid : String → String → Validated
valid schema body = found []

abbrev server : Network ℕ
server = record {
  accepts = λ method target. true;
  exchange = λ request n. (answered (pos 200) [] (λ limit. some "7"), suc n);
}

abbrev pet_case : TestCase
pet_case = record {
  id = "c1";
  project_id = "p1";
  method = "GET";
  path = "/pets";
  headers_json = none;
  body_json = none;
  expected_status = pos 200;
  expected_body_json = some "7";
  expected_body_match = "exact";
  expected_body_pattern = "";
  assertions_json = none;
}

abbrev outside : Outside ℕ
outside = record {
  execute = execute toy valid server "http://pets";
  fresh_id = λ n. ("r", n);
  hook = none;
  create = λ r n. (ok tt, n);
  update = λ id fields n. (ok tt, n);
  publish = none;
  now = λ n. n;
  is_done = λ n. false;
}

sound : IsSound outside
sound = record {
  execute_counted = execute-IsCounted toy valid server "http://pets";
  hook_counted = λ f h. ground arith;
}

abbrev run_of : String → TestRun
run_of mode = record {
  id = "run1";
  project_id = "p1";
  name = "nightly";
  status = "queued";
  mode = mode;
  concurrency = pos 2;
  target_base_url = "http://pets";
  total = 0;
  passed = 0;
  failed = 0;
  errored = 0;
  skipped = 0;
  started_at = none;
  finished_at = none;
  triggered_by = none;
  trigger_type = "manual";
}

computed : Unit {0}
unfolding start finish run_sequential exec_one send save run_hook store_result count aggregate
    execute assert publish_event update_run complete
computed = tt

abbrev begun : TestRun
begun = record (run_of "sequential") { total = 1; status = "running"; started_at = some 0 }

abbrev after_cases : TestRun
after_cases = record begun { passed = 1 }

abbrev ended : TestRun
ended = record after_cases { status = "success"; finished_at = some 1 }

abbrev pet_result : TestResult
pet_result = record {
  id = "";
  run_id = "";
  case_id = "c1";
  status = "pass";
  actual_status = some (pos 200);
  actual_headers = [];
  actual_body = some "7";
  failures = [];
  problem = no_problem;
  attempt = pos 1;
}

abbrev begun_parallel : TestRun
begun_parallel = record (run_of "parallel") { total = 1; status = "running"; started_at = some 0 }

abbrev taken : Pool ℕ
taken = record (pool begun_parallel [] 0) { waiting = some pet_case }

abbrev in_flight : Pool ℕ
in_flight = record taken { waiting = none; tasks = sending pet_case ∷ [] }

take-Step : Step outside (pool begun_parallel (pet_case ∷ []) 0) taken
take-Step = take pet_case [] refl refl refl refl

acquire-Step : Step outside taken in_flight
acquire-Step = acquire pet_case refl (omega arith)

two_steps :
    Steps outside
      (pool
        (start outside (run_of "parallel") (pet_case ∷ []) 0).0
        (pet_case ∷ [])
        (start outside (run_of "parallel") (pet_case ∷ []) 0).1)
      in_flight
unfolding computed
two_steps = more (more none_left take-Step) acquire-Step

Steps-bounded_example : length in_flight.tasks ≤ capacity (run_of "parallel")
Steps-bounded_example =
    Steps-bounded outside sound (run_of "parallel") (pet_case ∷ []) 0 in_flight refl two_steps

few_steps : Steps outside (pool begun_parallel (pet_case ∷ []) 0) in_flight
few_steps = more (more none_left take-Step) acquire-Step

Steps-end_example : number outside few_steps ≤ 5 * length (pet_case ∷ []) + 1
Steps-end_example = Steps-end outside begun_parallel (pet_case ∷ []) 0 in_flight few_steps

Step-or-IsOver_example :
    IsOver outside in_flight ⊎ ((q : Pool ℕ) × Step outside in_flight q) ⊎ Panics outside in_flight
Step-or-IsOver_example = Step-or-IsOver outside in_flight (omega arith)
