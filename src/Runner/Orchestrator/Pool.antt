-- ===== src/Runner/Orchestrator/Pool.antt =====
-- `runParallel` of backend/internal/runner/runner.go as a step relation. The main goroutine checks
-- the context, takes the next case, waits for a free slot and starts a goroutine; each goroutine
-- goes through `execOne`, whose three parts interleave with those of the others.
pub mod Balance
pub mod Progress
use sentinel_api_platform.Prelude.{
  ℕ, zero, suc, ◌+◌, ◌<◌, ◌≡◌, ℤ, pos, negsuc, String, Bool, true, false, Option, none, some, List,
  [], ◌∷◌, ◌++◌, length,
}
use sentinel_api_platform.Model.{TestCase, TestRun}
use sentinel_api_platform.Runner.Executor.{TestResult}
use sentinel_api_platform.Runner.Orchestrator.{
  Outside, send, save, count, cancel, start, finish, run_sequential, is_parallel,
}

-- How far a goroutine is.
pub data Task : Type 0 where
  sending : TestCase → Task
  saving counting : TestResult → Task

-- The state of `runParallel`: the cases not yet taken, the case that waits for a slot, the
-- goroutines that hold one, whether the loop has returned early, the run and the world.
pub record Pool (W : Type 0) : Type 0 where
  pub pending : List TestCase
  pub waiting : Option TestCase
  pub tasks : List Task
  pub stopped : Bool
  pub run : TestRun
  pub world : W

-- the capacity of the channel `sem`
abbrev pub capacity : TestRun → ℕ
capacity run = elim run.concurrency [ pos n ↦ n | negsuc n ↦ 0 ]

abbrev pub pool : {W : Type 0} → TestRun → List TestCase → W → Pool W
pool run cases w = record {
  pending = cases;
  waiting = none;
  tasks = [];
  stopped = false;
  run = run;
  world = w;
}

module _ {W : Type 0} (o : Outside W) where
  pub data Step (p : Pool W) : Pool W → Type 0 where
    -- the loop's `select` finds the context open
    take :
        (tc : TestCase) (tcs : List TestCase)
        → p.stopped ≡ false
        → p.waiting ≡ none
        → p.pending ≡ tc ∷ tcs
        → o.is_done p.world ≡ false
        → Step p (record p { pending = tcs; waiting = some tc })
    -- it finds the context done
    stop :
        (tc : TestCase) (tcs : List TestCase)
        → p.stopped ≡ false
        → p.waiting ≡ none
        → p.pending ≡ tc ∷ tcs
        → o.is_done p.world ≡ true
        → Step p (record p {
          stopped = true;
          run = (cancel o p.run p.world).0;
          world = (cancel o p.run p.world).1;
        })
    -- `sem <- struct{}{}` goes on, and the goroutine starts
    acquire :
        (tc : TestCase)
        → p.waiting ≡ some tc
        → length p.tasks < capacity p.run
        → Step p (record p { waiting = none; tasks = sending tc ∷ p.tasks })
    -- one goroutine makes its next call
    sends :
        (before after : List Task) (tc : TestCase) (r : TestResult) (w : W)
        → p.tasks ≡ before ++ (sending tc ∷ after)
        → send o p.run tc p.world ≡ (some r, w)
        → Step p (record p { tasks = before ++ (saving r ∷ after); world = w })
    saves :
        (before after : List Task) (r : TestResult)
        → p.tasks ≡ before ++ (saving r ∷ after)
        → Step p (record p {
          tasks = before ++ (counting (save o p.run r p.world).0 ∷ after);
          world = (save o p.run r p.world).1;
        })
    -- the count, after which the goroutine gives its slot back
    counts :
        (before after : List Task) (r : TestResult)
        → p.tasks ≡ before ++ (counting r ∷ after)
        → Step p (record p {
          tasks = before ++ after;
          run = (count o p.run r p.world).0;
          world = (count o p.run r p.world).1;
        })

  pub data Steps (p : Pool W) : Pool W → Type 0 where
    none_left : Steps p p
    more : {q r : Pool W} → Steps p q → Step q r → Steps p r

  -- `wg.Wait()` returns: no goroutine is left, and the loop is over.
  pub record IsOver (p : Pool W) : Type 0 where
    pub no_tasks : p.tasks ≡ []
    pub not_waiting : p.waiting ≡ none
    pub no_pending : p.stopped ≡ false → p.pending ≡ []

  -- `Run`, with what it leaves: the run and the world.
  pub data Runs (run : TestRun) (cases : List TestCase) (w : W) : TestRun → W → Type 0 where
    in_turn :
        (run' : TestRun) (w' : W)
        → is_parallel run ≡ false
        → run_sequential o (start o run cases w).0 cases (start o run cases w).1 ≡ some (run', w')
        → Runs run cases w (finish o run' w').0 (finish o run' w').1
    in_parallel :
        (p : Pool W)
        → is_parallel run ≡ true
        → Steps (pool (start o run cases w).0 cases (start o run cases w).1) p
        → IsOver p
        → Runs run cases w (finish o p.run p.world).0 (finish o p.run p.world).1
