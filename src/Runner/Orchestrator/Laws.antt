-- ===== src/Runner/Orchestrator/Laws.antt =====
-- What a whole run comes to, in either mode.
mod Tests
use sentinel_api_platform.Prelude.{
  ℕ, zero, suc, ◌<◌, ◌≤◌, ◌≡◌, refl, ◌⊎◌, String, Bool, true, false, Option, none, List, length,
  if◌then◌else◌,
}
use sentinel_api_platform.Model.{TestCase, TestRun}
use sentinel_api_platform.Runner.Orchestrator.{Outside, start, is_parallel}
use sentinel_api_platform.Runner.Orchestrator.Counts.{IsSound, counted}
use sentinel_api_platform.Runner.Orchestrator.Pool.{Task, Pool, pool, capacity, Steps}
use sentinel_api_platform.Runner.Orchestrator.Pool.Balance.{Balance, Steps-Balance, start-Balance}

-- The run after its cases: cancelled with some of them counted, or running with all of them.
pub record IsRun (total : ℕ) (status : String) (run : TestRun) : Type 0 where
  pub total_of : run.total ≡ total
  pub ending :
      ((run.status ≡ "cancelled") × (counted run ≤ total))
      ⊎ ((run.status ≡ status) × (counted run ≡ total))

module _ {W : Type 0} (o : Outside W) (sound : IsSound o) where
  -- Where every result has a status that is counted and the run begins with no counts, however the
  -- goroutines interleave, no more of them run at once than the run's concurrency.
  pub Steps-bounded :
      (run : TestRun) (cases : List TestCase) (w : W) (p : Pool W)
      → counted run ≡ 0
      → Steps o (pool (start o run cases w).0 cases (start o run cases w).1) p
      → length p.tasks ≤ capacity run
  unfolding start
  Steps-bounded run cases w p zeros steps =
      (Steps-Balance o sound (pool (start o run cases w).0 cases (start o run cases w).1) p
        (start-Balance (start o run cases w).0 cases (start o run cases w).1 refl refl zeros)
        steps).bounded
