-- ===== src/Runner/Orchestrator/Counts.antt =====
-- The counts of a run: what `aggregate` does to their sum, and which statuses it knows.
use sentinel_api_platform.Prelude.{
  some_injective, ℕ, suc, ◌+◌, ◌≡◌, refl, ap, inl, inr, String, some, arith, Option-cases,
}
use mathlib.Core.Path.{subst}
use sentinel_api_platform.Effects.{Result-cases}
use sentinel_api_platform.Model.{TestCase, TestRun}
use sentinel_api_platform.Runner.Executor.{TestResult}
use sentinel_api_platform.Runner.Orchestrator.{
  Outside, aggregate, send, run_hook, store_result, save, count, exec_one,
}

-- A status that `aggregate` counts.
pub data IsCounted (status : String) : Type 0 where
  is_pass : status ≡ "pass" → IsCounted status
  is_fail : status ≡ "fail" → IsCounted status
  is_error : status ≡ "error" → IsCounted status
  is_skip : status ≡ "skip" → IsCounted status

abbrev pub counted : TestRun → ℕ
counted run = run.passed + run.failed + run.errored + run.skipped

pub counted-aggregate :
    (status : String) (run : TestRun)
    → IsCounted status
    → counted (aggregate status run) ≡ suc (counted run)
unfolding aggregate
counted-aggregate status run (is_pass e) = rw e (omega arith)
counted-aggregate status run (is_fail e) = rw e (omega arith)
counted-aggregate status run (is_error e) = rw e (omega arith)
counted-aggregate status run (is_skip e) = rw e (omega arith)

-- Nothing but the counts is changed.
pub aggregate-keeps :
    (status : String) (run : TestRun)
    → ((aggregate status run).status ≡ run.status)
      × ((aggregate status run).total ≡ run.total)
      × ((aggregate status run).concurrency ≡ run.concurrency)
unfolding aggregate
aggregate-keeps status run = ground arith

-- The execution of a case, and the hook, give results with statuses that are counted.
pub record IsSound {W : Type 0} (o : Outside W) : Type 0 where
  pub execute_counted :
      (tc : TestCase) (w : W) (r : TestResult) → (o.execute tc w).0 ≡ some r → IsCounted r.status
  pub hook_counted :
      (f : TestRun → TestResult → W → TestResult × W)
      → o.hook ≡ some f
      → (run : TestRun) (r : TestResult) (w : W) → IsCounted r.status
      → IsCounted (f run r w).0.status

module _ {W : Type 0} (o : Outside W) (sound : IsSound o) where
  pub send-IsCounted :
      (run : TestRun) (tc : TestCase) (w w' : W) (r : TestResult)
      → send o run tc w ≡ (some r, w')
      → IsCounted r.status
  unfolding send
  send-IsCounted run tc w w' r h = elim (Option-cases (o.execute tc w).0) [
    | inl e ↦ (let stuck = rw (e, send) at (ap (λ x. x.0) h) in ground arith)
    | inr (q, e) ↦
        let same = ap (λ x. x.status) (some_injective (rw (e, send) at (ap (λ x. x.0) h))) in
        subst IsCounted same (sound.execute_counted tc w q e)
  ]

  hook-IsCounted :
      (run : TestRun) (r : TestResult) (w : W)
      → IsCounted r.status
      → IsCounted (run_hook o run r w).0.status
  unfolding run_hook
  hook-IsCounted run r w c = elim (Option-cases o.hook) [
    | inl e ↦ rw (e, run_hook) c
    | inr (f, e) ↦ rw (e, run_hook) (sound.hook_counted f e run r w c)
  ]

  store-IsCounted :
      (r : TestResult) (w : W) → IsCounted r.status → IsCounted (store_result o r w).0.status
  unfolding store_result
  store-IsCounted r w c = elim (Result-cases (o.create r w).0) [
    | inl (a, e) ↦ rw (e, store_result) c
    | inr (why, e) ↦ rw (e, store_result) (is_error refl)
  ]

  pub save-IsCounted :
      (run : TestRun) (r : TestResult) (w : W)
      → IsCounted r.status
      → IsCounted (save o run r w).0.status
  unfolding save
  save-IsCounted run r w c =
      store-IsCounted (run_hook o run r w).0 (run_hook o run r w).1 (hook-IsCounted run r w c)

  -- A case counts once, whichever its status.
  pub exec_one-counts :
      (run run' : TestRun) (tc : TestCase) (w w' : W)
      → exec_one o run tc w ≡ some (run', w')
      → (counted run' ≡ suc (counted run)) × (run'.status ≡ run.status) × (run'.total ≡ run.total)
  unfolding exec_one count
  exec_one-counts run run' tc w w' h = elim (Option-cases (send o run tc w).0) [
    | inl e ↦ (let stuck = rw (e, exec_one) at h in ground arith)
    | inr (r, e) ↦
        let c =
          save-IsCounted run r (send o run tc w).1 (
            send-IsCounted run tc w (send o run tc w).1 r (ap (λ x. (x, (send o run tc w).1)) e)) in
        let status = (save o run r (send o run tc w).1).0.status in
        let same : aggregate status run ≡ run' =
          ap (λ x. x.0) (some_injective (rw (e, exec_one) at h)) in
        let (a, b, _) = aggregate-keeps status run in
        (rw⁻¹ same (counted-aggregate status run c), rw⁻¹ same a, rw⁻¹ same b)
  ]
