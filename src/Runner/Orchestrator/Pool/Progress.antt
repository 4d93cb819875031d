-- ===== src/Runner/Orchestrator/Pool/Progress.antt =====
-- The parallel mode: the work that a pool has left, and which pools have a next step.
use sentinel_api_platform.Prelude.{
  ℕ, suc, ◌+◌, ◌*◌, ◌<◌, ◌≤◌, ◌≡◌, refl, sym, ap, ◌∙◌, ◌⊎◌, inl, inr, Bool, true, false, Option,
  none, some, List, [], ◌∷◌, ◌++◌, length, arith, Bool-cases, Option-cases, List-cases,
}
use mathlib.Core.Bool.{false≢true}
use sentinel_api_platform.Model.{TestCase, TestRun}
use sentinel_api_platform.Runner.Orchestrator.{Outside, send, save, cancel}
use sentinel_api_platform.Runner.Orchestrator.Pool.{
  Task, sending, saving, counting, Pool, pool, capacity, Step, take, stop, acquire, sends, saves,
  counts, Steps, none_left, more, IsOver,
}

-- The calls that a goroutine has still to make.
abbrev pub task_work : Task → ℕ
task_work (sending _) = 3
task_work (saving _) = 2
task_work (counting _) = 1

abbrev pub tasks_work : List Task → ℕ
tasks_work [] = 0
tasks_work (t ∷ ts) = task_work t + tasks_work ts

abbrev pub waiting_work : Option TestCase → ℕ
waiting_work none = 0
waiting_work (some _) = 4

abbrev pub loop_work : Bool → ℕ
loop_work true = 0
loop_work false = 1

abbrev pub work : {W : Type 0} → Pool W → ℕ
work p =
    5 * length p.pending + (waiting_work p.waiting + (tasks_work p.tasks + loop_work p.stopped))

tasks_work-middle :
    (before after : List Task) (t : Task)
    → tasks_work (before ++ (t ∷ after)) ≡ task_work t + tasks_work (before ++ after)
tasks_work-middle [] after t = refl
tasks_work-middle (b ∷ before) after t = omega (arith, tasks_work-middle before after t)

module _ {W : Type 0} (o : Outside W) where
  Step-work : (p q : Pool W) → Step o p q → work q < work p
  unfolding cancel
  Step-work p q (take tc tcs runs free there go) = rw (free, there) (omega arith)
  Step-work p q (stop tc tcs runs free there done) = rw runs (omega arith)
  Step-work p q (acquire tc free slot) = rw free (omega arith)
  Step-work p q (sends before after tc r w there sent) = omega (
    arith,
    ap tasks_work there,
    tasks_work-middle before after (sending tc),
    tasks_work-middle before after (saving r),
  )
  Step-work p q (saves before after r there) = omega (
    arith,
    ap tasks_work there,
    tasks_work-middle before after (saving r),
    tasks_work-middle before after (counting (save o p.run r p.world).0),
  )
  Step-work p q (counts before after r there) =
      omega (arith, ap tasks_work there, tasks_work-middle before after (counting r))

  pub number : {p q : Pool W} → Steps o p q → ℕ
  number none_left = 0
  number (more ps s) = suc (number ps)

  number-work : (p q : Pool W) (ss : Steps o p q) → number ss + work q ≤ work p
  unfolding number
  number-work p q none_left = omega arith
  number-work p q (more {q = m} ps s) = omega (arith, number-work p m ps, Step-work m q s)

  -- However the goroutines of a parallel run interleave, it makes at most 5 n + 1 steps for n cases.
  pub Steps-end :
      (run : TestRun) (cases : List TestCase) (w : W) (q : Pool W)
      → (ss : Steps o (pool run cases w) q) → number ss ≤ 5 * length cases + 1
  Steps-end run cases w q ss = omega (arith, number-work (pool run cases w) q ss)

  -- A goroutine at its first call panics.
  pub record Panics (p : Pool W) : Type 0 where
    pub before : List Task
    pub after : List Task
    pub case_of : TestCase
    pub is_task : p.tasks ≡ before ++ (sending case_of ∷ after)
    pub panics : (send o p.run case_of p.world).0 ≡ none

  first_task :
      (p : Pool W) (t : Task) (ts : List Task)
      → p.tasks ≡ t ∷ ts
      → ((q : Pool W) × Step o p q) ⊎ Panics p
  first_task p (sending tc) ts e = elim (Option-cases (send o p.run tc p.world).0) [
    | inl stuck ↦
        inr (record { before = []; after = ts; case_of = tc; is_task = e; panics = stuck })
    | inr (r, sent) ↦ inl (
      _,
      sends [] ts tc r (send o p.run tc p.world).1 e
          (ap (λ x. (x, (send o p.run tc p.world).1)) sent),
    )
  ]
  first_task p (saving r) ts e = inl (_, saves [] ts r e)
  first_task p (counting r) ts e = inl (_, counts [] ts r e)

  next_case :
      (p : Pool W)
      → p.stopped ≡ false
      → p.waiting ≡ none
      → p.tasks ≡ []
      → IsOver o p ⊎ ((q : Pool W) × Step o p q) ⊎ Panics p
  next_case p runs free idle = elim (List-cases p.pending) [
    | inl e ↦ inl (record { no_tasks = idle; not_waiting = free; no_pending = λ _. e })
    | inr (tc, tcs, e) ↦ elim (Bool-cases (o.is_done p.world)) [
      | inl done ↦ inr (inl (_, stop tc tcs runs free e done))
      | inr go ↦ inr (inl (_, take tc tcs runs free e go))
    ]
  ]

  -- Where the run has at least one slot, no pool waits for ever: it is over, or it has a next step,
  -- or one of its goroutines is at a call that panics.
  pub Step-or-IsOver :
      (p : Pool W) → 0 < capacity p.run → IsOver o p ⊎ ((q : Pool W) × Step o p q) ⊎ Panics p
  Step-or-IsOver p room = elim (List-cases p.tasks) [
    | inr (t, ts, e) ↦ inr (first_task p t ts e)
    | inl e ↦ elim (Option-cases p.waiting) [
      | inr (tc, e₂) ↦ inr (inl (_, acquire tc e₂ (rw e room)))
      | inl e₂ ↦ elim (Bool-cases p.stopped) [
        | inl e₃ ↦ inl (record {
          no_tasks = e;
          not_waiting = e₂;
          no_pending = λ h. absurd (false≢true (sym h ∙ e₃));
        })
        | inr e₃ ↦ next_case p e₃ e₂ e
      ]
    ]
  ]
