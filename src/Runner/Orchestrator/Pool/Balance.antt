-- ===== src/Runner/Orchestrator/Pool/Balance.antt =====
-- The parallel mode: no case is lost or counted twice, and no more cases run at once than the
-- run's concurrency.
use sentinel_api_platform.Prelude.{
  ℕ, suc, ◌+◌, ◌≤◌, ◌≡◌, refl, ap, ◌∙◌, ◌⊎◌, inl, inr, true, false, Option, none, some, List, [],
  ◌∷◌, ◌++◌, length, All, arith,
}
use sentinel_api_platform.Model.{TestCase, TestRun}
use sentinel_api_platform.Runner.Orchestrator.{Outside, save, count, cancel}
use sentinel_api_platform.Runner.Orchestrator.Counts.{
  IsCounted, IsSound, counted, counted-aggregate, aggregate-keeps, send-IsCounted, save-IsCounted,
}
use sentinel_api_platform.Runner.Orchestrator.Pool.{
  Task, sending, saving, counting, Pool, pool, capacity, Step, take, stop, acquire, sends, saves,
  counts, Steps, none_left, more,
}

-- A goroutine's result has a status that is counted.
abbrev pub IsTask : Task → Type 0
IsTask (sending tc) = Unit
IsTask (saving r) = IsCounted r.status
IsTask (counting r) = IsCounted r.status

All-middle : (before after : List Task) (t : Task) → All IsTask (before ++ (t ∷ after)) → IsTask t
All-middle [] after t h = h.0
All-middle (b ∷ before) after t h = All-middle before after t h.1

All-replace :
    (before after : List Task) (t u : Task)
    → All IsTask (before ++ (t ∷ after))
    → IsTask u
    → All IsTask (before ++ (u ∷ after))
All-replace [] after t u h k = (k, h.1)
All-replace (b ∷ before) after t u h k = (h.0, All-replace before after t u h.1 k)

All-remove :
    (before after : List Task) (t : Task)
    → All IsTask (before ++ (t ∷ after))
    → All IsTask (before ++ after)
All-remove [] after t h = h.1
All-remove (b ∷ before) after t h = (h.0, All-remove before after t h.1)

length-middle :
    (before after : List Task) (t : Task)
    → length (before ++ (t ∷ after)) ≡ suc (length (before ++ after))
length-middle [] after t = refl
length-middle (b ∷ before) after t = ap suc (length-middle before after t)

abbrev pub waiting_count : Option TestCase → ℕ
waiting_count none = 0
waiting_count (some _) = 1

-- The cases that are counted, running, waiting and not yet taken are all the cases, and the
-- goroutines are no more than the slots.
pub record Balance {W : Type 0} (total slots : ℕ) (p : Pool W) : Type 0 where
  pub sums : counted p.run + (length p.tasks + (waiting_count p.waiting + length p.pending)) ≡ total
  pub total_of : p.run.total ≡ total
  pub bounded : length p.tasks ≤ slots
  pub slots_of : capacity p.run ≡ slots
  pub tasks_counted : All IsTask p.tasks
  pub status_of :
      ((p.stopped ≡ false) × (p.run.status ≡ "running"))
      ⊎ ((p.stopped ≡ true) × (p.run.status ≡ "cancelled"))

module _ {W : Type 0} (o : Outside W) (sound : IsSound o) {total slots : ℕ} where
  Step-Balance : (p q : Pool W) → Balance total slots p → Step o p q → Balance total slots q
  unfolding cancel count
  Step-Balance p q b (take tc tcs runs free there go) = record {
    sums = (let old = rw (free, there) at b.sums in omega arith);
    total_of = b.total_of;
    bounded = b.bounded;
    slots_of = b.slots_of;
    tasks_counted = b.tasks_counted;
    status_of = b.status_of;
  }
  Step-Balance p q b (stop tc tcs runs free there done) = record {
    sums = b.sums;
    total_of = b.total_of;
    bounded = b.bounded;
    slots_of = b.slots_of;
    tasks_counted = b.tasks_counted;
    status_of = inr (refl, refl);
  }
  Step-Balance p q b (acquire tc free slot) = record {
    sums = (let old = rw free at b.sums in omega arith);
    total_of = b.total_of;
    bounded = (let room = rw b.slots_of at slot in omega arith);
    slots_of = b.slots_of;
    tasks_counted = (tt, b.tasks_counted);
    status_of = b.status_of;
  }
  Step-Balance p q b (sends before after tc r w there sent) = record {
    sums = omega (
      arith,
      b.sums,
      (ap length there ∙ length-middle before after (sending tc)),
      length-middle before after (saving r),
    );
    total_of = b.total_of;
    bounded = omega (
      arith,
      b.bounded,
      (ap length there ∙ length-middle before after (sending tc)),
      length-middle before after (saving r),
    );
    slots_of = b.slots_of;
    tasks_counted =
        All-replace before after (sending tc) (saving r) (rw there at b.tasks_counted)
          (send-IsCounted o sound p.run tc p.world w r sent);
    status_of = b.status_of;
  }
  Step-Balance p q b (saves before after r there) = record {
    sums = omega (
      arith,
      b.sums,
      (ap length there ∙ length-middle before after (saving r)),
      length-middle before after (counting (save o p.run r p.world).0),
    );
    total_of = b.total_of;
    bounded = omega (
      arith,
      b.bounded,
      (ap length there ∙ length-middle before after (saving r)),
      length-middle before after (counting (save o p.run r p.world).0),
    );
    slots_of = b.slots_of;
    tasks_counted =
        All-replace before after (saving r) (counting (save o p.run r p.world).0)
          (rw there at b.tasks_counted)
          (save-IsCounted o sound p.run r p.world
            (All-middle before after (saving r) (rw there at b.tasks_counted)));
    status_of = b.status_of;
  }
  Step-Balance p q b (counts before after r there) = record {
    sums = omega (
      arith,
      b.sums,
      (ap length there ∙ length-middle before after (counting r)),
      counted-aggregate r.status p.run
          (All-middle before after (counting r) (rw there at b.tasks_counted)),
    );
    total_of = (let (_, same, _) = aggregate-keeps r.status p.run in same ∙ b.total_of);
    bounded = omega (arith, b.bounded, (ap length there ∙ length-middle before after (counting r)));
    slots_of = (let (_, _, same) = aggregate-keeps r.status p.run in rw same b.slots_of);
    tasks_counted = All-remove before after (counting r) (rw there at b.tasks_counted);
    status_of =
        (let (same, _, _) = aggregate-keeps r.status p.run in
          elim b.status_of [ inl (a, e) ↦ inl (a, same ∙ e) | inr (a, e) ↦ inr (a, same ∙ e) ]);
  }

  pub Steps-Balance : (p q : Pool W) → Balance total slots p → Steps o p q → Balance total slots q
  Steps-Balance p q b none_left = b
  Steps-Balance p q b (more {q = m} ps s) = Step-Balance m q (Steps-Balance p m b ps) s

module _ {W : Type 0} (run : TestRun) (cases : List TestCase) (w : W) where
  pub start-Balance :
      run.status ≡ "running"
      → run.total ≡ length cases
      → counted run ≡ 0
      → Balance (length cases) (capacity run) (pool run cases w)
  start-Balance running all zeros = record {
    sums = omega (arith, zeros);
    total_of = all;
    bounded = omega arith;
    slots_of = refl;
    tasks_counted = tt;
    status_of = inl (refl, running);
  }
