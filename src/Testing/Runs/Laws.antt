-- ===== src/Testing/Runs/Laws.antt =====
-- The statuses that a run goes through.
mod Tests
use sentinel_api_platform.Prelude.{
  ◌≡◌, refl, sym, ap, ◌∙◌, ◌⊎◌, inl, inr, String, Bool, true, false, ◌||◌, ◌==◌, eq_iff, Option,
  none, some, List, [], ◌∷◌, Bool-cases, arith, if◌then◌else◌,
}
use mathlib.Core.Path.{subst}
use sentinel_api_platform.Errs.{Error, sentinel, other, record_not_found}
use sentinel_api_platform.Effects.{
  Result, ok, err, Call, guard, ignore, throw, ◌>>=◌, ◌>>◌, Result-cases, ok_injective,
}
use sentinel_api_platform.Model.{TestRun, TestCase, Columns}
use sentinel_api_platform.Apis.Service.{RoleChecker}
use sentinel_api_platform.Testing.Runs.{
  RunStore, Surroundings, step, status_column, start, begin, cancel, stop,
}

-- The changes of a status that a start and a cancellation make.
pub data Moves : Option String → Option String → Type 0 where
  stays : {st : Option String} → Moves st st
  starts : Moves (some "queued") (some "running")
  cancels_queued : Moves (some "queued") (some "cancelled")
  cancels_running : Moves (some "running") (some "cancelled")

-- The store as a table: `status` is the status of the run with an id, if there is one. A lookup
-- gives the run, an update of a status sets it, or fails and changes nothing, and nothing else that
-- the service calls changes a status.
pub record Statuses {S : Type 0} (runs : RunStore S) (around : Surroundings S)
    (status : S → String → Option String) : Type 0 where
  pub found :
      (id : String) (s : S) (run : TestRun)
      → (runs.find_by_id id s).0 ≡ ok run
      → status s id ≡ some run.status
  pub find_frame : (id k : String) (s : S) → status (runs.find_by_id id s).1 k ≡ status s k
  pub updated :
      (id new k : String) (s : S)
      → (status (runs.update id (status_column new) s).1 k ≡ status s k)
        ⊎ ((id ≡ k) × (status (runs.update id (status_column new) s).1 k ≡ some new))
  pub list_frame : (pid k : String) (s : S) → status (around.list_cases pid s).1 k ≡ status s k
  pub keep_frame : (id k : String) (s : S) → status (around.keep_cancel id s) k ≡ status s k
  pub call_frame : (id k : String) (s : S) → status (around.call_cancel id s) k ≡ status s k
  pub spawn_frame :
      (run : TestRun) (cases : List TestCase) (k : String) (s : S)
      → status (around.spawn run cases s) k ≡ status s k

module _ {S : Type 0} (runs : RunStore S) (around : Surroundings S) (role_for : RoleChecker S)
    (new_id : S → String × S) (status : S → String → Option String)
    (statuses : Statuses runs around status) where
  -- A call that leaves the statuses, and what happens from the state after it.
  from_same :
      {k : String} (s s₁ : S) {st : Option String}
      → status s₁ k ≡ status s k
      → Moves (status s₁ k) st
      → Moves (status s k) st
  from_same s s₁ {st = st} same m = subst (λ x. Moves x st) same m

  to_same : {k : String} (s s₁ : S) → status s₁ k ≡ status s k → Moves (status s k) (status s₁ k)
  to_same {k = k} s s₁ same = subst (λ x. Moves (status s k) x) (sym same) stays

  begin-Moves :
      (run : TestRun) (id : String) (cases : List TestCase) (s : S) (k : String)
      → (status s id ≡ some "queued")
      → Moves (status s k) (status (begin runs around role_for new_id run id cases s).1 k)
  unfolding begin
  begin-Moves run id [] s k queued = stays
  begin-Moves run id (c ∷ cases) s k queued =
      let s₁ = around.keep_cancel id s in
      let s₂ = (runs.update id (status_column "running") s₁).1 in
      let s₃ = around.spawn run (c ∷ cases) s₂ in
      let after : status (runs.find_by_id id s₃).1 k ≡ status s₂ k =
        statuses.find_frame id k s₃ ∙ statuses.spawn_frame run (c ∷ cases) k s₂ in
      elim (statuses.updated id "running" k s₁) [
        | inl same ↦
            subst (λ st. Moves (status s k) st) (sym (after ∙ same ∙ statuses.keep_frame id k s))
              stays
        | inr (here, set) ↦
            subst (λ st. Moves (status s k) st) (sym (after ∙ set))
              (subst (λ st. Moves st (some "running")) (sym queued ∙ ap (λ j. status s j) here)
                starts)
      ]

  start-Moves :
      (caller id : String) (s : S) (k : String)
      → Moves (status s k) (status (start runs around role_for new_id caller id s).1 k)
  unfolding start
  start-Moves caller id s k =
      let s₁ = (runs.find_by_id id s).1 in
      elim (Result-cases (runs.find_by_id id s).0) [
        | inr (why, e) ↦ rw (e, ◌>>=◌) (to_same s s₁ (statuses.find_frame id k s))
        | inl (run, e) ↦
            rw (e, ◌>>=◌)
              (elim (Bool-cases (run.status == "queued")) [
                | inr f ↦ rw f (to_same s s₁ (statuses.find_frame id k s))
                | inl t ↦ rw t (
                    let s₂ = (around.list_cases run.project_id s₁).1 in
                    let frame : (j : String) → status s₂ j ≡ status s j =
                      λ j. statuses.list_frame run.project_id j s₁ ∙ statuses.find_frame id j s in
                    let queued : status s₂ id ≡ some "queued" =
                      frame id
                      ∙ statuses.found id s run e
                      ∙ ap some ((eq_iff run.status "queued").0 t) in
                    elim (Result-cases (around.list_cases run.project_id s₁).0) [
                      | inr (why, g) ↦ rw (g, ◌>>=◌) (to_same s s₂ (frame k))
                      | inl (cases, g) ↦
                          rw (g, ◌>>=◌)
                            (from_same s s₂ (frame k) (begin-Moves run id cases s₂ k queued))
                    ])
              ])
      ]

  stop-Moves :
      (id : String) (s : S) (k : String)
      → ((status s id ≡ some "queued") ⊎ (status s id ≡ some "running"))
      → Moves (status s k) (status (stop runs around role_for new_id id s).1 k)
  unfolding stop
  stop-Moves id s k was =
      let s₁ = around.call_cancel id s in
      elim (statuses.updated id "cancelled" k s₁) [
        | inl same ↦
            subst (λ st. Moves (status s k) st) (sym (same ∙ statuses.call_frame id k s)) stays
        | inr (here, set) ↦
            subst (λ st. Moves (status s k) st) (sym set)
              (elim was [
                | inl queued ↦
                    subst (λ st. Moves st (some "cancelled"))
                      (sym queued ∙ ap (λ j. status s j) here) cancels_queued
                | inr running ↦
                    subst (λ st. Moves st (some "cancelled"))
                      (sym running ∙ ap (λ j. status s j) here) cancels_running
              ])
      ]

  live_cases :
      (st : String)
      → (st == "running" || st == "queued") ≡ true
      → (st ≡ "queued") ⊎ (st ≡ "running")
  live_cases st h = elim (Bool-cases (st == "running")) [
    | inl t ↦ inr ((eq_iff st "running").0 t)
    | inr f ↦ inl ((eq_iff st "queued").0 (rw f at h))
  ]

  cancel-Moves :
      (caller id : String) (s : S) (k : String)
      → Moves (status s k) (status (cancel runs around role_for new_id caller id s).1 k)
  unfolding cancel
  cancel-Moves caller id s k =
      let s₁ = (runs.find_by_id id s).1 in
      let frame : (j : String) → status s₁ j ≡ status s j = λ j. statuses.find_frame id j s in
      elim (Result-cases (runs.find_by_id id s).0) [
        | inr (why, e) ↦ rw (e, ◌>>=◌) (to_same s s₁ (frame k))
        | inl (run, e) ↦
            rw (e, ◌>>=◌)
              (elim (Bool-cases (run.status == "running" || run.status == "queued")) [
                | inr f ↦ rw f (to_same s s₁ (frame k))
                | inl t ↦ rw t (
                    let known = frame id ∙ statuses.found id s run e in
                    from_same s s₁ (frame k) (
                      stop-Moves id s₁ k (elim (live_cases run.status t) [
                        | inl q ↦ inl (known ∙ ap some q)
                        | inr r ↦ inr (known ∙ ap some r)
                      ])))
              ])
      ]

  -- Where the store keeps its laws, and apart from what the goroutine of a run does later, a start and a cancellation change the status of a run only from queued to running, from queued
  -- to cancelled, or from running to cancelled; any other status stays, so a run that is over is
  -- neither started nor cancelled. This holds for every run, and whatever fails on the way.
  pub status-Moves :
      (caller id k : String) (s : S)
      → Moves (status s k) (status (start runs around role_for new_id caller id s).1 k)
        × Moves (status s k) (status (cancel runs around role_for new_id caller id s).1 k)
  status-Moves caller id k s = (start-Moves caller id s k, cancel-Moves caller id s k)
