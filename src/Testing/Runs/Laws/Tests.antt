-- ===== src/Testing/Runs/Laws/Tests.antt =====
-- Two runs, of which one is queued, in a store that keeps their statuses.
use sentinel_api_platform.Prelude.{
  ◌≡◌, refl, sym, ◌∙◌, ap, ◌⊎◌, inl, inr, String, ◌==◌, eq_iff, Option, none, some, [], ◌∷◌, pos,
  Bool-cases, arith, if◌then◌else◌,
}
use sentinel_api_platform.Errs.{record_not_found}
use sentinel_api_platform.Effects.{Result, ok, err, Call, ok_injective}
use sentinel_api_platform.Model.{TestRun, text, Columns}
use sentinel_api_platform.Testing.Runs.{RunStore, Surroundings, status_column, start, cancel}
use sentinel_api_platform.Testing.Runs.Laws.{Statuses, Moves, status-Moves}

-- The state is the status of the run "t1"; the run "t2" has passed.
abbrev run_with : String → String → TestRun
run_with id status = record {
  id = id;
  project_id = "p1";
  name = "nightly";
  status = status;
  mode = "sequential";
  concurrency = pos 0;
  target_base_url = "http://x";
  total = 0;
  passed = 0;
  failed = 0;
  errored = 0;
  skipped = 0;
  started_at = none;
  finished_at = none;
  triggered_by = none;
  trigger_type = "manual";
}

abbrev status : String → String → Option String
status s id = if id == "t1" then some s else if id == "t2" then some "passed" else none

abbrev lookup_run : String → String → Result TestRun
lookup_run id s =
    if id == "t1"
    then ok (run_with "t1" s)
    else if id == "t2"
    then ok (run_with "t2" "passed")
    else err record_not_found

abbrev new_status : Columns → String → String
new_status ((_, text st) ∷ _) s = st
new_status _ s = s

abbrev store : RunStore String
store = record {
  create = λ r s. (ok tt, s);
  find_by_id = λ id s. (lookup_run id s, s);
  list_by_project = λ pid s. (ok [], s);
  update = λ id fields s. (ok tt, if "t1" == id then new_status fields s else s);
}

abbrev around : Surroundings String
around = record {
  list_cases = λ pid s. (ok [], s);
  list_results = λ id s. (ok [], s);
  keep_cancel = λ id s. s;
  call_cancel = λ id s. s;
  spawn = λ run cases s. s;
}

lookup_run-status :
    (id s : String) (run : TestRun) → lookup_run id s ≡ ok run → status s id ≡ some run.status
lookup_run-status id s run h = elim (Bool-cases (id == "t1")) [
  | inl e ↦ rw e (ap (λ r. some (TestRun.status r)) (ok_injective (rw e at h)))
  | inr e ↦ rw e (elim (Bool-cases (id == "t2")) [
    | inl f ↦ rw f (ap (λ r. some (TestRun.status r)) (ok_injective (rw (e, f) at h)))
    | inr f ↦ (let stuck = rw (e, f) at h in ground arith)
  ])
]

updated_here :
    (id new k s : String)
    → (status (store.update id (status_column new) s).1 k ≡ status s k)
      ⊎ ((id ≡ k) × (status (store.update id (status_column new) s).1 k ≡ some new))
updated_here id new k s = elim (Bool-cases ("t1" == id)) [
  | inr e ↦ rw e (inl refl)
  | inl e ↦ rw e (elim (Bool-cases (k == "t1")) [
    | inr f ↦ rw f (inl refl)
    | inl f ↦ rw f (inr (sym ((eq_iff "t1" id).0 e) ∙ sym ((eq_iff k "t1").0 f), refl))
  ])
]

statuses : Statuses store around status
statuses = record {
  found = λ id s run h. lookup_run-status id s run h;
  find_frame = λ id k s. refl;
  updated = λ id new k s. updated_here id new k s;
  list_frame = λ pid k s. refl;
  keep_frame = λ id k s. refl;
  call_frame = λ id k s. refl;
  spawn_frame = λ run cases k s. refl;
}

abbrev role_of : String → String → Call String String
role_of pid user s = (ok "admin", s)

abbrev new_id : String → String × String
new_id s = ("t3", s)

status-Moves_example :
    Moves (some "queued") (status (start store around role_of new_id "ann" "t1" "queued").1 "t1")
    × Moves (some "queued") (status (cancel store around role_of new_id "ann" "t1" "queued").1 "t1")
status-Moves_example =
    status-Moves store around role_of new_id status statuses "ann" "t1" "t1" "queued"
