-- ===== src/Tasks/Updates/Examples.antt =====
-- A task that two runs want, and that is then done.
use headcount.Prelude.{
  ℕ, ◌≡◌, refl, String, true, false, Option, none, some, List, [], ◌∷◌, All, arith,
}
use headcount.Tasks.{Task}
use headcount.Tasks.Updates.{claim_task_run, get_root_task, root_loop}
use headcount.Tasks.Updates.Changes.{
  Change, updated, status_set, locked, change, changes, IsDated, change-IsDated, claim_kept,
}

abbrev task : ℕ → Option ℕ → String → Option ℕ → Task
task id parent status done_at = record {
  id = id;
  company_id = 1;
  parent_id = parent;
  status = status;
  is_archived = false;
  run_id = none;
  orchestrator_run_id = none;
  done_at = done_at;
}

abbrev tasks : List Task
tasks = task 1 none "to-do" none ∷ task 2 (some 1) "in-progress" none ∷ []

root : get_root_task 2 tasks ≡ some (task 1 none "to-do" none)
unfolding get_root_task root_loop
root = refl

abbrev meanwhile : List Change
meanwhile = status_set 10 2 "in-progress" "done" ∷ locked 2 9 ∷ []

claimed_first : (claim_task_run 2 7 tasks).0 ≡ true
unfolding claim_task_run
claimed_first = refl

claim_kept_example : (claim_task_run 2 8 (changes meanwhile (claim_task_run 2 7 tasks).1)).0 ≡ false
claim_kept_example = claim_kept 2 7 8 meanwhile tasks (omega arith) (tt, (tt, tt)) claimed_first

change-IsDated_example : All IsDated (change (updated 10 (task 2 (some 1) "done" none)) tasks)
change-IsDated_example =
    change-IsDated (updated 10 (task 2 (some 1) "done" none)) tasks (λ missing. cc)
      (refl, (refl, tt))
