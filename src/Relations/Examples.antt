-- ===== src/Relations/Examples.antt =====
-- Three tasks of one company, where task 3 waits for task 2 and task 2 for task 1.
use headcount.Prelude.{
  ℕ, ◌≡◌, ◌⊎◌, refl, Bool, true, false, none, some, List, [], ◌∷◌, arith, ok, err, Memᴰ, eq_iff,
  String,
}
use headcount.Tasks.{Task, status_todo, status_done}
use headcount.Relations.{
  TaskRelation, depends_on, create_task_relation, store_relation, check_endpoints, check_dependency,
  canonical, task_is_ancestor, ancestor_loop, dependency_path_exists, path_loop, can_start_task,
  list_blocking_dependencies, cycle,
}
use headcount.Relations.Reach.{Reach}
use headcount.Relations.Search.{dependency_path_exists_total, dependency_path_exists_correct}
use headcount.Relations.Create.{IsWellFormed, create_task_relation-IsWellFormed}
use headcount.Relations.Start.{no_deadlock, Startable}

abbrev task : ℕ → String → Task
task id status = record {
  id = id;
  company_id = 7;
  parent_id = none;
  status = status;
  is_archived = false;
  run_id = none;
  orchestrator_run_id = none;
  done_at = none;
}

abbrev board : List Task
board = task 1 status_todo ∷ task 2 status_todo ∷ task 3 status_todo ∷ []

abbrev wanted : ℕ → ℕ → TaskRelation
wanted s t = record { id = 0; company_id = 0; source = s; target = t; kind = depends_on }

abbrev row : ℕ → ℕ → ℕ → TaskRelation
row id s t = record { id = id; company_id = 7; source = s; target = t; kind = depends_on }

abbrev chain : List TaskRelation
chain = row 1 2 1 ∷ row 2 3 2 ∷ []

empty-IsWellFormed : IsWellFormed board []
empty-IsWellFormed = record { rows = tt; distinct = tt; acyclic = λ u v e p. e }

first_row : create_task_relation 1 board [] (wanted 2 1) ≡ ok (row 1 2 1, row 1 2 1 ∷ [])
unfolding create_task_relation store_relation check_endpoints check_dependency canonical
    task_is_ancestor ancestor_loop dependency_path_exists path_loop
first_row = refl

second_row : create_task_relation 2 board (row 1 2 1 ∷ []) (wanted 3 2) ≡ ok (row 2 3 2, chain)
unfolding create_task_relation store_relation check_endpoints check_dependency canonical
    task_is_ancestor ancestor_loop dependency_path_exists path_loop
second_row = refl

closing_row : create_task_relation 3 board chain (wanted 1 3) ≡ err cycle
unfolding create_task_relation store_relation check_endpoints check_dependency canonical
    task_is_ancestor ancestor_loop dependency_path_exists path_loop
closing_row = refl

create_task_relation-IsWellFormed_example : IsWellFormed board (row 1 2 1 ∷ [])
create_task_relation-IsWellFormed_example =
    create_task_relation-IsWellFormed 1 board [] (wanted 2 1) (row 1 2 1) (row 1 2 1 ∷ [])
      empty-IsWellFormed first_row

chain-IsWellFormed : IsWellFormed board chain
chain-IsWellFormed =
    create_task_relation-IsWellFormed 2 board (row 1 2 1 ∷ []) (wanted 3 2) (row 2 3 2) chain
      create_task_relation-IsWellFormed_example second_row

dependency_path_exists_total_example : (b : Bool) × (dependency_path_exists chain 3 1 ≡ some b)
dependency_path_exists_total_example = dependency_path_exists_total chain 3 1

dependency_path_exists_correct_example :
    (dependency_path_exists chain 3 1 ≡ some true × Reach chain 3 1)
    ⊎ (dependency_path_exists chain 3 1 ≡ some false × ¬ Reach chain 3 1)
dependency_path_exists_correct_example = dependency_path_exists_correct chain 3 1

third_waits : can_start_task board chain 3 ≡ (false, task 2 status_todo ∷ [])
unfolding can_start_task list_blocking_dependencies
third_waits = refl

no_deadlock_example : Startable board chain
no_deadlock_example =
    no_deadlock board chain (task 3 status_todo) chain-IsWellFormed.acyclic
      (Memᴰ.tail (Memᴰ.tail (Memᴰ.head refl))) (λ e. ground (arith, eq_iff status_todo status_done))
