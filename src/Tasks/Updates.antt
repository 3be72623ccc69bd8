-- ===== src/Tasks/Updates.antt =====
-- db/repository/task_repository.go: the statements that change a task's row, and its root.
pub mod Changes
mod Examples
use headcount.Prelude.{
  ℕ, zero, suc, String, Bool, true, false, ◌&&◌, ◌||◌, not, Option, none, some, List, [], ◌∷◌, ◌++◌,
  first, update, delete, count, if◌then◌else◌, ◌==◌, str_eq, is_some,
}
use headcount.Tasks.{Task, status_done, has_id, get_task}

abbrev pub is_done : String → Bool
is_done status = str_eq status status_done

-- `Save`: the row of that id is replaced, or else inserted.
abbrev pub save : Task → List Task → List Task
save t tasks =
    if is_some (get_task t.id tasks) then update (has_id t.id) (λ old. t) tasks else tasks ++ t ∷ []

-- The date that `UpdateTask` writes, from the given one and the row before.
abbrev pub done_date : ℕ → Task → Task → Option ℕ
done_date now previous t =
    if not (is_done t.status)
    then none
    else if is_some t.done_at
    then t.done_at
    else if not (is_done previous.status) || not (is_some previous.done_at)
    then some now
    else previous.done_at

abbrev pub with_date : ℕ → Option Task → Task → Task
with_date now none t = t
with_date now (some previous) t = record t { done_at = done_date now previous t }

-- `UpdateTask`
unfoldable pub update_task : ℕ → Task → List Task → Task × List Task
update_task now t tasks = let t' = with_date now (get_task t.id tasks) t in (t', save t' tasks)

-- The columns that `SetTaskStatusIf` writes.
abbrev pub status_change : ℕ → String → String → Task → Task
status_change now from to t =
    if is_done to && not (is_done from)
    then record t { status = to; done_at = some now }
    else if not (is_done to)
    then record t { status = to; done_at = none }
    else record t { status = to }

abbrev pub has_id_status : ℕ → String → Task → Bool
has_id_status id status t = has_id id t && str_eq t.status status

-- `SetTaskStatusIf`
pub set_task_status_if : ℕ → ℕ → String → String → List Task → Bool × List Task
set_task_status_if now id from to tasks = (
  count (has_id_status id from) tasks == 1,
  update (has_id_status id from) (status_change now from to) tasks,
)

abbrev pub unowned : ℕ → Task → Bool
unowned id t = has_id id t && not (is_some t.run_id)

abbrev pub owned_by : ℕ → Task → Task
owned_by run_id t = record t { run_id = some run_id }

-- `LockTaskRun`
pub lock_task_run : ℕ → ℕ → List Task → List Task
lock_task_run id run_id tasks = update (unowned id) (owned_by run_id) tasks

-- `ClaimTaskRun`
pub claim_task_run : ℕ → ℕ → List Task → Bool × List Task
claim_task_run id run_id tasks =
    (count (unowned id) tasks == 1, update (unowned id) (owned_by run_id) tasks)

-- `UnlockTaskRun`
pub unlock_task_run : ℕ → List Task → List Task
unlock_task_run id tasks = update (has_id id) (λ t. record t { run_id = none }) tasks

-- `SetTaskOrchestratorRun`
pub set_task_orchestrator_run : ℕ → ℕ → List Task → List Task
set_task_orchestrator_run id run_id tasks =
    update (has_id id) (λ t. record t { orchestrator_run_id = some run_id }) tasks

-- `DeleteTask`
pub delete_task : ℕ → List Task → List Task
delete_task id tasks = delete (has_id id) tasks

-- The loop of `GetRootTask`, by the hops that are left of the 20: a missing parent ends it.
pub root_loop : List Task → ℕ → Task → Task
root_loop tasks zero task = task
root_loop tasks (suc hops) task = elim task.parent_id [
  | none ↦ task
  | some parent_id ↦ elim (get_task parent_id tasks) [
    | none ↦ task
    | some parent ↦ root_loop tasks hops parent
  ]
]

-- `GetRootTask`
pub get_root_task : ℕ → List Task → Option Task
get_root_task id tasks = elim (get_task id tasks) [
  | none ↦ none
  | some task ↦ some (root_loop tasks 20 task)
]
