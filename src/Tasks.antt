-- ===== src/Tasks.antt =====
-- db/models/task.go and the row operations of db/repository/task_repository.go. Of a task's
-- columns those stand here that the modelled operations read or write.
pub mod Updates
use headcount.Prelude.{ℕ, String, Bool, Option, List, first, ◌==◌}

abbrev pub status_todo : String
status_todo = "to-do"

abbrev pub status_in_progress : String
status_in_progress = "in-progress"

abbrev pub status_blocked : String
status_blocked = "blocked"

abbrev pub status_depends_on_task : String
status_depends_on_task = "depends-on-task"

abbrev pub status_in_review : String
status_in_review = "in-review"

abbrev pub status_done : String
status_done = "done"

pub record Task : Type 0 where
  pub id : ℕ
  pub company_id : ℕ
  pub parent_id : Option ℕ
  pub status : String
  pub is_archived : Bool
  pub run_id : Option ℕ
  pub orchestrator_run_id : Option ℕ
  pub done_at : Option ℕ

abbrev pub has_id : ℕ → Task → Bool
has_id id t = t.id == id

-- `First(&task, id)`
abbrev pub get_task : ℕ → List Task → Option Task
get_task id tasks = first (has_id id) tasks
