-- ===== src/Orchestrator.antt =====
-- engine/orchestrator.go: the sidecar of a task, which watches the worker sessions of its tree and
-- ends the task. One round of the loop of `runOrchestrator` decides, lets the model act, and consumes
-- the events that the model has seen. The `kind` of a run is a function of its id, the fingerprint of
-- a snapshot a parameter; failures of the database, waiting times, heartbeats and broadcasts are
-- left out. A comment's id is not 0, and the sidecar's run has no parent.
pub mod Rounds
pub mod Finishing
mod Examples
use headcount.Prelude.{
  ℕ, String, Bool, true, false, ◌&&◌, ◌||◌, not, Option, none, some, List, [], ◌∷◌, ◌++◌, map, find,
  first, update, Result, ok, err, if◌then◌else◌, ltb, ◌==◌, str_eq, is_some, is_num,
}
use headcount.Tasks.{
  Task, get_task, status_done, status_in_progress, status_in_review, status_blocked,
}
use headcount.Tasks.Updates.{update_task}
use headcount.Runs.{Run, one_of, has_id, set_run_wait_state}
use headcount.RunEvents.{RunEvent, consume_run_events}

pub record Comment : Type 0 where
  pub id : ℕ
  pub task_id : ℕ
  pub author_type : String
  pub comment_type : String

pub record State : Type 0 where
  pub tasks : List Task
  pub runs : List Run
  pub events : List RunEvent
  pub comments : List Comment

abbrev pub is_question : Comment → Bool
is_question c = str_eq c.comment_type "ask_user" && str_eq c.author_type "agent"

-- The state of the loop of `FindPendingHumanQuestion` after one comment.
abbrev pub after_comment : Comment → Option Comment → Option Comment
after_comment c none = if is_question c then some c else none
after_comment c (some q) =
    if not (is_question c) && str_eq c.author_type "human" && ltb q.id c.id then none else some q

unfoldable pub pending_question : List Comment → Option Comment → Option Comment
pending_question [] q = q
pending_question (c ∷ cs) q = pending_question cs (after_comment c q)

abbrev pub human_input_pending : ℕ → State → Bool
human_input_pending task_id s =
    is_some (pending_question (find (λ c. c.task_id == task_id) s.comments) none)

abbrev pub is_terminal_run_status : String → Bool
is_terminal_run_status =
    one_of
      ("completed" ∷ "failed" ∷ "canceled" ∷ "recoverable_failed" ∷ "stale" ∷ "interrupted" ∷ [])

abbrev pub is_terminal_task_status : String → Bool
is_terminal_task_status s = str_eq s status_done || str_eq s status_in_review

unfoldable pub every_terminal : List Run → Bool
every_terminal [] = true
every_terminal (r ∷ rs) = is_terminal_run_status r.status && every_terminal rs

abbrev pub all_worker_sessions_terminal : List Run → Bool
all_worker_sessions_terminal [] = false
all_worker_sessions_terminal (r ∷ rs) = every_terminal (r ∷ rs)

module _ (kind : ℕ → String) where
  abbrev pub is_session : ℕ → Run → Bool
  is_session orchestrator r =
      is_num r.root_run_id orchestrator
      && not (r.id == orchestrator)
      && not (str_eq (kind r.id) "task_orchestrator")

  abbrev pub orchestrator_sessions : ℕ → State → List Run
  orchestrator_sessions orchestrator s = find (is_session orchestrator) s.runs

abbrev pub lifecycle_types : List String
lifecycle_types =
    "run_status" ∷ "status_report" ∷ "worker_question" ∷ "human_input_requested"
    ∷ "human_input_answered" ∷ []

-- `ListPendingRunEvents` and `ListUnconsumedEventsForTarget`, in the order of the ids.
abbrev pub list_pending_run_events : ℕ → State → List RunEvent
list_pending_run_events task_id s =
    find
      (λ e.
        e.task_id == task_id && not (is_some e.consumed_at) && one_of lifecycle_types e.event_type)
      s.events

abbrev pub list_inbound : ℕ → State → List RunEvent
list_inbound orchestrator s =
    find
      (λ e.
        is_num e.target_run_id orchestrator
        && not (is_some e.consumed_at)
        && one_of ("session_message" ∷ "session_message_answer" ∷ []) e.event_type)
      s.events

abbrev pub is_answer : RunEvent → Bool
is_answer e = str_eq e.event_type "session_message_answer"

abbrev pub ids_of : List RunEvent → List ℕ
ids_of [] = []
ids_of (e ∷ es) = e.id ∷ ids_of es

abbrev pub status_of : Option Task → String
status_of none = ""
status_of (some t) = t.status

pub data Decision : Type 0 where
  wait : String → Decision
  complete : Decision
  activate : List RunEvent → List RunEvent → Decision

-- What the model's turn comes to: the tools that it calls have changed the state. A turn is drained
-- if it is canceled because the process stops.
pub data Outcome : Type 0 where
  succeeded canceled drained failed : Outcome

-- Whether the loop goes on or returns.
pub data Round : Type 0 where
  sleeps leaves : Round

abbrev pub ending_statuses : List String
ending_statuses = "completed" ∷ "failed" ∷ "canceled" ∷ "stale" ∷ "recoverable_failed" ∷ []

abbrev pub write_status : ℕ → String → Run → Run
write_status now status r =
    if one_of ending_statuses status
    then record r { status = status; ended_at = some now }
    else record r { status = status }

-- `UpdateRunLog` on a run without a parent.
abbrev pub update_run_log : ℕ → ℕ → String → State → State
update_run_log now id status s = record s {
  runs = update (has_id id) (write_status now status) s.runs;
}

abbrev pub wait_in_state : ℕ → String → State → State
wait_in_state id reason s = record s { runs = (set_run_wait_state id reason s.runs).1 }

abbrev pub is_unchanged : Option String → String → Bool
is_unchanged none print = false
is_unchanged (some before) print = str_eq print before

abbrev pub no_event : List RunEvent → Bool
no_event [] = true
no_event (e ∷ es) = false

module _ (kind : ℕ → String) (fingerprint : List Run → String → Bool → String)
    (task_id id : ℕ) where
  abbrev pub current_print : State → String
  current_print s =
      fingerprint (orchestrator_sessions kind id s) (status_of (get_task task_id s.tasks))
        (human_input_pending task_id s)

  -- The tests of a round, in their order. `last` is the fingerprint of the round before, if any.
  unfoldable pub decide : Option String → State → Decision
  decide last s =
      let status = status_of (get_task task_id s.tasks) in
      let sessions = orchestrator_sessions kind id s in
      let events = list_pending_run_events task_id s in
      let inbound = list_inbound id s in
      if human_input_pending task_id s && str_eq status status_blocked
      then wait "awaiting_human_input"
      else if not (str_eq status status_in_progress)
      then complete
      else if str_eq status status_done && all_worker_sessions_terminal sessions
      then complete
      else if is_unchanged last (current_print s) && no_event events && no_event inbound
      then (if is_terminal_task_status status && all_worker_sessions_terminal sessions
          then complete
          else wait "waiting for worker lifecycle event")
      else activate events inbound

  -- After the model: the events are consumed only if it has succeeded.
  unfoldable pub conclude : ℕ → List RunEvent → List RunEvent → Outcome × State → Round × State
  conclude now events inbound (canceled, s) = (leaves, update_run_log now id "canceled" s)
  conclude now events inbound (drained, s) =
      (leaves, wait_in_state id "paused for process restart" s)
  conclude now events inbound (failed, s) = (leaves, update_run_log now id "failed" s)
  conclude now events inbound (succeeded, s) = (
    sleeps,
    wait_in_state id "waiting for worker lifecycle event" (record s {
      events =
          consume_run_events now (ids_of (find is_answer inbound))
            (consume_run_events now (ids_of events) s.events);
    }),
  )

  unfoldable pub act :
      ℕ
      → (List RunEvent → List RunEvent → State → Outcome × State)
      → Decision
      → State
      → Round × State
  act now model (wait reason) s = (sleeps, wait_in_state id reason s)
  act now model complete s = (leaves, update_run_log now id "completed" s)
  act now model (activate events inbound) s =
      conclude now events inbound (model events inbound (update_run_log now id "running" s))

  unfoldable pub round :
      ℕ
      → (List RunEvent → List RunEvent → State → Outcome × State)
      → Option String
      → State
      → Round × State
  round now model last s = act now model (decide last s) s

pub data FinishError : Type 0 where
  no_summary question_open sessions_active task_missing : FinishError

abbrev pub done_task : ℕ → Option Task → State → Result FinishError (Unit {0}) × State
done_task now none s = (err task_missing, s)
done_task now (some t) s = if str_eq t.status status_done then (ok tt, s) else (
  ok tt,
  record s { tasks = (update_task now (record t { status = status_done }) s.tasks).1 },
)

module _ (trim : String → String) (kind : ℕ → String) where
  unfoldable pub orchestrator_finish_task :
      ℕ → ℕ → ℕ → String → State → Result FinishError (Unit {0}) × State
  orchestrator_finish_task now task_id orchestrator summary s =
      if str_eq (trim summary) ""
      then (err no_summary, s)
      else if human_input_pending task_id s
      then (err question_open, s)
      else if not (all_worker_sessions_terminal (orchestrator_sessions kind orchestrator s))
      then (err sessions_active, s)
      else done_task now (get_task task_id s.tasks) s
