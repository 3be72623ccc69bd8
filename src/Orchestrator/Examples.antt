-- ===== src/Orchestrator/Examples.antt =====
-- A task with its sidecar, run 5, and one worker session, run 7, which has reported its end.
use headcount.Prelude.{
  ℕ, ◌≡◌, refl, String, Bool, false, Option, none, some, List, [], ◌∷◌, first, err, arith, inl, inr,
}
use headcount.Tasks.{Task, status_in_progress, status_in_review}
use headcount.Runs.{Run, no_recovery}
use headcount.RunEvents.{RunEvent, has_id, consume_run_events}
use headcount.Orchestrator.{
  Comment, State, Outcome, failed, succeeded, sessions_active, complete, decide, act, conclude,
  round, every_terminal, pending_question, orchestrator_finish_task,
}
use headcount.Orchestrator.Rounds.{round-keeps}
use headcount.Orchestrator.Finishing.{Finishes, orchestrator_finish_task-Finishes}

abbrev task : String → Task
task status = record {
  id = 3;
  company_id = 1;
  parent_id = none;
  status = status;
  is_archived = false;
  run_id = some 7;
  orchestrator_run_id = some 5;
  done_at = none;
}

abbrev run : ℕ → Option ℕ → String → Run
run id parent status = record {
  id = id;
  task_id = 3;
  agent_id = 2;
  name = "DEC-50";
  parent_run_id = parent;
  root_run_id = some 5;
  status = status;
  session_id = "";
  started_at = 10;
  ended_at = none;
  last_message_time = none;
  recovery = no_recovery;
}

abbrev report : RunEvent
report = record {
  id = 1;
  task_id = 3;
  run_id = 7;
  source_run_id = some 7;
  target_run_id = none;
  reply_to_event_id = none;
  event_type = "run_status";
  payload = "completed";
  dedupe_key = "run:7:status:completed";
  created_at = 20;
  consumed_at = none;
}

abbrev question : Comment
question = record { id = 1; task_id = 3; author_type = "agent"; comment_type = "ask_user" }

abbrev answer : Comment
answer = record { id = 2; task_id = 3; author_type = "human"; comment_type = "comment" }

abbrev state : String → String → List Comment → State
state task_status worker_status comments = record {
  tasks = task task_status ∷ [];
  runs = run 5 none "running" ∷ run 7 (some 5) worker_status ∷ [];
  events = report ∷ [];
  comments = comments;
}

abbrev kind : ℕ → String
kind id = "task"

abbrev fingerprint : List Run → String → Bool → String
fingerprint sessions status pending = status

abbrev gives_up : List RunEvent → List RunEvent → State → Outcome × State
gives_up events inbound s = (failed, s)

abbrev acts : List RunEvent → List RunEvent → State → Outcome × State
acts events inbound s = (succeeded, s)

-- The sidecar of a task in review is not activated.
in_review : decide kind fingerprint 3 5 none (state status_in_review "completed" []) ≡ complete
unfolding decide pending_question
in_review = refl

consumed :
    (round kind fingerprint 3 5 30 acts none (state status_in_progress "completed" [])).1.events
    ≡ record report { consumed_at = some 30 } ∷ []
unfolding round decide act conclude pending_question consume_run_events
consumed = refl

active :
    (orchestrator_finish_task
      (λ x. x)
      kind
      30
      3
      5
      "all done"
      (state status_in_progress "running" (question ∷ answer ∷ []))).0
    ≡ err sessions_active
unfolding orchestrator_finish_task every_terminal pending_question
active = refl

round-keeps_example :
    first
      (has_id 1)
      (round kind fingerprint 3 5 30 gives_up none
        (state status_in_progress "completed" [])).1.events
    ≡ some report
round-keeps_example =
    elim (round-keeps kind fingerprint 3 5 30 gives_up 1 report (λ _ _ _ found. found) none
      (state status_in_progress "completed" []) refl) [
        | inl kept ↦ kept
        | inr (_, _, (_, _, well), _) ↦ absurd (ground arith)
      ]

orchestrator_finish_task-Finishes_example :
    Finishes
      (λ x. x)
      kind
      30
      3
      5
      "all done"
      (state status_in_progress "completed" (question ∷ answer ∷ []))
      (orchestrator_finish_task
        (λ x. x)
        kind
        30
        3
        5
        "all done"
        (state status_in_progress "completed" (question ∷ answer ∷ [])))
orchestrator_finish_task-Finishes_example =
    orchestrator_finish_task-Finishes (λ x. x) kind 30 3 5 "all done"
      (state status_in_progress "completed" (question ∷ answer ∷ []))
