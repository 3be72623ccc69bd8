-- ===== src/Runs.antt =====
-- db/repository/run_repository.go: the rows of agent runs, their statuses, and the recovery state
-- that hands an interrupted run to one resumer. `runs` is the table, an instant is a number, and
-- `now` is the clock's reading. Statements that the database refuses are not modelled.
pub mod Resume
pub mod Queries
use headcount.Prelude.{
  ℕ, suc, ◌+◌, ◌-◌, String, Bool, true, false, ◌&&◌, ◌||◌, not, Option, none, some, List, [], ◌∷◌,
  ◌++◌, first, find, update, count, Result, ok, err, if◌then◌else◌, ltb, leb, ◌==◌, str_eq, is_some,
  is_num,
}

-- `CheckpointPhase` is its text; the zero value of a field that JSON omits is "", 0 or `none`.
pub record RunRecovery : Type 0 where
  pub checkpoint_sequence : ℕ
  pub checkpoint_version : ℕ
  pub checkpoint_phase : String
  pub recovery_reason : String
  pub recovery_initiator : String
  pub recovery_target : String
  pub resume_lease_owner : String
  pub resume_lease_until : Option ℕ
  pub resume_previous_status : String
  pub resume_attempts : ℕ
  pub last_resume_error : String
  pub wait_reason : String
  pub wait_comment_id : ℕ
  pub stop_cause : String
  pub recovery_attempts : ℕ

-- The columns that the operations below read or write.
pub record Run : Type 0 where
  pub id : ℕ
  pub task_id : ℕ
  pub agent_id : ℕ
  pub name : String
  pub parent_run_id : Option ℕ
  pub root_run_id : Option ℕ
  pub status : String
  pub session_id : String
  pub started_at : ℕ
  pub ended_at : Option ℕ
  pub last_message_time : Option ℕ
  pub recovery : RunRecovery

abbrev pub no_recovery : RunRecovery
no_recovery = record {
  checkpoint_sequence = 0;
  checkpoint_version = 0;
  checkpoint_phase = "";
  recovery_reason = "";
  recovery_initiator = "";
  recovery_target = "";
  resume_lease_owner = "";
  resume_lease_until = none;
  resume_previous_status = "";
  resume_attempts = 0;
  last_resume_error = "";
  wait_reason = "";
  wait_comment_id = 0;
  stop_cause = "";
  recovery_attempts = 0;
}

pub data RunError : Type 0 where
  record_not_found bad_claim claim_inactive unsupported_status : RunError

-- What a call returns, with the table that it leaves.
abbrev pub Outcome : Type 0 → Type 0
Outcome A = Result RunError A × List Run

abbrev pub has_id : ℕ → Run → Bool
has_id id r = r.id == id

abbrev pub has_status : String → Run → Bool
has_status status r = str_eq r.status status

-- `status IN ?`
abbrev pub one_of : List String → String → Bool
one_of [] status = false
one_of (state ∷ states) status = str_eq status state || one_of states status

-- `First(&run, runID)`, and the rest of the body for the row that it found.
abbrev pub with_run {ℓ} :
    {A : Type ℓ}
    → Option Run
    → (Run → Result RunError A × List Run)
    → List Run
    → Result RunError A × List Run
with_run none body runs = (err record_not_found, runs)
with_run (some run) body runs = body run

-- An update of status and recovery, as most of the operations make it.
abbrev pub write : String → RunRecovery → Run → Run
write status recovery r = record r { status = status; recovery = recovery }

abbrev pub write_recovery : RunRecovery → Run → Run
write_recovery recovery r = record r { recovery = recovery }

-- `MarkRunStale`: the row is read from one table and written to another, which is the same one when
-- no other call comes in between.
pub mark_run_stale : ℕ → ℕ → String → List Run → List Run → Outcome Bool
mark_run_stale now run_id reason seen runs =
    with_run (first (has_id run_id) seen)
      (λ run.
        if not (has_status "running" run)
        then (ok false, runs)
        else let hit : Run → Bool = λ r. has_id run_id r && has_status "running" r in
          let recovery = record run.recovery { recovery_reason = reason } in
          (
            ok (count hit runs == 1),
            update hit
                (λ r. record r { status = "stale"; ended_at = some now; recovery = recovery }) runs,
          ))
      runs

-- `SetRunWaitStateForComment`
pub set_run_wait_state_for_comment : ℕ → String → ℕ → List Run → Outcome (Unit {0})
set_run_wait_state_for_comment run_id reason comment_id runs =
    with_run (first (has_id run_id) runs)
      (λ run.
        let recovery = record run.recovery { wait_reason = reason; wait_comment_id = comment_id } in
        (ok tt, update (has_id run_id) (write "waiting" recovery) runs))
      runs

-- `SetRunWaitState`
pub set_run_wait_state : ℕ → String → List Run → Outcome (Unit {0})
set_run_wait_state run_id reason runs = set_run_wait_state_for_comment run_id reason 0 runs

abbrev pub dormant : List String
dormant = "waiting" ∷ "failed" ∷ "stale" ∷ "resuming" ∷ []

-- `SetRunActive`
pub set_run_active : ℕ → ℕ → List Run → Outcome (Unit {0})
set_run_active now run_id runs =
    with_run (first (has_id run_id) runs)
      (λ run.
        if not (one_of dormant run.status)
        then (ok tt, runs)
        else let recovery = record run.recovery { wait_reason = ""; wait_comment_id = 0 } in
          (
            ok tt,
            update (λ r. has_id run_id r && one_of dormant r.status)
                (λ r. record r {
                  status = "running";
                  ended_at = none;
                  last_message_time = some now;
                  recovery = recovery;
                })
                runs,
          ))
      runs

-- `SetRunRunning`
pub set_run_running : ℕ → ℕ → List Run → Outcome (Unit {0})
set_run_running now run_id runs = set_run_active now run_id runs

-- `SetRunStopCause`
pub set_run_stop_cause : ℕ → String → List Run → Outcome (Unit {0})
set_run_stop_cause run_id cause runs =
    with_run (first (has_id run_id) runs)
      (λ run.
        let recovery = record run.recovery { stop_cause = cause } in
        (ok tt, update (has_id run_id) (write_recovery recovery) runs))
      runs

-- `IncrementRunRecoveryAttempts`
pub increment_run_recovery_attempts : ℕ → List Run → Outcome (Unit {0})
increment_run_recovery_attempts run_id runs =
    with_run (first (has_id run_id) runs)
      (λ run.
        let recovery = record run.recovery {
          recovery_attempts = suc run.recovery.recovery_attempts;
        } in
        (ok tt, update (has_id run_id) (write_recovery recovery) runs))
      runs

-- `UpdateRunSession`, `SetRunRootID`, `UpdateRunName`, `TouchRunLastMessageTime`
pub update_run_session : ℕ → String → List Run → List Run
update_run_session id session_id runs =
    update (has_id id) (λ r. record r { session_id = session_id }) runs

pub set_run_root_id : ℕ → ℕ → List Run → List Run
set_run_root_id id root_id runs =
    update (has_id id) (λ r. record r { root_run_id = some root_id }) runs

pub update_run_name : ℕ → String → List Run → List Run
update_run_name id name runs = update (has_id id) (λ r. record r { name = name }) runs

pub touch_run_last_message_time : ℕ → ℕ → List Run → List Run
touch_run_last_message_time now id runs =
    update (has_id id) (λ r. record r { last_message_time = some now }) runs
