-- ===== src/Runs/Resume.antt =====
-- db/repository/run_repository.go: checkpoints, and the lease under which one owner resumes a run.
pub mod Lease
mod Examples
pub mod Sweep
use headcount.Prelude.{
  ℕ, suc, String, Bool, true, false, ◌&&◌, ◌||◌, not, Option, none, some, List, [], ◌∷◌, first,
  find, update, count, ok, err, if◌then◌else◌, ltb, ◌==◌, str_eq,
}
use headcount.Runs.{
  Run, RunRecovery, RunError, Outcome, no_recovery, has_id, has_status, one_of, with_run, write,
  write_recovery, bad_claim, claim_inactive, unsupported_status,
}

-- `PauseRunWithMetadata`
pub pause_run_with_metadata :
    ℕ → ℕ → String → String → String → String → List Run → Outcome (Unit {0})
pause_run_with_metadata run_id sequence reason initiator target phase runs =
    with_run (first (has_id run_id) runs)
      (λ run.
        let recovery = record no_recovery {
          checkpoint_sequence = sequence;
          checkpoint_version = 1;
          checkpoint_phase = phase;
          recovery_reason = reason;
          recovery_initiator = initiator;
          recovery_target = target;
          resume_attempts = run.recovery.resume_attempts;
          wait_reason = run.recovery.wait_reason;
          wait_comment_id = run.recovery.wait_comment_id;
        } in
        (ok tt, update (has_id run_id) (write "paused" recovery) runs))
      runs

-- The arguments of `ClaimRunForResume`.
pub record Claim : Type 0 where
  pub run_id : ℕ
  pub owner : String
  pub cause : String
  pub previous_status : String
  pub lease : ℕ
  pub allowed_states : List String
  pub sequence : ℕ

abbrev pub lease_runs : ℕ → Option ℕ → Bool
lease_runs now none = false
lease_runs now (some until) = ltb now until

-- The cause and the allowed states that the engine's `ResumeSession` takes.
pub resume_cause : String → Run → String
resume_cause cause run =
    if not (str_eq cause "")
    then cause
    else if has_status "recoverable_failed" run || has_status "failed" run
    then "failed_recovery"
    else if has_status "stale" run
    then "stale_recovery"
    else "binary_update"

pub allowed_for : String → Option (List String)
allowed_for cause =
    if str_eq cause "failed_recovery"
    then some ("recoverable_failed" ∷ "failed" ∷ [])
    else if str_eq cause "stale_recovery"
    then some ("stale" ∷ [])
    else if str_eq cause "binary_update" || str_eq cause "human_input"
    then some ("paused" ∷ [])
    else none

-- The recovery state that a claim writes over the one it has read.
abbrev pub claimed : Claim → Run → RunRecovery
claimed c run = record run.recovery {
  checkpoint_sequence = c.sequence;
  checkpoint_version = 1;
  resume_lease_owner = c.owner;
  resume_lease_until = some c.lease;
  resume_previous_status = if str_eq c.previous_status "" then run.status else c.previous_status;
  resume_attempts = suc run.recovery.resume_attempts;
  last_resume_error = "";
  recovery_reason = c.cause;
}

abbrev pub claimable : Claim → Run → Bool
claimable c r = has_id c.run_id r && one_of c.allowed_states r.status

abbrev no_states : List String → Bool
no_states [] = true
no_states (state ∷ states) = false

-- The conditional write, for the row that was read.
pub write_claim : ℕ → Claim → Run → List Run → Outcome Bool
write_claim now c run runs =
    if not (one_of c.allowed_states run.status) || lease_runs now run.recovery.resume_lease_until
    then (ok false, runs)
    else (
      ok (count (claimable c) runs == 1),
      update (claimable c) (write "resuming" (claimed c run)) runs,
    )

-- `ClaimRunForResume`: the row is read from `seen`, and the update finds the table `runs`.
pub claim_run_for_resume : ℕ → Claim → List Run → List Run → Outcome Bool
claim_run_for_resume now c seen runs =
    if str_eq c.owner "" || no_states c.allowed_states
    then (err bad_claim, runs)
    else with_run (first (has_id c.run_id) seen) (λ run. write_claim now c run runs) runs

abbrev pub lease_over : ℕ → Option ℕ → Bool
lease_over now none = false
lease_over now (some until) = ltb until now

abbrev pub returned_status : Run → String
returned_status run =
    if str_eq run.recovery.resume_previous_status ""
    then "paused"
    else run.recovery.resume_previous_status

abbrev pub released : RunRecovery → RunRecovery
released recovery = record recovery { resume_lease_owner = ""; resume_lease_until = none }

abbrev pub reclaimable : Run → Run → Bool
reclaimable run r = has_id run.id r && has_status "resuming" r

abbrev pub give_back : Run → Run → Run
give_back run r =
    write (returned_status run) (record (released run.recovery) { resume_previous_status = "" }) r

-- The loop body of `ReclaimExpiredResumeLeases`.
pub reclaim : ℕ → Run → List Run → List Run
reclaim now run runs =
    if lease_over now run.recovery.resume_lease_until
    then update (reclaimable run) (give_back run) runs
    else runs

abbrev pub reclaim_all : ℕ → List Run → List Run → List Run
reclaim_all now [] runs = runs
reclaim_all now (run ∷ rest) runs = reclaim_all now rest (reclaim now run runs)

-- `ReclaimExpiredResumeLeases`
pub reclaim_expired_resume_leases : ℕ → List Run → List Run
reclaim_expired_resume_leases now runs = reclaim_all now (find (has_status "resuming") runs) runs

abbrev pub starting : ℕ → Run → Bool
starting run_id r = has_id run_id r && has_status "resuming" r

-- The conditional write, for the row that was read.
pub start_claimed : ℕ → ℕ → String → Run → List Run → Outcome (Unit {0})
start_claimed now run_id owner run runs =
    if not (has_status "resuming" run) || not (str_eq run.recovery.resume_lease_owner owner)
    then (err claim_inactive, runs)
    else (
      if count (starting run_id) runs == 1 then ok tt else err claim_inactive,
      update (starting run_id)
          (λ r. record r {
            status = "running";
            last_message_time = some now;
            ended_at = none;
            recovery = released run.recovery;
          })
          runs,
    )

-- `MarkRunResumeStarted`, read from `seen` and written to `runs` like a claim.
pub mark_run_resume_started : ℕ → ℕ → String → List Run → List Run → Outcome (Unit {0})
mark_run_resume_started now run_id owner seen runs =
    with_run (first (has_id run_id) seen) (λ run. start_claimed now run_id owner run runs) runs

-- `UpdateRunRecoveryMetadata`
pub update_run_recovery_metadata : ℕ → String → String → String → List Run → Outcome (Unit {0})
update_run_recovery_metadata run_id reason initiator target runs =
    with_run (first (has_id run_id) runs)
      (λ run.
        let recovery = record run.recovery {
          recovery_reason = reason;
          recovery_initiator = initiator;
          recovery_target = target;
        } in
        (ok tt, update (has_id run_id) (write_recovery recovery) runs))
      runs

-- `RecordResumeError`
pub record_resume_error : ℕ → String → String → List Run → Outcome (Unit {0})
record_resume_error run_id resume_err recoverable_status runs =
    with_run (first (has_id run_id) runs)
      (λ run.
        let status = if str_eq recoverable_status "" then "paused" else recoverable_status in
        let recovery = record (released run.recovery) { last_resume_error = resume_err } in
        (ok tt, update (has_id run_id) (write status recovery) runs))
      runs

-- `ClearRunCheckpoint`
pub clear_run_checkpoint : ℕ → List Run → Outcome (Unit {0})
clear_run_checkpoint run_id runs =
    with_run (first (has_id run_id) runs)
      (λ run.
        let recovery = record no_recovery { resume_attempts = run.recovery.resume_attempts } in
        (ok tt, update (has_id run_id) (write_recovery recovery) runs))
      runs

-- `MarkRunRecoverable`
pub mark_run_recoverable : ℕ → String → ℕ → String → List Run → Outcome (Unit {0})
mark_run_recoverable run_id status sequence reason runs =
    if not (str_eq status "recoverable_failed") && not (str_eq status "stale")
    then (err unsupported_status, runs)
    else with_run (first (has_id run_id) runs)
        (λ run.
          let recovery = record run.recovery {
            checkpoint_sequence = sequence;
            checkpoint_version = 1;
            checkpoint_phase = "after_tools";
            recovery_reason = reason;
          } in
          (ok tt, update (has_id run_id) (write status recovery) runs))
        runs
