-- ===== src/Runs/Resume/Examples.antt =====
-- A paused run, claimed and started.
use headcount.Prelude.{
  ◌≡◌, ◌≢◌, refl, String, true, false, none, some, List, [], ◌∷◌, All, ok, arith, eq_iff,
}
use headcount.Runs.{Run, RunRecovery, no_recovery}
use headcount.Runs.Resume.{
  Claim, allowed_for, write_claim, claim_run_for_resume, reclaim_expired_resume_leases, lease_over,
}
use headcount.Runs.Resume.Lease.{claim_exclusive}
use headcount.Runs.Resume.Sweep.{reclaim_complete}

abbrev run : String → RunRecovery → Run
run status recovery = record {
  id = 7;
  task_id = 3;
  agent_id = 2;
  name = "DEC-50-CEO";
  parent_run_id = none;
  root_run_id = some 7;
  status = status;
  session_id = "";
  started_at = 10;
  ended_at = none;
  last_message_time = some 20;
  recovery = recovery;
}

abbrev runs : List Run
runs = run "paused" no_recovery ∷ []

abbrev claim : String → Claim
claim owner = record {
  run_id = 7;
  owner = owner;
  cause = "binary_update";
  previous_status = "paused";
  lease = 150;
  allowed_states = "paused" ∷ [];
  sequence = 4;
}

won : (claim_run_for_resume 30 (claim "pid-1") runs runs).0 ≡ ok true
unfolding claim_run_for_resume write_claim
won = refl

engine_states : allowed_for "binary_update" ≡ some ("paused" ∷ [])
unfolding allowed_for
engine_states = refl

claim_exclusive_example :
    (claim_run_for_resume 31
      (claim "pid-2")
      runs
      (claim_run_for_resume 30 (claim "pid-1") runs runs).1).0
    ≢ ok true
claim_exclusive_example =
    claim_exclusive 30 31 (claim "pid-1") (claim "pid-2") "binary_update" runs runs runs
      (omega arith) refl engine_states won

abbrev leased : List Run
leased =
    run "resuming" (record no_recovery {
      resume_lease_owner = "pid-1";
      resume_lease_until = some 150;
      resume_previous_status = "paused";
    })
    ∷ []

reclaim_complete_example :
    All
      (λ r. r.status ≡ "resuming" → lease_over 200 r.recovery.resume_lease_until ≡ false)
      (reclaim_expired_resume_leases 200 leased)
reclaim_complete_example = reclaim_complete 200 leased (paused_before, tt)
  where
    paused_before : ◌≢◌ {A = String} "paused" "resuming"
    paused_before = ground (arith, eq_iff "paused" "resuming")
