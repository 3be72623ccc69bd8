-- ===== src/Runs/Queries.antt =====
-- db/repository/run_repository.go: the queries that the liveness monitor and the recovery make.
use headcount.Prelude.{
  ℕ, ◌-◌, ◌≡◌, ◌↔◌, refl, String, Bool, true, ◌&&◌, not, Option, none, some, List, [], ◌∷◌, first,
  find, count, ltb, leb, ◌==◌, str_eq, is_some, Bool-cases, inl, inr, arith,
}
use headcount.Runs.{Run, has_id, has_status, one_of}

-- `GetRunningRuns`
pub get_running_runs : List Run → List Run
get_running_runs runs = find (has_status "running") runs

-- `GetRunningRunsByTaskID`
pub get_running_runs_by_task_id : ℕ → List Run → List Run
get_running_runs_by_task_id task_id runs =
    find (λ r. r.task_id == task_id && has_status "running" r) runs

-- `GetRunBySessionID`
pub get_run_by_session_id : String → List Run → Option Run
get_run_by_session_id session_id runs = first (λ r. str_eq r.session_id session_id) runs

-- The last message, or for a run without one its start, was before the instant.
abbrev pub silent_since : ℕ → Run → Bool
silent_since cutoff r = elim r.last_message_time [
  | none ↦ ltb r.started_at cutoff
  | some last ↦ ltb last cutoff
]

abbrev pub stale_running : ℕ → Run → Bool
stale_running cutoff r = has_status "running" r && silent_since cutoff r

-- `GetStaleRunningRuns`
pub get_stale_running_runs : ℕ → ℕ → List Run → List Run
get_stale_running_runs now threshold runs = find (stale_running (now - threshold)) runs

-- `IsRunStale`
pub is_run_stale : ℕ → ℕ → ℕ → List Run → Bool
is_run_stale now run_id threshold runs =
    ltb 0 (count (λ r. has_id run_id r && stale_running (now - threshold) r) runs)

-- `GetRunsByRecoveryStates`
pub get_runs_by_recovery_states : List String → List Run → List Run
get_runs_by_recovery_states [] runs = []
get_runs_by_recovery_states (state ∷ states) runs =
    find (λ r. one_of (state ∷ states) r.status) runs

-- `CountRootRunsThrough`
pub count_root_runs_through : ℕ → ℕ → List Run → ℕ
count_root_runs_through task_id root_run_id runs =
    count (λ r. r.task_id == task_id && not (is_some r.parent_run_id) && leb r.id root_run_id) runs

both-counted :
    (p q : Run → Bool) (runs : List Run)
    → ltb 0 (count (λ r. p r && q r) runs) ≡ is_some (first p (find q runs))
both-counted p q [] = refl
both-counted p q (r ∷ runs) =
    let rest = both-counted p q runs in
    elim (Bool-cases (q r)) [
      | inl t ↦ elim (Bool-cases (p r)) [
        | inl u ↦ rw (t, u) (ground arith)
        | inr u ↦ rw (t, u) rest
      ]
      | inr f ↦ elim (Bool-cases (p r)) [ inl u ↦ rw (f, u) rest | inr u ↦ rw (f, u) rest ]
    ]

-- `IsRunStale` answers true exactly if `GetStaleRunningRuns`, at the same instant and threshold,
-- returns a run of that id.
pub is_run_stale_iff :
    (now run_id threshold : ℕ) (runs : List Run)
    → (is_run_stale now run_id threshold runs ≡ true)
      ↔ (is_some (first (has_id run_id) (get_stale_running_runs now threshold runs)) ≡ true)
unfolding is_run_stale get_stale_running_runs
is_run_stale_iff now run_id threshold runs =
    let same = both-counted (has_id run_id) (stale_running (now - threshold)) runs in
    (λ e. cc (same, e), λ e. cc (same, e))
