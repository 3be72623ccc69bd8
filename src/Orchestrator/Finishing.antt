-- ===== src/Orchestrator/Finishing.antt =====
-- When `finish_task` ends a task.
use headcount.Prelude.{
  ℕ, ◌≡◌, refl, sym, ap, ◌∙◌, ◌⊎◌, inl, inr, String, Bool, true, false, some, List, [], ◌∷◌, not,
  Result, ok, err, if_elim, str_eq, eq_iff, arith, Memᴰ, first, update, is_some, first-holds,
  Option-cases, ==_iff, ==_refl, subst,
}
use headcount.Tasks.{Task, has_id, get_task, status_done}
use headcount.Tasks.Updates.{update_task, with_date}
use headcount.Runs.{Run}
use headcount.Orchestrator.{
  State, FinishError, every_terminal, is_terminal_run_status, all_worker_sessions_terminal,
  orchestrator_sessions, human_input_pending, status_of, done_task, orchestrator_finish_task,
  no_summary, question_open, sessions_active, task_missing,
}

every_terminal-mem :
    (rs : List Run) {r : Run}
    → every_terminal rs ≡ true
    → Memᴰ r rs
    → is_terminal_run_status r.status ≡ true
unfolding every_terminal
every_terminal-mem [] all m = elim m [ ]
every_terminal-mem (r ∷ rs) all (Memᴰ.head e) =
    ap (λ x. is_terminal_run_status x.status) e ∙ ground arith
every_terminal-mem (r ∷ rs) all (Memᴰ.tail m) = every_terminal-mem rs (ground arith) m

-- Where some row fits, the first one that fits after the replacement is the new one.
first-replace :
    {A : Type 0} (p : A → Bool) (z : A) (xs : List A)
    → p z ≡ true
    → is_some (first p xs) ≡ true
    → first p (update p (λ _. z) xs) ≡ some z
first-replace p z [] fits some_row = cc
first-replace p z (x ∷ xs) fits some_row =
    if_elim (λ o. is_some o ≡ true → first p (update p (λ _. z) (x ∷ xs)) ≡ some z) (p x)
      (λ t e. rw (t, fits) refl) (λ f e. rw (f, f) (first-replace p z xs fits e)) some_row

update_task-status :
    (now : ℕ) (t old : Task) (tasks : List Task)
    → get_task t.id tasks ≡ some old
    → status_of (get_task t.id (update_task now t tasks).1) ≡ t.status
unfolding update_task
update_task-status now t old tasks found =
    let is_in : is_some (get_task (with_date now (some old) t).id tasks) ≡ true =
      ap is_some found in
    rw (found, is_in)
      (ap status_of (
        first-replace (has_id t.id) (with_date now (some old) t) tasks (==_refl t.id)
          (ap is_some found)))

done_task-status :
    (now task_id : ℕ) (t : Task) (s : State)
    → get_task task_id s.tasks ≡ some t
    → ((done_task now (some t) s).0 ≡ ok tt)
      × (status_of (get_task task_id (done_task now (some t) s).1.tasks) ≡ status_done)
done_task-status now task_id t s found =
    if_elim
      (λ (r : Result FinishError (Unit {0}) × State).
        (r.0 ≡ ok tt) × (status_of (get_task task_id r.1.tasks) ≡ status_done))
      (str_eq t.status status_done)
      (λ done. (refl, ap status_of found ∙ (eq_iff t.status status_done).0 done))
      (λ _. (
        refl,
        subst
            (λ id.
              status_of
                (get_task id (update_task now (record t { status = status_done }) s.tasks).1)
              ≡ status_done)
            same
            (update_task-status now (record t { status = status_done }) t s.tasks
              (subst (λ id. get_task id s.tasks ≡ some t) (sym same) found)),
      ))
  where
    same : t.id ≡ task_id
    same = (==_iff t.id task_id).0 (first-holds (has_id task_id) s.tasks found)

module _ (trim : String → String) (kind : ℕ → String) (now task_id orchestrator : ℕ)
    (summary : String) (s : State) where
  abbrev pub sessions_now : List Run
  sessions_now = orchestrator_sessions kind orchestrator s

  -- There is a summary and the task's row, and nothing is open.
  abbrev pub MayFinish : Type 0
  MayFinish =
      (str_eq (trim summary) "" ≡ false)
      × (human_input_pending task_id s ≡ false)
      × (all_worker_sessions_terminal sessions_now ≡ true)
      × (is_some (get_task task_id s.tasks) ≡ true)

  -- The end of a call: refused and without effect, or with the task done and no session at work.
  abbrev pub Finishes : Result FinishError (Unit {0}) × State → Type 0
  Finishes r =
      ((e : FinishError) × (r ≡ (err e, s)) × ¬ MayFinish)
      ⊎ ((r.0 ≡ ok tt)
          × MayFinish
          × ((session : Run)
              → Memᴰ session sessions_now
              → is_terminal_run_status session.status ≡ true)
          × (status_of (get_task task_id r.1.tasks) ≡ status_done))

  all_terminal :
      all_worker_sessions_terminal sessions_now ≡ true
      → (session : Run) → Memᴰ session sessions_now
      → is_terminal_run_status session.status ≡ true
  all_terminal = by_sessions sessions_now
    where
      by_sessions :
          (rs : List Run)
          → all_worker_sessions_terminal rs ≡ true
          → (session : Run) → Memᴰ session rs
          → is_terminal_run_status session.status ≡ true
      by_sessions [] e session m = elim m [ ]
      by_sessions (r ∷ rs) e session m = every_terminal-mem (r ∷ rs) e m

  -- A call that may not finish the task is refused with an error and changes nothing. Every other
  -- call succeeds: there is at least one session, each has ended, and the task is done afterwards.
  pub orchestrator_finish_task-Finishes :
      Finishes (orchestrator_finish_task trim kind now task_id orchestrator summary s)
  unfolding orchestrator_finish_task
  orchestrator_finish_task-Finishes =
      if_elim Finishes (str_eq (trim summary) "")
        (λ e. inl (no_summary, refl, λ (m, _, _, _). ground arith))
        (λ given.
          if_elim Finishes (human_input_pending task_id s)
            (λ e. inl (question_open, refl, λ (_, m, _, _). ground arith))
            (λ answered.
              if_elim Finishes (not (all_worker_sessions_terminal sessions_now))
                (λ e. inl (sessions_active, refl, λ (_, _, m, _). ground arith))
                (λ ended. elim (Option-cases (get_task task_id s.tasks)) [
                  | inl missing ↦
                      rw missing (inl (task_missing, refl, λ (_, _, _, m). absurd (ground arith)))
                  | inr (t, found) ↦
                      let all : all_worker_sessions_terminal sessions_now ≡ true = ground arith in
                      let (well, done) = done_task-status now task_id t s found in
                      rw found (inr (well, (given, answered, all, refl), all_terminal all, done))
                ])))
