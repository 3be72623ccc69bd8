-- ===== src/Orchestrator/Rounds.antt =====
-- What a round of the sidecar does to the events of its task.
use headcount.Prelude.{
  ℕ, ◌≡◌, ◌≢◌, ◌↔◌, refl, ap, ◌⊎◌, inl, inr, String, Bool, true, false, ◌&&◌, Option, some, List,
  find, first, Bool-cases, str_eq, eq_iff, arith,
}
use headcount.Tasks.{get_task, status_in_progress, status_blocked}
use headcount.Runs.{Run}
use headcount.RunEvents.{RunEvent, has_id, one_of, consume_run_events}
use headcount.RunEvents.Answers.{first-consume_run_events}
use headcount.Orchestrator.{
  State, Decision, wait, complete, activate, Outcome, succeeded, canceled, drained, failed, decide,
  update_run_log, conclude, act, round, status_of, ids_of, is_answer, human_input_pending,
}

module _ (kind : ℕ → String) (fingerprint : List Run → String → Bool → String) (task_id id now : ℕ)
    (model : List RunEvent → List RunEvent → State → Outcome × State) where
  -- The model was given these events, while the task was in progress, and it succeeded.
  abbrev pub Activated : Option String → State → List RunEvent → List RunEvent → Type 0
  Activated last s events inbound =
      (decide kind fingerprint task_id id last s ≡ activate events inbound)
      × (status_of (get_task task_id s.tasks) ≡ status_in_progress)
      × ((model events inbound (update_run_log now id "running" s)).0 ≡ succeeded)

  decide-in_progress :
      (last : Option String) (s : State) (events inbound : List RunEvent)
      → decide kind fingerprint task_id id last s ≡ activate events inbound
      → status_of (get_task task_id s.tasks) ≡ status_in_progress
  unfolding decide
  decide-in_progress last s events inbound e =
      ground (arith, eq_iff (status_of (get_task task_id s.tasks)) status_in_progress)

  -- A round ends the sidecar's run as completed exactly if the task is not in progress, unless it is
  -- blocked with an open question: the sessions of the workers do not matter.
  decide-complete_iff :
      (last : Option String) (s : State)
      → (decide kind fingerprint task_id id last s ≡ complete) ↔ (
          (status_of (get_task task_id s.tasks) ≢ status_in_progress)
          × ((human_input_pending task_id s
                && str_eq (status_of (get_task task_id s.tasks)) status_blocked)
              ≡ false))
  unfolding decide
  decide-complete_iff last s =
      elim (Bool-cases (str_eq (status_of (get_task task_id s.tasks)) status_in_progress)) [
        | inl at_work ↦
            let is : status_of (get_task task_id s.tasks) ≡ status_in_progress =
              (eq_iff (status_of (get_task task_id s.tasks)) status_in_progress).0 at_work in
            let not_done : str_eq (status_of (get_task task_id s.tasks)) "done" ≡ false =
              ap (λ x. str_eq x "done") is in
            let no_review : str_eq (status_of (get_task task_id s.tasks)) "in-review" ≡ false =
              ap (λ x. str_eq x "in-review") is in
            (λ e. absurd (ground arith), λ (other, _). absurd (other is))
        | inr other ↦ (
          λ e. (
            λ is.
                let at_work : str_eq (status_of (get_task task_id s.tasks)) status_in_progress
                    ≡ true =
                  ap (λ x. str_eq x status_in_progress) is in
                absurd (ground arith),
            ground arith,
          ),
          λ (_, h). ground arith,
        )
      ]

  module _ (event_id : ℕ) (e : RunEvent)
      (kept : (events inbound : List RunEvent) (s : State)
        → first (has_id event_id) s.events ≡ some e
        → first (has_id event_id) (model events inbound s).1.events ≡ some e) where
    -- The events that a round may consume.
    abbrev pub WasShown : List RunEvent → List RunEvent → Type 0
    WasShown events inbound =
        (one_of (ids_of events) event_id ≡ true)
        ⊎ (one_of (ids_of (find is_answer inbound)) event_id ≡ true)

    conclude-keeps :
        (events inbound : List RunEvent) (r : Outcome × State)
        → first (has_id event_id) r.1.events ≡ some e
        → (first
              (has_id event_id)
              (conclude kind fingerprint task_id id now events inbound r).1.events
            ≡ some e)
          ⊎ ((r.0 ≡ succeeded) × WasShown events inbound)
    unfolding conclude
    conclude-keeps events inbound (canceled, s) found = inl found
    conclude-keeps events inbound (drained, s) found = inl found
    conclude-keeps events inbound (failed, s) found = inl found
    conclude-keeps events inbound (succeeded, s) found =
        elim (Bool-cases (one_of (ids_of events) event_id)) [
          | inl shown ↦ inr (refl, inl shown)
          | inr other ↦ elim (Bool-cases (one_of (ids_of (find is_answer inbound)) event_id)) [
            | inl shown ↦ inr (refl, inr shown)
            | inr no_answer ↦ inl (
                first-consume_run_events now (ids_of (find is_answer inbound)) event_id
                  (consume_run_events now (ids_of events) s.events) no_answer
                  (first-consume_run_events now (ids_of events) event_id s.events other found))
          ]
        ]

    -- A row of the events that the model's own calls leave as it is: after a round it is still the
    -- row of its id, unless the task was in progress, the model was given the row's id among the
    -- lifecycle events or the answers of the snapshot, and the model succeeded.
    pub round-keeps :
        (last : Option String) (s : State)
        → first (has_id event_id) s.events ≡ some e
        → (first (has_id event_id) (round kind fingerprint task_id id now model last s).1.events
            ≡ some e)
          ⊎ ((events : List RunEvent) × (inbound : List RunEvent) × Activated last s events inbound
              × WasShown events inbound)
    unfolding round act
    round-keeps last s found = by_decision (decide kind fingerprint task_id id last s) refl
      where
        by_decision :
            (d : Decision)
            → decide kind fingerprint task_id id last s ≡ d
            → (first (has_id event_id) (act kind fingerprint task_id id now model d s).1.events
                ≡ some e)
              ⊎ ((events : List RunEvent) × (inbound : List RunEvent) × Activated last s events
                    inbound
                  × WasShown events inbound)
        by_decision (wait reason) is = inl found
        by_decision complete is = inl found
        by_decision (activate events inbound) is =
            elim (conclude-keeps events inbound
              (model events inbound (update_run_log now id "running" s))
              (kept events inbound (update_run_log now id "running" s) found)) [
                | inl still ↦ inl still
                | inr (well, shown) ↦ inr (
                  events,
                  inbound,
                  (is, decide-in_progress last s events inbound is, well),
                  shown,
                )
              ]
