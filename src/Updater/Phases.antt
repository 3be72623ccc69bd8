-- ===== src/Updater/Phases.antt =====
-- The phases of one deployment, over the calls that a process makes on its state file.
use headcount.Prelude.{
  ℕ, ◌≡◌, refl, String, true, false, ◌||◌, not, Option, List, [], ◌∷◌, if_elim, str_eq, arith,
}
use headcount.Updater.{
  DeployPhase, DeploymentState, Disk, missing, unreadable, holds, Entry, staged, migrating,
  starting, promoted, failed, needs_manual_recovery, in_flight, is_failed, active_candidate,
  mark_migrating, mark_starting, mark_promoted, attach_sqlite_snapshot, record_startup_failure,
  mark_needs_manual_recovery,
}

-- A call, by a process that runs the commit `current`.
pub data Call : Type 0 where
  migrates starts promotes : (now : ℕ) → Call
  attaches : (now : ℕ) (path : String) → Call
  fails recovers : (now : ℕ) (cause : String) → Call

failed-in_flight : (p : DeployPhase) → is_failed p ≡ true → in_flight p ≡ false
failed-in_flight staged h = cc
failed-in_flight migrating h = cc
failed-in_flight starting h = cc
failed-in_flight promoted h = cc
failed-in_flight failed h = refl
failed-in_flight needs_manual_recovery h = refl

module _ (release_id_for_path : String → Option String) where
  pub apply_call : String → Call → Disk → Disk
  apply_call current (migrates now) d = mark_migrating release_id_for_path current now d
  apply_call current (starts now) d = mark_starting release_id_for_path current now d
  apply_call current (promotes now) d = (mark_promoted release_id_for_path current now d []).0
  apply_call current (attaches now path) d =
      attach_sqlite_snapshot release_id_for_path current now path d
  apply_call current (fails now cause) d =
      (record_startup_failure release_id_for_path current now cause d).1
  apply_call current (recovers now cause) d =
      mark_needs_manual_recovery release_id_for_path current now cause d

  pub apply_calls : List (String × Call) → Disk → Disk
  apply_calls [] d = d
  apply_calls ((current, c) ∷ cs) d = apply_calls cs (apply_call current c d)

  -- The deployment has ended in failure.
  abbrev pub IsFailed : Disk → Type 0
  IsFailed missing = ⊥
  IsFailed unreadable = ⊥
  IsFailed (holds state) = is_failed state.phase ≡ true

  inactive :
      (current : String) (state : DeploymentState)
      → IsFailed (holds state)
      → active_candidate release_id_for_path current state ≡ false
  inactive current state h = let still = failed-in_flight state.phase h in rw still (ground arith)

  holds-IsFailed :
      (current : String) (c : Call) (state : DeploymentState)
      → IsFailed (holds state)
      → IsFailed (apply_call current c (holds state))
  unfolding apply_call
  holds-IsFailed current (migrates now) state h =
      unfold mark_migrating in rw (inactive current state h) h
  holds-IsFailed current (starts now) state h =
      unfold mark_starting in rw (inactive current state h) h
  holds-IsFailed current (promotes now) state h =
      unfold mark_promoted in
      if_elim (λ (r : Disk × List Entry). IsFailed r.0)
        (active_candidate release_id_for_path current state)
        (λ on. absurd (cc (on, inactive current state h))) (λ _. h)
  holds-IsFailed current (attaches now path) state h =
      unfold attach_sqlite_snapshot in if_elim IsFailed (str_eq path "") (λ _. h) (λ _. h)
  holds-IsFailed current (fails now cause) state h =
      unfold record_startup_failure in
      if_elim IsFailed (not (str_eq state.target current) || str_eq state.candidate_path "")
        (λ _. h) (λ _. refl)
  holds-IsFailed current (recovers now cause) state h =
      unfold mark_needs_manual_recovery in
      if_elim IsFailed (not (str_eq state.target current) || str_eq state.candidate_path "")
        (λ _. h) (λ _. refl)

  apply_call-IsFailed :
      (current : String) (c : Call) (d : Disk) → IsFailed d → IsFailed (apply_call current c d)
  apply_call-IsFailed current c missing h = elim h [ ]
  apply_call-IsFailed current c unreadable h = elim h [ ]
  apply_call-IsFailed current c (holds state) h = holds-IsFailed current c state h

  -- Once the stored deployment has failed or needs manual recovery, no calls of any processes bring
  -- it back into another phase.
  IsFailed-stays : (cs : List (String × Call)) (d : Disk) → IsFailed d → IsFailed (apply_calls cs d)
  unfolding apply_calls
  IsFailed-stays [] d h = h
  IsFailed-stays ((current, c) ∷ cs) d h =
      IsFailed-stays cs (apply_call current c d) (apply_call-IsFailed current c d h)
