-- ===== src/Tasks/Updates/Changes.antt =====
-- What the statements keep: the date of a task that is done, and the owner of a claimed task.
use headcount.Prelude.{
  ℕ, ◌≤◌, ◌≡◌, ◌≢◌, refl, sym, ap, ◌∙◌, inl, inr, String, true, false, ◌&&◌, ◌||◌, not, Option,
  none, some, List, [], ◌∷◌, update, All, All-append, All-update, All-delete, All-first, All-count,
  Bool-cases, Option-cases, count, update_unique, if_elim, ==_iff, str_eq, eq_iff, is_some, arith,
}
use headcount.Tasks.{Task, has_id, get_task}
use headcount.Tasks.Updates.{
  is_done, save, with_date, update_task, status_change, has_id_status, set_task_status_if, unowned,
  owned_by, lock_task_run, claim_task_run, unlock_task_run, set_task_orchestrator_run, delete_task,
}

-- One statement on the table, with the clock's reading where it takes one.
pub data Change : Type 0 where
  updated : (now : ℕ) (t : Task) → Change
  status_set : (now id : ℕ) (from to : String) → Change
  locked claimed orchestrated : (id run_id : ℕ) → Change
  unlocked deleted : (id : ℕ) → Change

pub change : Change → List Task → List Task
change (updated now t) tasks = (update_task now t tasks).1
change (status_set now id from to) tasks = (set_task_status_if now id from to tasks).1
change (locked id run_id) tasks = lock_task_run id run_id tasks
change (claimed id run_id) tasks = (claim_task_run id run_id tasks).1
change (orchestrated id run_id) tasks = set_task_orchestrator_run id run_id tasks
change (unlocked id) tasks = unlock_task_run id tasks
change (deleted id) tasks = delete_task id tasks

pub changes : List Change → List Task → List Task
changes [] tasks = tasks
changes (c ∷ cs) tasks = changes cs (change c tasks)

-- A task has a date exactly if it is done.
abbrev pub IsDated : Task → Type 0
IsDated t = is_some t.done_at ≡ is_done t.status

-- A statement that inserts a row brings it with its date.
abbrev pub Inserts : (List Task → Change → Type 0)
Inserts tasks (updated now t) = get_task t.id tasks ≡ none → IsDated t
Inserts tasks (status_set now id from to) = Unit
Inserts tasks (locked id run_id) = Unit
Inserts tasks (claimed id run_id) = Unit
Inserts tasks (orchestrated id run_id) = Unit
Inserts tasks (unlocked id) = Unit
Inserts tasks (deleted id) = Unit

done_date-IsDated :
    (now : ℕ) (previous t : Task) → IsDated previous → IsDated (with_date now (some previous) t)
done_date-IsDated now previous t h =
    if_elim (λ o. is_some o ≡ is_done t.status) (not (is_done t.status)) (λ off. ground arith)
      (λ on.
        if_elim (λ o. is_some o ≡ is_done t.status) (is_some t.done_at) (λ given. ground arith)
          (λ _.
            if_elim (λ o. is_some o ≡ is_done t.status)
              (not (is_done previous.status) || not (is_some previous.done_at)) (λ _. ground arith)
              (λ was. ground arith)))

status_change-IsDated :
    (now : ℕ) (from to : String) (t : Task)
    → IsDated t
    → str_eq t.status from ≡ true
    → IsDated (status_change now from to t)
status_change-IsDated now from to t h e =
    if_elim IsDated (is_done to && not (is_done from)) (λ on. ground arith)
      (λ other.
        if_elim IsDated (not (is_done to)) (λ off. ground arith)
          (λ on. h ∙ ap is_done from_eq ∙ ground arith))
  where
    from_eq : t.status ≡ from
    from_eq = (eq_iff t.status from).0 e

save-All :
    (t : Task) (tasks : List Task) → IsDated t → All IsDated tasks → All IsDated (save t tasks)
save-All t tasks h hs =
    if_elim (All IsDated) (is_some (get_task t.id tasks))
      (λ _. All-update IsDated (has_id t.id) (λ old. t) tasks (λ _ _ _. h) hs)
      (λ _. All-append IsDated tasks (t ∷ []) hs (h, tt))

update_task-IsDated :
    (now : ℕ) (t : Task) (tasks : List Task)
    → (get_task t.id tasks ≡ none → IsDated t)
    → All IsDated tasks
    → All IsDated (update_task now t tasks).1
unfolding update_task
update_task-IsDated now t tasks new h = elim (Option-cases (get_task t.id tasks)) [
  | inl missing ↦
      save-All (with_date now (get_task t.id tasks) t) tasks (rw missing (new missing)) h
  | inr (previous, found) ↦
      save-All (with_date now (get_task t.id tasks) t) tasks
        (rw found
          (done_date-IsDated now previous t (All-first IsDated (has_id t.id) tasks h found)))
        h
]

-- If every task has a date exactly if it is done, then it is so after any of the statements, where
-- an `UpdateTask` of an unknown id, which inserts the row, is given a row of which it holds.
pub change-IsDated :
    (c : Change) (tasks : List Task)
    → Inserts tasks c
    → All IsDated tasks
    → All IsDated (change c tasks)
unfolding change
change-IsDated (updated now t) tasks new h = update_task-IsDated now t tasks new h
change-IsDated (status_set now id from to) tasks new h =
    unfold set_task_status_if in
    All-update IsDated (has_id_status id from) (status_change now from to) tasks
      (λ t d e. status_change-IsDated now from to t d (ground arith)) h
change-IsDated (locked id run_id) tasks new h =
    unfold lock_task_run in All-update IsDated (unowned id) (owned_by run_id) tasks (λ t d e. d) h
change-IsDated (claimed id run_id) tasks new h =
    unfold claim_task_run in All-update IsDated (unowned id) (owned_by run_id) tasks (λ t d e. d) h
change-IsDated (orchestrated id run_id) tasks new h =
    unfold set_task_orchestrator_run in All-update IsDated (has_id id) _ tasks (λ t d e. d) h
change-IsDated (unlocked id) tasks new h =
    unfold unlock_task_run in All-update IsDated (has_id id) _ tasks (λ t d e. d) h
change-IsDated (deleted id) tasks new h =
    unfold delete_task in All-delete IsDated (has_id id) tasks h

-- The change leaves the owner of the task alone: it is neither its unlocking nor an `UpdateTask`
-- of it, which writes the whole row.
abbrev pub KeepsOwner : ℕ → Change → Type 0
KeepsOwner id (updated now t) = t.id ≢ id
KeepsOwner id (unlocked i) = i ≢ id
KeepsOwner id (status_set now i from to) = Unit
KeepsOwner id (locked i run_id) = Unit
KeepsOwner id (claimed i run_id) = Unit
KeepsOwner id (orchestrated i run_id) = Unit
KeepsOwner id (deleted i) = Unit

abbrev pub IsOwned : ℕ → ℕ → Task → Type 0
IsOwned id run_id t = has_id id t ≡ true → t.run_id ≡ some run_id

with_date-id : (now : ℕ) (o : Option Task) (t : Task) → (with_date now o t).id ≡ t.id
with_date-id now none t = refl
with_date-id now (some previous) t = refl

update_task-IsOwned :
    (id run_id now : ℕ) (t : Task) (tasks : List Task)
    → t.id ≢ id
    → All (IsOwned id run_id) tasks
    → All (IsOwned id run_id) (update_task now t tasks).1
unfolding update_task
update_task-IsOwned id run_id now t tasks other h =
    let t' = with_date now (get_task t.id tasks) t in
    let same_id = with_date-id now (get_task t.id tasks) t in
    let vacuous : IsOwned id run_id t' =
      λ hit. absurd (other (sym same_id ∙ (==_iff t'.id id).0 hit)) in
    if_elim (All (IsOwned id run_id)) (is_some (get_task t'.id tasks))
      (λ _. All-update (IsOwned id run_id) (has_id t'.id) (λ old. t') tasks (λ _ _ _. vacuous) h)
      (λ _. All-append (IsOwned id run_id) tasks (t' ∷ []) h (vacuous, tt))

change-IsOwned :
    (id run_id : ℕ) (c : Change) (tasks : List Task)
    → KeepsOwner id c
    → All (IsOwned id run_id) tasks
    → All (IsOwned id run_id) (change c tasks)
unfolding change
change-IsOwned id run_id (updated now t) tasks keeps h =
    update_task-IsOwned id run_id now t tasks keeps h
change-IsOwned id run_id (status_set now i from to) tasks keeps h =
    unfold set_task_status_if in
    All-update (IsOwned id run_id) (has_id_status i from) (status_change now from to) tasks
      (λ t owned e.
        if_elim (IsOwned id run_id) (is_done to && not (is_done from)) (λ _. owned)
          (λ _. if_elim (IsOwned id run_id) (not (is_done to)) (λ _. owned) (λ _. owned)))
      h
change-IsOwned id run_id (locked i r) tasks keeps h =
    unfold lock_task_run in
    All-update (IsOwned id run_id) (unowned i) (owned_by r) tasks
      (λ t owned e same. absurd (ground (arith, owned same))) h
change-IsOwned id run_id (claimed i r) tasks keeps h =
    unfold claim_task_run in
    All-update (IsOwned id run_id) (unowned i) (owned_by r) tasks
      (λ t owned e same. absurd (ground (arith, owned same))) h
change-IsOwned id run_id (orchestrated i r) tasks keeps h =
    unfold set_task_orchestrator_run in
    All-update (IsOwned id run_id) (has_id i) _ tasks (λ t owned e. owned) h
change-IsOwned id run_id (unlocked i) tasks keeps h =
    unfold unlock_task_run in
    All-update (IsOwned id run_id) (has_id i) _ tasks
      (λ t owned e same. absurd (keeps (ground arith))) h
change-IsOwned id run_id (deleted i) tasks keeps h =
    unfold delete_task in All-delete (IsOwned id run_id) (has_id i) tasks h

changes-IsOwned :
    (id run_id : ℕ) (cs : List Change) (tasks : List Task)
    → All (KeepsOwner id) cs
    → All (IsOwned id run_id) tasks
    → All (IsOwned id run_id) (changes cs tasks)
unfolding changes
changes-IsOwned id run_id [] tasks keeps h = h
changes-IsOwned id run_id (c ∷ cs) tasks keeps h =
    changes-IsOwned id run_id cs (change c tasks) keeps.1
      (change-IsOwned id run_id c tasks keeps.0 h)

owned-unclaimable :
    (id run_id : ℕ) (tasks : List Task)
    → All (IsOwned id run_id) tasks
    → All (λ t. unowned id t ≡ false) tasks
owned-unclaimable id run_id [] h = tt
owned-unclaimable id run_id (t ∷ tasks) h = (
  elim (Bool-cases (has_id id t)) [ inl hit ↦ rw (hit, h.0 hit) refl | inr miss ↦ rw miss refl ],
  owned-unclaimable id run_id tasks h.1,
)

-- If a run claims a task, where the table holds at most one row of its id, then after any
-- statements, none of which unlocks the task or saves its whole row, a claim of the task fails.
pub claim_kept :
    (id run_id other : ℕ) (cs : List Change) (tasks : List Task)
    → count (has_id id) tasks ≤ 1
    → All (KeepsOwner id) cs
    → (claim_task_run id run_id tasks).0 ≡ true
    → (claim_task_run id other (changes cs (claim_task_run id run_id tasks).1)).0 ≡ false
unfolding claim_task_run
claim_kept id run_id other cs tasks few keeps won =
    let owned =
      update_unique (λ t. t.run_id ≡ some run_id) (unowned id) (has_id id) (owned_by run_id)
        (λ t e. ground arith) tasks (λ t. refl) few (ground arith) in
    let after = changes cs (update (unowned id) (owned_by run_id) tasks) in
    let zero =
      All-count (unowned id) after
        (owned-unclaimable id run_id after (changes-IsOwned id run_id cs _ keeps owned)) in
    rw zero refl
