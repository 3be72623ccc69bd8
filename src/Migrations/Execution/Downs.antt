-- ===== src/Migrations/Execution/Downs.antt =====
-- What undoing migrations leaves: the state, the history of the schema, and the other schemas.
use headcount.Prelude.{
  ℕ, ◌≡◌, ◌≢◌, refl, sym, ap, inl, inr, subst, ◌∙◌, String, true, Option, none, some, List, [], ◌∷◌,
  ◌++◌, Result, ok, err, All, All2, eq_iff, eq_refl, str_eq-ne, if_elim, delete, append_assoc,
  append-nil, All-mem, mem_middle, Result-cases,
}
use mathlib.Core.List.{reverse, reverse-cons}
use headcount.Migrations.{Migration, AppliedRevision}
use headcount.Migrations.Execution.{
  Database, commit_down, parsed_down, write_history, of_version, run_statements, down_one,
  down_loop,
}

-- The revisions without those of the migrations.
abbrev pub without : List Migration → List AppliedRevision → List AppliedRevision
without [] rows = rows
without (m ∷ ms) rows = without ms (delete (of_version m.version) rows)

-- No version occurs twice: it is the primary key.
abbrev pub IsDistinct : List AppliedRevision → Type 0
IsDistinct [] = Unit
IsDistinct (r ∷ rs) = All (λ q. q.version ≢ r.version) rs × IsDistinct rs

module _ {ℓ} {S : Type ℓ} (stmts : String → Option (List String))
    (exec : String → S → Option S) where
  -- The down statements of one migration run to their end.
  abbrev pub DownRuns : Migration → S → S → Type ℓ
  DownRuns m s t =
      (m.reversible ≡ true)
      × ((statements : List String) × (stmts m.down_sql ≡ some statements)
          × (run_statements stmts exec 0 statements s ≡ ok t))

  abbrev pub DownPath : List Migration → S → S → Type ℓ
  DownPath [] s t = s ≡ t
  DownPath (m ∷ ms) s t = (u : S) × DownRuns m s u × DownPath ms u t

  down_one_runs :
      (key : String) (m : Migration) (db : Database S) (t : S)
      → DownRuns m db.state t
      → down_one stmts exec key m db
        ≡ ok (
            write_history key
              (delete (of_version m.version) (db.history key))
              (record db { state = t }))
  unfolding down_one
  down_one_runs key m db t (reversible, (statements, parsed, ran)) =
      rw (reversible, parsed, ran) refl

  -- The state after a run that met no failure, and the histories it leaves.
  abbrev pub Leaves : String → List Migration → Database S → S → Database S → Type ℓ
  Leaves key ms db t after =
      (after.state ≡ t)
      × (after.history key ≡ without ms (db.history key))
      × ((k : String) → k ≢ key → after.history k ≡ db.history k)

  written_own :
      (key : String) (rows : List AppliedRevision) (db : Database S)
      → (write_history key rows db).history key ≡ rows
  unfolding write_history
  written_own key rows db = rw (eq_refl key) refl

  written_other :
      (key : String) (rows : List AppliedRevision) (db : Database S) (k : String)
      → k ≢ key
      → (write_history key rows db).history k ≡ db.history k
  unfolding write_history
  written_other key rows db k other = rw (str_eq-ne k key other) refl

  written_state :
      (key : String) (rows : List AppliedRevision) (db : Database S)
      → (write_history key rows db).state ≡ db.state
  unfolding write_history
  written_state key rows db = refl

  Leaves-next :
      (key : String) (m : Migration) (ms : List Migration) (db : Database S) (u t : S)
      (after : Database S)
      → Leaves key ms
          (write_history key
            (delete (of_version m.version) (db.history key))
            (record db { state = u }))
          t
          after
      → Leaves key (m ∷ ms) db t after
  Leaves-next key m ms db u t after (state, own, others) = (
    state,
    own ∙ ap (without ms) (written_own key _ (record db { state = u })),
    λ k other. others k other ∙ written_other key _ (record db { state = u }) k other,
  )

  pub down_loop_runs :
      (key : String) (ms : List Migration) (db : Database S) (t : S)
      → DownPath ms db.state t
      → ((down_loop stmts exec key ms db).0 ≡ none)
        × Leaves key ms db t (down_loop stmts exec key ms db).1
  unfolding down_loop
  down_loop_runs key [] db t h = (refl, (h, refl, λ k other. refl))
  down_loop_runs key (m ∷ ms) db t (u, ran, rest) =
      let next =
        write_history key (delete (of_version m.version) (db.history key))
          (record db { state = u }) in
      let (fine, left) =
        down_loop_runs key ms next t
          (subst (λ s. DownPath ms s t) (sym (written_state key _ _)) rest) in
      rw (down_loop, down_one_runs key m db u ran) (fine, Leaves-next key m ms db u t _ left)

  committed :
      (key : String) (m : Migration) (db next : Database S) (o : Result (ℕ × String) S)
      → commit_down stmts exec key m db o ≡ ok next
      → (t : S) × (o ≡ ok t)
        × (next
            ≡ write_history key
                (delete (of_version m.version) (db.history key))
                (record db { state = t }))
  committed key m db next (err failure) h = cc
  committed key m db next (ok t) h = (t, refl, cc)

  parsed :
      (key : String) (m : Migration) (db next : Database S) (o : Option (List String))
      → parsed_down stmts exec key m db o ≡ ok next
      → (statements : List String) × (o ≡ some statements)
        × (commit_down stmts exec key m db (run_statements stmts exec 0 statements db.state)
            ≡ ok next)
  parsed key m db next none h = cc
  parsed key m db next (some statements) h = (statements, refl, h)

  statements_run :
      (key : String) (m : Migration) (db next : Database S)
      → down_one stmts exec key m db ≡ ok next
      → (t : S) × DownRuns m db.state t
        × (next
            ≡ write_history key
                (delete (of_version m.version) (db.history key))
                (record db { state = t }))
  unfolding down_one
  statements_run key m db next h =
      if_elim
        (λ o.
          o ≡ ok next
          → (t : S) × DownRuns m db.state t
            × (next
                ≡ write_history key (delete (of_version m.version) (db.history key))
                    (record db { state = t })))
        m.reversible
        (λ reversible h'.
          let (statements, split, ran) = parsed key m db next (stmts m.down_sql) h' in
          let (t, run, is_next) = committed key m db next _ ran in
          (t, (reversible, (statements, split, run)), is_next))
        (λ _ h'. cc) h

  -- However undoing the migrations of `rollback` ends, a first part of them, `done`, was undone, one
  -- whole migration after the other: the state is the one that their down statements lead to, the
  -- history of the schema lacks their revisions and no other, and the history of every other schema is
  -- unchanged. If no error is returned, then that part is all of `rollback`.
  pub down_loop_atomic :
      (key : String) (rollback : List Migration) (db : Database S)
      → let result = down_loop stmts exec key rollback db in
        (done rest : List Migration) × (t : S) × (rollback ≡ done ++ rest)
        × DownPath done db.state t
        × Leaves key done db t result.1
        × (result.0 ≡ none → rest ≡ [])
  unfolding down_loop
  down_loop_atomic key [] db =
      ([], [], db.state, refl, refl, (refl, refl, λ k other. refl), λ _. refl)
  down_loop_atomic key (m ∷ rollback) db = elim (Result-cases (down_one stmts exec key m db)) [
    | inl (next, ran) ↦
        let (u, runs, is_next) = statements_run key m db next ran in
        let (done, rest, t, split, path, left, complete) = down_loop_atomic key rollback next in
        rw (down_loop, ran)
          (
            m ∷ done,
            rest,
            t,
            ap (λ ms. m ∷ ms) split,
            (
              u,
              runs,
              subst (λ d. DownPath done d t) (ap (λ d. d.state) is_next ∙ written_state key _ _)
                  path,
            ),
            Leaves-next key m done db u t (down_loop stmts exec key rollback next).1 (
                subst (λ d. Leaves key done d t (down_loop stmts exec key rollback next).1) is_next
                  left),
            complete,
          )
    | inr (e, failed) ↦
        rw (down_loop, failed)
          ([], m ∷ rollback, db.state, refl, refl, (refl, refl, λ k other. refl), λ h. cc)
  ]

-- Deleting what is not there.
delete_absent :
    (version : String) (rows : List AppliedRevision)
    → All (λ q. q.version ≢ version) rows
    → delete (of_version version) rows ≡ rows
delete_absent version [] h = refl
delete_absent version (r ∷ rows) h =
    rw (str_eq-ne r.version version h.0, delete_absent version rows h.1) refl

delete_last :
    (version : String) (rows : List AppliedRevision) (r : AppliedRevision)
    → All (λ q. q.version ≢ version) rows
    → r.version ≡ version
    → delete (of_version version) (rows ++ r ∷ []) ≡ rows
delete_last version [] r h same = rw ((eq_iff r.version version).1 same) refl
delete_last version (q ∷ rows) r h same =
    rw (str_eq-ne q.version version h.0, delete_last version rows r h.1 same) refl

IsDistinct-earlier :
    (base : List AppliedRevision) (r : AppliedRevision) (rs : List AppliedRevision)
    → IsDistinct (base ++ r ∷ rs)
    → All (λ q. q.version ≢ r.version) base
IsDistinct-earlier [] r rs h = tt
IsDistinct-earlier (q ∷ base) r rs h =
    let here = All-mem (λ p. p.version ≢ q.version) (base ++ r ∷ rs) h.0 (mem_middle base r rs) in
    ((λ e. here (sym e)), IsDistinct-earlier base r rs h.1)

without_last :
    (ms : List Migration) (m : Migration) (rows : List AppliedRevision)
    → without (ms ++ m ∷ []) rows ≡ delete (of_version m.version) (without ms rows)
without_last [] m rows = refl
without_last (k ∷ ms) m rows = without_last ms m (delete (of_version k.version) rows)

-- Undoing the newest revisions, the newest first, leaves the older ones.
pub without_undone :
    (base undone : List AppliedRevision) (reverted : List Migration)
    → IsDistinct (base ++ undone)
    → All2 (λ r m. r.version ≡ m.version) undone reverted
    → without (reverse reverted) (base ++ undone) ≡ base
without_undone base [] [] h same = append-nil base
without_undone base [] (m ∷ reverted) h same = absurd same
without_undone base (r ∷ undone) [] h same = absurd same
without_undone base (r ∷ undone) (m ∷ reverted) h same =
    let onto = append_assoc base (r ∷ []) undone in
    let shorter =
      ap (without (reverse reverted)) (sym onto)
      ∙ without_undone (base ++ r ∷ []) undone reverted (subst IsDistinct (sym onto) h) same.1 in
    rw (reverse-cons m reverted, without_last (reverse reverted) m (base ++ r ∷ undone), shorter)
      (delete_last m.version base r
        (subst (λ v. All (λ q. q.version ≢ v) base) same.0 (IsDistinct-earlier base r undone h))
        same.0)
