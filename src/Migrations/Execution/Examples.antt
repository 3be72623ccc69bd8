-- ===== src/Migrations/Execution/Examples.antt =====
-- A candidate that replaces one migration of the release before it.
use headcount.Prelude.{
  ℕ, ◌≡◌, ◌≢◌, refl, String, true, false, Option, none, some, List, [], ◌∷◌, ◌++◌, Result, ok,
  str_eq, eq_iff, arith, if◌then◌else◌,
}
use headcount.Migrations.{
  is_baseline, Migration, Manifest, AppliedRevision, PlanError, down_entry, entry,
  plan_reconciliation,
}
use headcount.Migrations.Plans.{Records, IsComplete, Parts, Undoes, plan_reconciliation_correct}
use headcount.Migrations.Execution.{
  Database, Installation, ident, down_loop, rollback_candidate, reconcile_with_schema,
  apply_with_schema, finish_forward, run_statements,
}
use headcount.Migrations.Execution.Downs.{DownPath, Leaves, down_loop_atomic, without}
use headcount.Migrations.Execution.Restores.{
  rollback_candidate-restores, reconcile_with_schema-rolls_back_public,
}

abbrev migration : String → Migration
migration v = record {
  version = v;
  description = "";
  atlas_hash = "h";
  up_sha256 = "";
  down_sha256 = "";
  up_sql = "";
  down_sql = v;
  reversible = true;
}

abbrev manifest : List Migration → Manifest
manifest ms = record { dialect = "postgres"; schema = "shadow"; generated = 0; migrations = ms }

abbrev revision : String → String → ℕ → AppliedRevision
revision v hash n = record {
  version = v;
  description = "";
  hash = hash;
  applied = n;
  total = n;
  error = "";
  error_stmt = "";
  partial_hashes = [];
}

abbrev candidate : Manifest
candidate = manifest (migration "1" ∷ migration "3" ∷ [])

abbrev previous : Manifest
previous = manifest (migration "1" ∷ migration "2" ∷ [])

different : (s t : String) → str_eq s t ≡ false → s ≢ t
different s t h = ground (arith, eq_iff s t)

complete : (v : String) → IsComplete (revision v "h" 1)
complete v = refl

plain : is_baseline (revision "1" "h" 1) ≡ false
plain = refl

records : (v : String) → Records (revision v "h" 1) (migration v)
records v = (refl, refl)

second_differs : Parts (revision "2" "h" 1 ∷ []) (migration "3" ∷ [])
second_differs = different "2" "3" refl

undoes : Undoes candidate.migrations previous.migrations (revision "2" "h" 1) (migration "2")
unfolding down_entry entry
undoes = (refl, refl)

plan_reconciliation_correct_example :
    plan_reconciliation (revision "1" "h" 1 ∷ revision "2" "h" 1 ∷ []) candidate previous
    ≡ ok
        (record { common_version = "1"; rollback = migration "2" ∷ []; apply = migration "3" ∷ [] })
plan_reconciliation_correct_example =
    plan_reconciliation_correct (revision "1" "h" 1 ∷ []) (revision "2" "h" 1 ∷ [])
      (migration "1" ∷ []) (migration "3" ∷ []) (migration "2" ∷ []) candidate previous refl
      (complete "1", (complete "2", tt)) plain (records "1", tt) second_differs (undoes, tt)

-- The state is the list of the statements that ran; a file is one statement, and "bad" fails.
abbrev whole_file : String → Option (List String)
whole_file text = some (text ∷ [])

abbrev log : String → List String → Option (List String)
log statement s = if str_eq statement "bad" then none else some (statement ∷ s)

abbrev database : List String → List AppliedRevision → Database (List String)
database s rows = record { state = s; history = λ k. if str_eq k "shadow" then rows else [] }

-- The candidate 1, 3 ran; the release before it is 1, 2.
abbrev failed_candidate : Installation (List String)
failed_candidate = record {
  database = database [] (revision "1" "h" 1 ∷ revision "3" "h" 1 ∷ []);
  saved = λ d s. some previous;
}

third_differs : Parts (revision "3" "h" 1 ∷ []) (migration "2" ∷ [])
third_differs = different "3" "2" refl

third_known : Undoes previous.migrations candidate.migrations (revision "3" "h" 1) (migration "3")
unfolding down_entry entry
third_known = (refl, refl)

undo_3 : DownPath whole_file log (migration "3" ∷ []) [] ("3" ∷ [])
unfolding run_statements
undo_3 = ("3" ∷ [], (refl, ("3" ∷ [], refl, refl)), refl)

rollback_candidate-restores_example :
    let result = rollback_candidate whole_file log "postgres" candidate failed_candidate in
    (result.0 ≡ none)
    × (result.1.database.state ≡ "3" ∷ [])
    × (result.1.database.history (ident "postgres" "shadow") ≡ revision "1" "h" 1 ∷ [])
    × (result.1.saved "postgres" "shadow" ≡ some previous)
unfolding ident
rollback_candidate-restores_example =
    rollback_candidate-restores whole_file log "postgres" candidate previous failed_candidate
      ("3" ∷ []) (revision "1" "h" 1 ∷ []) (revision "3" "h" 1 ∷ []) (migration "1" ∷ [])
      (migration "2" ∷ []) (migration "3" ∷ []) refl refl refl (complete "1", (complete "3", tt))
      plain (records "1", tt) third_differs ((different "3" "1" refl, tt), (tt, tt))
      (third_known, tt) undo_3

down_loop_atomic_example :
    let result =
      down_loop whole_file log "shadow"
        (migration "3" ∷ migration "bad" ∷ [])
        failed_candidate.database in
    (done rest : List Migration) × (t : List String) × (migration "3" ∷ migration "bad" ∷ []
      ≡ done ++ rest)
    × DownPath whole_file log done [] t
    × Leaves whole_file log "shadow" done failed_candidate.database t result.1
    × (result.0 ≡ none → rest ≡ [])
down_loop_atomic_example =
    down_loop_atomic whole_file log "shadow" (migration "3" ∷ migration "bad" ∷ [])
      failed_candidate.database

-- Nothing is pending, and executing a migration does nothing.
abbrev nothing_pending : List AppliedRevision → Result PlanError (List Migration)
nothing_pending rows = ok []

abbrev execute :
    Migration
    → List String × List AppliedRevision
    → Result PlanError (List String × List AppliedRevision)
execute m s = ok s

-- The release 1, 3 is saved, and 1, 2 is deployed over it.
abbrev downgraded : Installation (List String)
downgraded = record failed_candidate { saved = λ d s. some candidate }

planned :
    plan_reconciliation (downgraded.database.history (ident "postgres" "shadow")) previous candidate
    ≡ ok
        (record { common_version = "1"; rollback = migration "3" ∷ []; apply = migration "2" ∷ [] })
unfolding ident
planned =
    plan_reconciliation_correct (revision "1" "h" 1 ∷ []) (revision "3" "h" 1 ∷ [])
      (migration "1" ∷ []) (migration "2" ∷ []) (migration "3" ∷ []) previous candidate refl
      (complete "1", (complete "3", tt)) plain (records "1", tt) third_differs (third_known, tt)

reconcile_with_schema-rolls_back_public_example :
    (db : Database (List String)) × (reconcile_with_schema whole_file log nothing_pending execute
        "postgres" previous "shadow" downgraded
      ≡ finish_forward whole_file log nothing_pending execute previous downgraded
          (apply_with_schema nothing_pending execute "postgres" "shadow" db))
    × (db.state ≡ "3" ∷ [])
    × (db.history (ident "postgres" "")
        ≡ without (migration "3" ∷ []) (downgraded.database.history (ident "postgres" "")))
    × ((k : String) → k ≢ ident "postgres" "" → db.history k ≡ downgraded.database.history k)
reconcile_with_schema-rolls_back_public_example =
    reconcile_with_schema-rolls_back_public whole_file log nothing_pending execute "postgres"
      previous "shadow" downgraded ("3" ∷ [])
      (record { common_version = "1"; rollback = migration "3" ∷ []; apply = migration "2" ∷ [] })
      planned undo_3
