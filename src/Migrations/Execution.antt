-- ===== src/Migrations/Execution.antt =====
-- The execution of a plan in db/migrations: `ApplyDown`, `ApplyWithSchema`, `ReconcileWithSchema` and
-- `RollbackCandidate`. The steps of a transaction that fail for want of a connection (begin, commit, the
-- delete of the revision) are not modelled: they leave the database as a failed statement does.
pub mod Downs
pub mod Restores
mod Examples
use headcount.Prelude.{
  ℕ, ◌+◌, String, Bool, true, false, ◌&&◌, Option, none, some, List, [], ◌∷◌, Result, ok, err,
  if◌then◌else◌, str_eq, delete,
}
use headcount.Migrations.{
  Migration, Manifest, AppliedRevision, ReconcilePlan, PlanError, migration_error,
  irreversible_migration, down, down_parse, plan_reconciliation,
}

abbrev pub schema_or_public : String → String
schema_or_public schema = if str_eq schema "" then "public" else schema

-- The schema of the revision table; a dialect without schemas has one table.
pub ident : String → String → String
ident dialect schema = if str_eq dialect "postgres" then schema_or_public schema else ""

-- The tables on which the SQL of migrations acts, and the rows of the revision table of each schema, in
-- the order of their versions.
pub record Database {ℓ} (S : Type ℓ) : Type ℓ where
  pub state : S
  pub history : String → List AppliedRevision

pub write_history {ℓ} : {S : Type ℓ} → String → List AppliedRevision → Database S → Database S
write_history key rows db = record db { history = λ k. if str_eq k key then rows else db.history k }

abbrev pub of_version : String → AppliedRevision → Bool
of_version version r = str_eq r.version version

-- Splitting a file into statements is the migration library's, and running one is the database's.
module _ {ℓ} {S : Type ℓ} (stmts : String → Option (List String))
    (exec : String → S → Option S) where
  -- The loop over the statements; a failure carries the number and the text of the statement.
  pub run_statements : ℕ → List String → S → Result (ℕ × String) S
  run_statements n [] s = ok s
  run_statements n (statement ∷ rest) s = elim (exec statement s) [
    | none ↦ err (n + 1, statement)
    | some s' ↦ run_statements (n + 1) rest s'
  ]

  abbrev pub commit_down :
      String → Migration → Database S → Result (ℕ × String) S → Result PlanError (Database S)
  commit_down key m db (err (number, statement)) =
      err (migration_error down m.version statement number)
  commit_down key m db (ok s) =
      ok (
        write_history key (delete (of_version m.version) (db.history key))
          (record db { state = s }))

  abbrev pub parsed_down :
      String → Migration → Database S → Option (List String) → Result PlanError (Database S)
  parsed_down key m db none = err (migration_error down_parse m.version "" 0)
  parsed_down key m db (some statements) =
      commit_down key m db (run_statements 0 statements db.state)

  -- One pass of the loop in `ApplyDownWithSchema`: one transaction.
  pub down_one : String → Migration → Database S → Result PlanError (Database S)
  down_one key m db =
      if m.reversible
      then parsed_down key m db (stmts m.down_sql)
      else err (irreversible_migration m.version)

  -- The migrations that were undone before a failure stay undone.
  pub down_loop : String → List Migration → Database S → Option PlanError × Database S
  down_loop key [] db = (none, db)
  down_loop key (m ∷ rollback) db = elim (down_one key m db) [
    | err e ↦ (some e, db)
    | ok db' ↦ down_loop key rollback db'
  ]

  -- `ApplyDownWithSchema`
  pub apply_down_with_schema :
      String → List Migration → String → Database S → Option PlanError × Database S
  apply_down_with_schema dialect rollback schema db = down_loop (ident dialect schema) rollback db

  -- `ApplyDown`
  pub apply_down : String → List Migration → Database S → Option PlanError × Database S
  apply_down dialect rollback db = apply_down_with_schema dialect rollback "" db

-- `executeFileTransaction` in a loop, as in `ApplyWithSchema`: the executor of the migration library
-- decides which files are pending, and executing one changes the state and its own revision table.
module _ {ℓ} {S : Type ℓ} (pending : List AppliedRevision → Result PlanError (List Migration))
    (execute : Migration
      → S × List AppliedRevision
      → Result PlanError (S × List AppliedRevision)) where
  pub apply_files : String → List Migration → Database S → Option PlanError × Database S
  apply_files key [] db = (none, db)
  apply_files key (file ∷ files) db = elim (execute file (db.state, db.history key)) [
    | err e ↦ (some e, db)
    | ok (s, rows) ↦ apply_files key files (write_history key rows (record db { state = s }))
  ]

  pub apply_with_schema : String → String → Database S → Option PlanError × Database S
  apply_with_schema dialect schema db = elim (pending (db.history (ident dialect schema))) [
    | err e ↦ (some e, db)
    | ok files ↦ apply_files (ident dialect schema) files db
  ]

-- The database and the manifest files, by dialect and schema.
pub record Installation {ℓ} (S : Type ℓ) : Type ℓ where
  pub database : Database S
  pub saved : String → String → Option Manifest

-- `SaveManifest`
pub save_manifest {ℓ} : {S : Type ℓ} → Manifest → Installation S → Installation S
save_manifest m i = record i {
  saved = λ d s. if str_eq d m.dialect && str_eq s m.schema then some m else i.saved d s;
}

-- The manifest that `LoadManifestForSchema` returns, where a missing file gives `Manifest{}`.
abbrev pub loaded : Option Manifest → Manifest
loaded none = record { dialect = ""; schema = ""; generated = 0; migrations = [] }
loaded (some m) = m

module _ {ℓ} {S : Type ℓ} (stmts : String → Option (List String)) (exec : String → S → Option S)
    (pending : List AppliedRevision → Result PlanError (List Migration))
    (execute : Migration
      → S × List AppliedRevision
      → Result PlanError (S × List AppliedRevision)) where
  abbrev pub finish_forward :
      Manifest → Installation S → Option PlanError × Database S → Option PlanError × Installation S
  finish_forward candidate i (some e, db) = (some e, record i { database = db })
  finish_forward candidate i (none, db) =
      (none, save_manifest candidate (record i { database = db }))

  abbrev pub go_forward :
      String
      → Manifest
      → String
      → Installation S
      → Option PlanError × Database S
      → Option PlanError × Installation S
  go_forward dialect candidate schema i (some e, db) = (some e, record i { database = db })
  go_forward dialect candidate schema i (none, db) =
      finish_forward candidate i (apply_with_schema pending execute dialect schema db)

  abbrev pub follow_plan :
      String
      → Manifest
      → String
      → Installation S
      → Result PlanError ReconcilePlan
      → Option PlanError × Installation S
  follow_plan dialect candidate schema i (err e) = (some e, i)
  follow_plan dialect candidate schema i (ok plan) =
      go_forward dialect candidate schema i (apply_down stmts exec dialect plan.rollback i.database)

  -- `ReconcileWithSchema`, whose rollback is `ApplyDown`, without the schema.
  pub reconcile_with_schema :
      String → Manifest → String → Installation S → Option PlanError × Installation S
  reconcile_with_schema dialect candidate schema i = follow_plan dialect candidate schema i (
      plan_reconciliation (i.database.history (ident dialect schema)) candidate
        (loaded (i.saved dialect schema)))

module _ {ℓ} {S : Type ℓ} (stmts : String → Option (List String))
    (exec : String → S → Option S) where
  abbrev pub finish_rollback :
      Manifest → Installation S → Option PlanError × Database S → Option PlanError × Installation S
  finish_rollback previous i (some e, db) = (some e, record i { database = db })
  finish_rollback previous i (none, db) =
      (none, save_manifest previous (record i { database = db }))

  abbrev pub roll_back_to :
      String
      → Manifest
      → Manifest
      → Installation S
      → Result PlanError ReconcilePlan
      → Option PlanError × Installation S
  roll_back_to dialect candidate previous i (err e) = (some e, i)
  roll_back_to dialect candidate previous i (ok plan) =
      finish_rollback previous i
        (apply_down_with_schema stmts exec dialect plan.rollback candidate.schema i.database)

  abbrev pub roll_back_candidate :
      String → Manifest → Installation S → Option Manifest → Option PlanError × Installation S
  roll_back_candidate dialect candidate i none = (none, i)
  roll_back_candidate dialect candidate i (some previous) =
      roll_back_to dialect candidate previous i (
        plan_reconciliation (i.database.history (ident dialect candidate.schema)) previous
          candidate)

  -- `RollbackCandidate`
  pub rollback_candidate : String → Manifest → Installation S → Option PlanError × Installation S
  rollback_candidate dialect candidate i =
      roll_back_candidate dialect candidate i (i.saved dialect candidate.schema)
