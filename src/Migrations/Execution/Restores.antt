-- ===== src/Migrations/Execution/Restores.antt =====
-- What `RollbackCandidate` restores, and what `ReconcileWithSchema` does.
use headcount.Prelude.{
  ◌≡◌, ◌≢◌, refl, ap, ◌∙◌, String, Option, none, some, List, ◌++◌, ok, Result, All, All2, eq_refl,
}
use mathlib.Core.List.{reverse}
use headcount.Migrations.{
  Migration, Manifest, AppliedRevision, PlanError, ReconcilePlan, plan_reconciliation,
}
use headcount.Migrations.Plans.{
  undone_versions, Records, IsComplete, StartsPlain, Parts, Undoes, plan_reconciliation_correct,
}
use headcount.Migrations.Execution.{
  Database, Installation, ident, down_loop, apply_down_with_schema, apply_down, rollback_candidate,
  save_manifest, apply_with_schema, reconcile_with_schema, finish_forward, loaded,
}
use headcount.Migrations.Execution.Downs.{
  without, without_undone, IsDistinct, DownPath, down_loop_runs,
}

module _ {ℓ} {S : Type ℓ} (stmts : String → Option (List String))
    (exec : String → S → Option S) where
  -- Let a failed candidate have left a history `base ++ undone`, where `base` records the first
  -- migrations `prior` of the saved manifest, the two part after that, every revision ran to its end,
  -- the first one is not a baseline marker, and no version occurs twice. Let each revision of `undone`
  -- have a migration of its version in the saved manifest or, only where that has none, in the
  -- candidate's, let that migration be reversible, and let the down statements of these migrations, the
  -- newest first, lead from the state to `t`. Then the rollback returns no error, the state is `t`, the
  -- history of the schema is `base`, and the saved manifest is saved again.
  pub rollback_candidate-restores :
      (dialect : String) (candidate previous : Manifest) (i : Installation S) (t : S)
      (base undone : List AppliedRevision) (prior apply reverted : List Migration)
      → i.saved dialect candidate.schema ≡ some previous
      → i.database.history (ident dialect candidate.schema) ≡ base ++ undone
      → previous.migrations ≡ prior ++ apply
      → All IsComplete (base ++ undone)
      → StartsPlain (base ++ undone)
      → All2 Records base prior
      → Parts undone apply
      → IsDistinct (base ++ undone)
      → All2 (Undoes previous.migrations candidate.migrations) undone reverted
      → DownPath stmts exec (reverse reverted) i.database.state t
      → let result = rollback_candidate stmts exec dialect candidate i in
        (result.0 ≡ none)
        × (result.1.database.state ≡ t)
        × (result.1.database.history (ident dialect candidate.schema) ≡ base)
        × (result.1.saved previous.dialect previous.schema ≡ some previous)
  unfolding rollback_candidate apply_down_with_schema save_manifest
  rollback_candidate-restores dialect candidate previous i t base undone prior apply reverted saved
        history whole complete plain common parts distinct known path =
      let plan =
        plan_reconciliation_correct base undone prior apply reverted previous candidate whole
          complete plain common parts known in
      let key = ident dialect candidate.schema in
      let (fine, left) = down_loop_runs stmts exec key (reverse reverted) i.database t path in
      let kept =
        without_undone base undone reverted distinct
          (undone_versions previous.migrations candidate.migrations undone reverted known) in
      rw (saved, history, plan, fine, eq_refl previous.dialect, eq_refl previous.schema)
        (refl, left.0, left.1 ∙ ap (without (reverse reverted)) history ∙ kept, refl)

module _ {ℓ} {S : Type ℓ} (stmts : String → Option (List String)) (exec : String → S → Option S)
    (pending : List AppliedRevision → Result PlanError (List Migration))
    (execute : Migration
      → S × List AppliedRevision
      → Result PlanError (S × List AppliedRevision)) where
  -- Let the plan of a reconciliation for any schema undo some migrations, whose down statements lead
  -- from the state to `t`. Then the forward migration starts from the state `t` and a history of the
  -- public schema without the revisions that were undone. The history of every other schema is
  -- unchanged, also where it is the one of the given schema: it keeps the revisions that were undone.
  pub reconcile_with_schema-rolls_back_public :
      (dialect : String) (candidate : Manifest) (schema : String) (i : Installation S) (t : S)
      (plan : ReconcilePlan)
      → plan_reconciliation
          (i.database.history (ident dialect schema))
          candidate
          (loaded (i.saved dialect schema))
        ≡ ok plan
      → DownPath stmts exec plan.rollback i.database.state t
      → (db : Database S) × (reconcile_with_schema stmts exec pending execute dialect candidate
            schema i
          ≡ finish_forward stmts exec pending execute candidate i
              (apply_with_schema pending execute dialect schema db))
        × (db.state ≡ t)
        × (db.history (ident dialect "")
            ≡ without plan.rollback (i.database.history (ident dialect "")))
        × ((k : String) → k ≢ ident dialect "" → db.history k ≡ i.database.history k)
  unfolding reconcile_with_schema apply_down apply_down_with_schema
  reconcile_with_schema-rolls_back_public dialect candidate schema i t plan planned path =
      let (fine, left) =
        down_loop_runs stmts exec (ident dialect "") plan.rollback i.database t path in
      (
        (down_loop stmts exec (ident dialect "") plan.rollback i.database).1,
        rw (planned, fine) refl,
        left.0,
        left.1,
        left.2,
      )
