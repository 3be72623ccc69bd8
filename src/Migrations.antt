-- ===== src/Migrations.antt =====
-- db/migrations/reconcile.go and migrator.go: the release manifests, the plan that leads from the
-- history of a database to the history of a release, and its execution. Versions and hashes are texts,
-- counters are natural numbers. The SQL of a migration acts on a state that is a parameter.
pub mod Execution
pub mod Plans
use headcount.Prelude.{
  ℕ, suc, ◌+◌, String, Bool, true, false, not, ◌&&◌, Option, none, some, List, [], ◌∷◌, ◌++◌,
  Result, ok, err, ◌>>=◌, ◌>>◌, if◌then◌else◌, ◌==◌, str_eq, first, drop, delete, Option-cases, ◌≡◌,
}
use mathlib.Core.List.{reverse}

pub record Migration : Type 0 where
  pub version : String
  pub description : String
  pub atlas_hash : String
  pub up_sha256 : String
  pub down_sha256 : String
  pub up_sql : String
  pub down_sql : String
  pub reversible : Bool

pub record Manifest : Type 0 where
  pub dialect : String
  pub schema : String
  pub generated : ℕ
  pub migrations : List Migration

pub record AppliedRevision : Type 0 where
  pub version : String
  pub description : String
  pub hash : String
  pub applied : ℕ
  pub total : ℕ
  pub error : String
  pub error_stmt : String
  pub partial_hashes : List String

pub record ReconcilePlan : Type 0 where
  pub common_version : String
  pub rollback : List Migration
  pub apply : List Migration

pub data Phase : Type 0 where
  inspect down down_parse : Phase

-- `MigrationError` with its phase, version, statement and statement number, the two other error types,
-- and the plain errors.
pub data PlanError : Type 0 where
  migration_error : Phase → String → String → ℕ → PlanError
  history_mismatch : String → String → String → PlanError
  irreversible_migration : String → PlanError
  no_down_migration : String → PlanError
  apply_failed load_failed save_failed : PlanError

abbrev pub has_version : String → Migration → Bool
has_version version m = str_eq m.version version

-- `Manifest.Entry`
pub entry : List Migration → String → Option Migration
entry ms version = first (has_version version) ms

abbrev pub next_index : Option ℕ → Option ℕ
next_index none = none
next_index (some i) = some (suc i)

-- `Manifest.At`, where none stands for -1.
pub at : List Migration → String → Option ℕ
at [] version = none
at (m ∷ ms) version =
    let later = at ms version in if str_eq m.version version then some 0 else next_index later

-- The loop over the revisions at the start of `PlanReconciliation`.
pub check_complete : List AppliedRevision → Result PlanError (Unit {0})
check_complete [] = ok tt
check_complete (r ∷ rs) =
    let rest = check_complete rs in
    if r.applied == r.total
    then rest
    else err (migration_error inspect r.version r.error_stmt (r.applied + 1))

abbrev pub is_baseline : AppliedRevision → Bool
is_baseline r = r.applied == 0 && r.total == 0 && str_eq r.hash ""

-- What is left of both histories after their common part: `applied[common:]`, `candidate[candidateAt:]`,
-- and the version of `applied[common-1]`, or "".
pub record Divergence : Type 0 where
  pub common_version : String
  pub undone : List AppliedRevision
  pub apply : List Migration

-- The loop that advances `common` and `candidateAt`.
pub compare_history : String → List AppliedRevision → List Migration → Result PlanError Divergence
compare_history last [] ms = ok (record { common_version = last; undone = []; apply = ms })
compare_history last (r ∷ rs) [] =
    ok (record { common_version = last; undone = r ∷ rs; apply = [] })
compare_history last (r ∷ rs) (m ∷ ms) =
    let rest = compare_history r.version rs ms in
    if str_eq r.version m.version
    then if str_eq r.hash m.atlas_hash
      then rest
      else err (history_mismatch r.version r.hash m.atlas_hash)
    else ok (record { common_version = last; undone = r ∷ rs; apply = m ∷ ms })

abbrev pub from_baseline :
    AppliedRevision → List AppliedRevision → List Migration → Option ℕ → Result PlanError Divergence
from_baseline r rs ms none = compare_history "" (r ∷ rs) ms
from_baseline r rs ms (some index) = compare_history r.version rs (drop (suc index) ms)

-- `common` and `candidateAt` start behind a baseline marker that the candidate knows.
pub diverge : List AppliedRevision → List Migration → Result PlanError Divergence
diverge [] ms = compare_history "" [] ms
diverge (r ∷ rs) ms =
    if is_baseline r
    then from_baseline r rs ms (at ms r.version)
    else compare_history "" (r ∷ rs) ms

abbrev pub or_else : Option Migration → Option Migration → Option Migration
or_else (some m) other = some m
or_else none other = other

pub down_entry : List Migration → List Migration → String → Option Migration
down_entry candidate previous version = or_else (entry candidate version) (entry previous version)

abbrev pub undo_with :
    String
    → Option Migration
    → Result PlanError (List Migration)
    → Result PlanError (List Migration)
undo_with version none rest = err (no_down_migration version)
undo_with version (some m) rest =
    if m.reversible then (rest >>= λ ms. ok (m ∷ ms)) else err (irreversible_migration m.version)

-- The loop that fills `plan.Rollback`, over the revisions from the newest to the oldest.
pub rollback_entries :
    List Migration → List Migration → List AppliedRevision → Result PlanError (List Migration)
rollback_entries candidate previous [] = ok []
rollback_entries candidate previous (r ∷ rs) =
    undo_with r.version (down_entry candidate previous r.version)
      (rollback_entries candidate previous rs)

pub plan_from : List Migration → List Migration → Divergence → Result PlanError ReconcilePlan
plan_from candidate previous d = rollback_entries candidate previous (reverse d.undone) >>= λ ms.
    ok (record { common_version = d.common_version; rollback = ms; apply = d.apply })

-- `PlanReconciliation`
pub plan_reconciliation :
    List AppliedRevision → Manifest → Manifest → Result PlanError ReconcilePlan
plan_reconciliation applied candidate rollback_manifest =
    check_complete applied
    >> (diverge applied candidate.migrations >>= λ d.
        plan_from candidate.migrations rollback_manifest.migrations d)
