-- ===== src/Relations.antt =====
-- db/repository/task_relation_repository.go: the relations between tasks, the checks that a new
-- relation passes, and the queries that say whether a task may start.
pub mod Search
pub mod Reach
pub mod Acyclic
pub mod Stored
pub mod Create
pub mod Start
mod Examples
use headcount.Prelude.{
  ℕ, zero, suc, ◌+◌, String, Bool, true, false, ◌&&◌, ◌||◌, not, Option, none, some, List, [], ◌∷◌,
  ◌++◌, length, first, find, delete, Result, ok, err, ◌>>=◌, ◌>>◌, reject_if, if◌then◌else◌, ltb,
  ◌==◌, str_eq, is_some,
}
use headcount.Tasks.{
  Task, get_task, status_todo, status_in_progress, status_depends_on_task, status_done,
}

abbrev pub depends_on : String
depends_on = "depends_on"

abbrev pub related_to : String
related_to = "related_to"

pub record TaskRelation : Type 0 where
  pub id : ℕ
  pub company_id : ℕ
  pub source : ℕ
  pub target : ℕ
  pub kind : String

pub data RelationError : Type 0 where
  source_missing target_missing : RelationError
  self_relation company_mismatch unsupported_kind active_run : RelationError
  ancestor_missing hierarchy cycle already_exists : RelationError

-- The rows that a dependency path runs through.
abbrev pub is_dependency : TaskRelation → Bool
is_dependency r = str_eq r.kind depends_on

-- The `Pluck("target_task_id")` of `dependencyPathExists`.
abbrev pub targets : List TaskRelation → ℕ → List ℕ
targets [] u = []
targets (r ∷ rs) u =
    let rest = targets rs u in if r.source == u && is_dependency r then r.target ∷ rest else rest

abbrev pub contains : List ℕ → ℕ → Bool
contains [] u = false
contains (v ∷ vs) u = let rest = contains vs u in if v == u then true else rest

-- The loop of `dependencyPathExists`; `none` means that the fuel ran out, which the caller's
-- fuel excludes.
pub path_loop : List TaskRelation → ℕ → ℕ → List ℕ → List ℕ → Option Bool
path_loop rels goal fuel visited [] = some false
path_loop rels goal zero visited (current ∷ frontier) = none
path_loop rels goal (suc fuel) visited (current ∷ frontier) =
    let skip = path_loop rels goal fuel visited frontier in
    let expand = path_loop rels goal fuel (current ∷ visited) (frontier ++ targets rels current) in
    if current == goal then some true else if contains visited current then skip else expand

-- Each round takes one entry off the queue, and each relation enters it at most once.
pub dependency_path_exists : List TaskRelation → ℕ → ℕ → Option Bool
unfolding path_loop
dependency_path_exists rels from goal = path_loop rels goal (length rels + 1) [] (from ∷ [])

-- The loop of `taskIsAncestor`, by the hops that are left of the 100.
pub ancestor_loop : List Task → ℕ → ℕ → ℕ → Result RelationError Bool
ancestor_loop tasks first_id zero current = ok false
ancestor_loop tasks first_id (suc hops) zero = ok false
ancestor_loop tasks first_id (suc hops) (suc c) = elim (get_task (suc c) tasks) [
  | none ↦ err ancestor_missing
  | some task ↦ elim task.parent_id [
    | none ↦ ok false
    | some parent ↦
        let next = ancestor_loop tasks first_id hops parent in
        if parent == first_id then ok true else next
  ]
]

abbrev pub max_hops : ℕ
max_hops = 100

pub task_is_ancestor : List Task → ℕ → ℕ → Result RelationError Bool
unfolding ancestor_loop
task_is_ancestor tasks first_id second_id = ancestor_loop tasks first_id max_hops second_id

abbrev pub require {ℓ} : {A : Type ℓ} → Option A → RelationError → Result RelationError A
require none e = err e
require (some a) e = ok a

-- The checks on the endpoints, up to the one on the kind.
pub check_endpoints : Task → Task → TaskRelation → Result RelationError (Unit {0})
check_endpoints source target relation = do
  reject_if (source.id == target.id) self_relation
  reject_if (not (source.company_id == target.company_id)) company_mismatch
  reject_if (not (str_eq relation.kind depends_on) && not (str_eq relation.kind related_to))
      unsupported_kind
  reject_if (str_eq relation.kind depends_on && is_some source.run_id) active_run

-- A `related_to` row is stored with the smaller task first.
pub canonical : Task → TaskRelation → TaskRelation
canonical source relation =
    let swap = str_eq relation.kind related_to && ltb relation.target relation.source in
    record relation {
      source = if swap then relation.target else relation.source;
      target = if swap then relation.source else relation.target;
      company_id = source.company_id;
    }

-- A search that ran out of fuel would count as a found path.
abbrev pub found : Option Bool → Bool
found none = true
found (some b) = b

pub check_dependency : List Task → List TaskRelation → Task → Task → Result RelationError (Unit {0})
check_dependency tasks rels source target = do
  below ← task_is_ancestor tasks source.id target.id
  above ← (if below then ok true else task_is_ancestor tasks target.id source.id)
  reject_if above hierarchy
  reject_if (found (dependency_path_exists rels target.id source.id)) cycle

abbrev pub same_key : TaskRelation → TaskRelation → Bool
same_key a b = a.source == b.source && a.target == b.target && str_eq a.kind b.kind

abbrev pub stored : ℕ → Task → TaskRelation → TaskRelation
stored next_id source relation = record (canonical source relation) { id = next_id }

-- The rest of `CreateTaskRelation`, after both tasks are loaded. `next_id` is the primary key that
-- the database assigns.
pub store_relation :
    ℕ
    → List Task
    → List TaskRelation
    → Task
    → Task
    → TaskRelation
    → Result RelationError (TaskRelation × List TaskRelation)
store_relation next_id tasks rels source target relation = do
  check_endpoints source target relation
  let row = stored next_id source relation
  (if is_dependency row then check_dependency tasks rels source target else ok tt)
  reject_if (is_some (first (λ r. same_key r row) rels)) already_exists
  ok (row, rels ++ row ∷ [])

-- `CreateTaskRelation`: the stored row and the table, or the error of the rolled back transaction.
pub create_task_relation :
    ℕ
    → List Task
    → List TaskRelation
    → TaskRelation
    → Result RelationError (TaskRelation × List TaskRelation)
create_task_relation next_id tasks rels relation = do
  source ← require (get_task relation.source tasks) source_missing
  target ← require (get_task relation.target tasks) target_missing
  store_relation next_id tasks rels source target relation

pub delete_task_relation : List TaskRelation → ℕ → List TaskRelation
delete_task_relation rels id = delete (λ r. r.id == id) rels

pub delete_task_relations_for_task : List TaskRelation → ℕ → List TaskRelation
delete_task_relations_for_task rels task_id =
    delete (λ r. r.source == task_id || r.target == task_id) rels

pub list_task_relations : List TaskRelation → ℕ → List TaskRelation
list_task_relations rels task_id = find (λ r. r.source == task_id || r.target == task_id) rels

-- The join of `ListBlockingDependencies`: the prerequisites of a task that are not done, in the
-- order of the task table.
abbrev blocks : List TaskRelation → ℕ → Task → Bool
blocks rels task_id t = contains (targets rels task_id) t.id && not (str_eq t.status status_done)

pub list_blocking_dependencies : List Task → List TaskRelation → ℕ → List Task
list_blocking_dependencies tasks rels task_id = find (blocks rels task_id) tasks

pub can_start_task : List Task → List TaskRelation → ℕ → Bool × List Task
unfolding list_blocking_dependencies
can_start_task tasks rels task_id =
    let blockers = list_blocking_dependencies tasks rels task_id in (length blockers == 0, blockers)

abbrev queued_status : String → Bool
queued_status s =
    str_eq s status_todo || str_eq s status_in_progress || str_eq s status_depends_on_task

pub list_queued_tasks_for_reconciliation : List Task → List Task
list_queued_tasks_for_reconciliation tasks =
    find (λ t. queued_status t.status && not (is_some t.run_id)) tasks
