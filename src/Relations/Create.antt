-- ===== src/Relations/Create.antt =====
-- The invariant of the relation table that `CreateTaskRelation` keeps.
use headcount.Prelude.{
  ℕ, ◌≡◌, ◌≢◌, refl, sym, subst, ap, ◌⊎◌, inl, inr, Bool, true, false, ◌&&◌, ◌||◌, ◌<◌, none, some,
  List, [], ◌∷◌, ◌++◌, arith, ok, reject_if, delete, first-holds, All, All-append, All-delete, ◌==◌,
  str_eq, eq_iff, ltb, if◌then◌else◌, if_elim, Bool-cases, >>=-eq-ok, >>-eq-ok, reject_if-eq-ok,
  All-first_none,
}
use headcount.Tasks.{Task, get_task, has_id}
use headcount.Relations.{
  TaskRelation, depends_on, related_to, is_dependency, stored, check_endpoints, check_dependency,
  canonical, same_key, found, hierarchy, task_is_ancestor, create_task_relation,
  delete_task_relation, delete_task_relations_for_task,
}
use headcount.Relations.Reach.{Reach, IsAcyclic}
use headcount.Relations.Search.{dependency_path_exists_correct}
use headcount.Relations.Acyclic.{IsAcyclic-append, IsAcyclic-delete}
use headcount.Relations.Stored.{create_task_relation-Created, Created}

-- One row of a well-formed table.
pub record RowIsValid (tasks : List Task) (r : TaskRelation) : Type 0 where
  pub source : Task
  pub target : Task
  pub source_found : get_task r.source tasks ≡ some source
  pub target_found : get_task r.target tasks ≡ some target
  pub distinct : r.source ≢ r.target
  pub source_company : source.company_id ≡ r.company_id
  pub target_company : target.company_id ≡ r.company_id
  pub known_kind : (r.kind ≡ depends_on) ⊎ (r.kind ≡ related_to)
  pub ordered : r.kind ≡ related_to → r.source < r.target

-- No two rows have the same source, target and kind.
abbrev pub AreDistinct : List TaskRelation → Type 0
AreDistinct [] = Unit
AreDistinct (r ∷ rs) = All (λ x. same_key r x ≡ false) rs × AreDistinct rs

pub record IsWellFormed (tasks : List Task) (rels : List TaskRelation) : Type 0 where
  pub rows : All (RowIsValid tasks) rels
  pub distinct : AreDistinct rels
  pub acyclic : IsAcyclic rels

AreDistinct-append :
    (rels : List TaskRelation) (row : TaskRelation)
    → AreDistinct rels
    → All (λ x. same_key x row ≡ false) rels
    → AreDistinct (rels ++ row ∷ [])
AreDistinct-append [] row d h = (tt, tt)
AreDistinct-append (r ∷ rs) row d h = (
  All-append (λ x. same_key r x ≡ false) rs (row ∷ []) d.0 (h.0, tt),
  AreDistinct-append rs row d.1 h.1,
)

AreDistinct-delete :
    (p : TaskRelation → Bool) (rels : List TaskRelation)
    → AreDistinct rels
    → AreDistinct (delete p rels)
AreDistinct-delete p [] d = tt
AreDistinct-delete p (r ∷ rs) d =
    let rest = AreDistinct-delete p rs d.1 in
    if_elim AreDistinct (p r) (λ _. rest)
      (λ _. (All-delete (λ x. same_key r x ≡ false) p rs d.0, rest))

-- What the checks on the endpoints let through.
record Endpoints (source target : Task) (relation : TaskRelation) : Type 0 where
  distinct : source.id ≢ target.id
  company : source.company_id ≡ target.company_id
  known_kind : (relation.kind ≡ depends_on) ⊎ (relation.kind ≡ related_to)
  idle : relation.kind ≡ depends_on → source.run_id ≡ none

check_endpoints-Endpoints :
    (source target : Task) (relation : TaskRelation)
    → check_endpoints source target relation ≡ ok tt
    → Endpoints source target relation
unfolding check_endpoints
check_endpoints-Endpoints source target relation h = record {
  distinct = ground arith;
  company = ground arith;
  known_kind = ground (arith, eq_iff relation.kind depends_on, eq_iff relation.kind related_to);
  idle = ground (arith, eq_iff relation.kind depends_on);
}

module _ (next_id : ℕ) (tasks : List Task) (relation : TaskRelation) (source target : Task)
    (fs : get_task relation.source tasks ≡ some source)
    (ft : get_task relation.target tasks ≡ some target)
    (h : check_endpoints source target relation ≡ ok tt) where
  -- The stored row is valid, in either order of the endpoints.
  stored-RowIsValid : RowIsValid tasks (stored next_id source relation)
  unfolding canonical
  stored-RowIsValid =
      let facts = check_endpoints-Endpoints source target relation h in
      let sid = first-holds (has_id relation.source) tasks fs in
      let tid = first-holds (has_id relation.target) tasks ft in
      elim (Bool-cases (str_eq relation.kind related_to && ltb relation.target relation.source)) [
        | inl yes' ↦ rw yes' (record {
          source = target;
          target = source;
          source_found = ft;
          target_found = fs;
          distinct = ground arith;
          source_company = ground arith;
          target_company = refl;
          known_kind = facts.known_kind;
          ordered = ground arith;
        })
        | inr no' ↦ rw no' (record {
          source = source;
          target = target;
          source_found = fs;
          target_found = ft;
          distinct = ground arith;
          source_company = refl;
          target_company = ground arith;
          known_kind = facts.known_kind;
          ordered = λ k. ground (arith, eq_iff relation.kind related_to);
        })
      ]

  -- A dependency row is stored in the order that was asked for, between different tasks.
  stored_dependency :
      is_dependency (stored next_id source relation) ≡ true
      → ((stored next_id source relation).source ≡ source.id)
        × ((stored next_id source relation).target ≡ target.id)
  unfolding canonical
  stored_dependency d =
      let sid = first-holds (has_id relation.source) tasks fs in
      let tid = first-holds (has_id relation.target) tasks ft in
      let kind = (eq_iff relation.kind depends_on).0 d in rw kind (ground arith)

-- The checks on a dependency leave no walk back.
check_dependency-safe :
    (tasks : List Task) (rels : List TaskRelation) (source target : Task)
    → check_dependency tasks rels source target ≡ ok tt
    → ¬ Reach rels target.id source.id
unfolding check_dependency
check_dependency-safe tasks rels source target h p =
    let (below, _, h₁) = >>=-eq-ok (task_is_ancestor tasks source.id target.id) _ h in
    let (above, _, h₂) =
      >>=-eq-ok (if below then ok true else task_is_ancestor tasks target.id source.id) _ h₁ in
    let (_, h₃) = >>-eq-ok (reject_if above hierarchy) _ h₂ in
    elim (dependency_path_exists_correct rels target.id source.id) [
      | inl yes' ↦ cc (reject_if-eq-ok _ _ h₃, ap found yes'.0)
      | inr no' ↦ no'.1 p
    ]

-- If the table is well-formed and `CreateTaskRelation` succeeds, then the table with the new row
-- is well-formed: every row joins two different tasks of one company and has a known kind,
-- `related_to` rows have the smaller task first, no two rows have the same source, target and
-- kind, and no task depends on itself through other tasks.
pub create_task_relation-IsWellFormed :
    (next_id : ℕ) (tasks : List Task) (rels : List TaskRelation) (relation row : TaskRelation)
    (rels' : List TaskRelation)
    → IsWellFormed tasks rels
    → create_task_relation next_id tasks rels relation ≡ ok (row, rels')
    → IsWellFormed tasks rels'
create_task_relation-IsWellFormed next_id tasks rels relation row rels' w h =
    rw (made.table) (record {
      rows = All-append (RowIsValid tasks) rels (row ∷ []) w.rows (valid, tt);
      distinct = AreDistinct-append rels row w.distinct (
          All-first_none (λ x. same_key x row ≡ false) (λ x. same_key x row) rels (λ x e. e)
            made.fresh);
      acyclic = IsAcyclic-append rels row w.acyclic safe;
    })
  where
    made : Created next_id tasks rels relation row rels'
    made = create_task_relation-Created next_id tasks rels relation row rels' h

    valid : RowIsValid tasks row
    valid = subst (RowIsValid tasks) (sym made.row_stored) (
        stored-RowIsValid next_id tasks relation made.source made.target made.source_found
          made.target_found made.checked)

    IsSafe : TaskRelation → Type 0
    IsSafe r = is_dependency r ≡ true → ¬ Reach rels r.target r.source

    safe : IsSafe row
    safe = subst IsSafe (sym made.row_stored) (λ d p.
        let dep = made.dependency (subst (λ r. is_dependency r ≡ true) (sym made.row_stored) d) in
        let (from, to) =
          stored_dependency next_id tasks relation made.source made.target made.source_found
            made.target_found made.checked d in
        check_dependency-safe tasks rels made.source made.target dep (
          subst (λ u. Reach rels u made.source.id) to
            (subst (Reach rels (stored next_id made.source relation).target) from p)))

-- Deleting a relation, or all relations of a task, keeps the table well-formed.
delete-IsWellFormed :
    (tasks : List Task) (rels : List TaskRelation) (id : ℕ)
    → IsWellFormed tasks rels
    → IsWellFormed tasks (delete_task_relation rels id)
      × IsWellFormed tasks (delete_task_relations_for_task rels id)
unfolding delete_task_relation delete_task_relations_for_task
delete-IsWellFormed tasks rels id w =
    (keep (λ r. r.id == id), keep (λ r. r.source == id || r.target == id))
  where
    keep : (p : TaskRelation → Bool) → IsWellFormed tasks (delete p rels)
    keep p = record {
      rows = All-delete (RowIsValid tasks) p rels w.rows;
      distinct = AreDistinct-delete p rels w.distinct;
      acyclic = IsAcyclic-delete p rels w.acyclic;
    }
