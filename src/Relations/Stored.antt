-- ===== src/Relations/Stored.antt =====
-- What a call of `CreateTaskRelation` that succeeds has established.
use headcount.Prelude.{
  ℕ, ◌≡◌, sym, subst, ap, true, false, Option, none, some, List, [], ◌∷◌, ◌++◌, ok, reject_if,
  first, is_some, if◌then◌else◌, >>=-eq-ok, >>-eq-ok, reject_if-eq-ok, if_true, ◌∙◌,
}
use headcount.Tasks.{Task, get_task}
use headcount.Relations.{
  TaskRelation, RelationError, is_dependency, stored, source_missing, target_missing, require,
  check_endpoints, check_dependency, same_key, already_exists, store_relation, create_task_relation,
}

-- What the checks of a successful call saw, and what it stored.
pub record Created (next_id : ℕ) (tasks : List Task) (rels : List TaskRelation)
    (relation row : TaskRelation) (rels' : List TaskRelation) : Type 0 where
  pub source : Task
  pub target : Task
  pub source_found : get_task relation.source tasks ≡ some source
  pub target_found : get_task relation.target tasks ≡ some target
  pub checked : check_endpoints source target relation ≡ ok tt
  pub dependency : is_dependency row ≡ true → check_dependency tasks rels source target ≡ ok tt
  pub fresh : is_some (first (λ r. same_key r row) rels) ≡ false
  pub row_stored : row ≡ stored next_id source relation
  pub table : rels' ≡ rels ++ row ∷ []

require-eq-ok {ℓ} :
    {A : Type ℓ} (o : Option A) (e : RelationError) {a : A} → require o e ≡ ok a → o ≡ some a
require-eq-ok none e h = cc
require-eq-ok (some b) e h = cc

module _ (next_id : ℕ) (tasks : List Task) (rels : List TaskRelation)
    (relation : TaskRelation) where
  store_relation-Created :
      (source target : Task) (row : TaskRelation) (rels' : List TaskRelation)
      → get_task relation.source tasks ≡ some source
      → get_task relation.target tasks ≡ some target
      → store_relation next_id tasks rels source target relation ≡ ok (row, rels')
      → Created next_id tasks rels relation row rels'
  unfolding store_relation
  store_relation-Created source target row rels' fs ft h =
      let made = stored next_id source relation in
      let (checked, h₁) = >>-eq-ok (check_endpoints source target relation) _ h in
      let (dependency, h₂) =
        >>-eq-ok (if is_dependency made then check_dependency tasks rels source target else ok tt) _
          h₁ in
      let (fresh, h₃) =
        >>-eq-ok (reject_if (is_some (first (λ r. same_key r made) rels)) already_exists) _ h₂ in
      let same : made ≡ row = cc in
      record {
        source = source;
        target = target;
        source_found = fs;
        target_found = ft;
        checked = checked;
        dependency = λ d. sym (if_true _ _ (ap is_dependency same ∙ d)) ∙ dependency;
        fresh =
            subst (λ r. is_some (first (λ x. same_key x r) rels) ≡ false) same
              (reject_if-eq-ok _ _ fresh);
        row_stored = sym same;
        table = cc;
      }

  pub create_task_relation-Created :
      (row : TaskRelation) (rels' : List TaskRelation)
      → create_task_relation next_id tasks rels relation ≡ ok (row, rels')
      → Created next_id tasks rels relation row rels'
  unfolding create_task_relation
  create_task_relation-Created row rels' h =
      let (source, fs, h₁) =
        >>=-eq-ok (require (get_task relation.source tasks) source_missing) _ h in
      let (target, ft, h₂) =
        >>=-eq-ok (require (get_task relation.target tasks) target_missing) _ h₁ in
      store_relation-Created source target row rels' (require-eq-ok _ _ fs) (require-eq-ok _ _ ft)
        h₂
