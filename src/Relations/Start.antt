-- ===== src/Relations/Start.antt =====
-- The queries that let a task start: `CanStartTask` against the dependency edges, and the absence
-- of deadlock among dependent tasks.
use headcount.Prelude.{
  ℕ, zero, suc, ◌≤◌, ◌<◌, ◌≡◌, ◌≢◌, subst, ◌⊎◌, ◌↔◌, inl, inr, true, false, List, [], ◌∷◌, Memᴰ,
  arith, ==_refl, str_eq, eq_iff, find-head, find-nil, find, List-cases, Bool-cases, if◌then◌else◌,
}
use headcount.Tasks.{Task, status_done}
use headcount.Relations.{
  TaskRelation, contains, targets, blocks, can_start_task, list_blocking_dependencies,
}
use headcount.Relations.Reach.{
  Among, Edge, Reach, here, step, IsAcyclic, Among-contains, Among-targets,
}

blocks_iff :
    (rels : List TaskRelation) (id : ℕ) (t : Task)
    → (blocks rels id t ≡ true) ↔ (Edge rels id t.id × (t.status ≢ status_done))
blocks_iff rels id t = ground (
  arith,
  Among-contains t.id (targets rels id),
  Among-targets rels id t.id,
  eq_iff t.status status_done,
)

module _ (tasks : List Task) (rels : List TaskRelation) where
  -- Either no prerequisite is open, or the query shows one.
  start_cases :
      (id : ℕ)
      → (((can_start_task tasks rels id).0 ≡ true)
          × ((t : Task) → Memᴰ t tasks → Edge rels id t.id → t.status ≡ status_done))
        ⊎ (((can_start_task tasks rels id).0 ≡ false)
            × ((t : Task) × Memᴰ t tasks × Edge rels id t.id × (t.status ≢ status_done)))
  unfolding can_start_task list_blocking_dependencies
  start_cases id = elim (List-cases (find (blocks rels id) tasks)) [
    | inl empty ↦ inl (
      ground arith,
      λ t m e.
          let open' = find-nil (blocks rels id) tasks empty m in
          elim (Bool-cases (str_eq t.status status_done)) [
            | inl same ↦ (eq_iff t.status status_done).0 same
            | inr other ↦ ground (arith, (blocks_iff rels id t).1, eq_iff t.status status_done)
          ],
    )
    | inr (t, rest, e) ↦
        let (m, b) = find-head (blocks rels id) tasks e in
        let (edge, waits) = (blocks_iff rels id t).0 b in inr (ground arith, (t, m, edge, waits))
  ]

  -- A task may start exactly if every stored task that it depends on is done.
  can_start_task_iff :
      (id : ℕ)
      → ((can_start_task tasks rels id).0 ≡ true)
        ↔ ((t : Task) → Memᴰ t tasks → Edge rels id t.id → t.status ≡ status_done)
  can_start_task_iff id = elim (start_cases id) [
    | inl (yes', all) ↦ (λ _. all, λ _. yes')
    | inr (no', (t, m, e, waits)) ↦ (λ h. cc, λ all. absurd (waits (all t m e)))
  ]

  -- The tasks that the walk below has not passed.
  abbrev remaining : List ℕ → List Task → ℕ
  remaining passed [] = 0
  remaining passed (t ∷ ts) =
      let rest = remaining passed ts in if contains passed t.id then rest else suc rest

  remaining-le :
      (passed : List ℕ) (u : ℕ) (ts : List Task) → remaining (u ∷ passed) ts ≤ remaining passed ts
  remaining-le passed u [] = omega arith
  remaining-le passed u (t ∷ ts) = ground (arith, remaining-le passed u ts)

  remaining-lt :
      (passed : List ℕ) (t : Task) (ts : List Task)
      → contains passed t.id ≡ false
      → Memᴰ t ts
      → remaining (t.id ∷ passed) ts < remaining passed ts
  remaining-lt passed t [] new m = elim m [ ]
  remaining-lt passed t (s ∷ ts) new (Memᴰ.head e) =
      rw (← e) (ground (arith, remaining-le passed t.id ts, ==_refl t.id))
  remaining-lt passed t (s ∷ ts) new (Memᴰ.tail m) = ground (arith, remaining-lt passed t ts new m)

  -- Some open task whose prerequisites are done.
  abbrev pub Startable : Type 0
  Startable =
      (t : Task) × Memᴰ t tasks
      × (t.status ≢ status_done)
      × ((can_start_task tasks rels t.id).0 ≡ true)

  -- From an open task to an open prerequisite, and so on: the walk cannot come back.
  walk :
      IsAcyclic rels
      → (fuel : ℕ) (passed : List ℕ) (t : Task)
      → ((v : ℕ) → Among v passed → (w : ℕ) × Edge rels v w × Reach rels w t.id)
      → Memᴰ t tasks
      → t.status ≢ status_done
      → remaining passed tasks < fuel
      → Startable
  walk safe zero passed t behind m waits h = absurd (omega arith)
  walk safe (suc fuel) passed t behind m waits h = elim (start_cases t.id) [
    | inl (yes', _) ↦ (t, m, waits, yes')
    | inr (_, (b, mb, edge, waits_b)) ↦
        walk safe fuel (t.id ∷ passed) b
          (λ v a. elim a [
            | inl same ↦ (b.id, subst (λ u. Edge rels u b.id) same edge, here)
            | inr old ↦ let (w, e, p) = behind v old in (w, e, step p edge)
          ])
          mb waits_b (omega (arith, remaining-lt passed t tasks fresh m))
  ]
    where
      fresh : contains passed t.id ≡ false
      fresh = elim (Bool-cases (contains passed t.id)) [
        | inl seen ↦
            let (w, e, p) = behind t.id ((Among-contains t.id passed).0 seen) in
            absurd (safe t.id w e p)
        | inr new ↦ new
      ]

-- While the dependencies are acyclic, a table with a task that is not done always has a task that
-- is not done and may start: dependencies never block one another for good.
pub no_deadlock :
    (tasks : List Task) (rels : List TaskRelation) (t : Task)
    → IsAcyclic rels
    → Memᴰ t tasks
    → t.status ≢ status_done
    → Startable tasks rels
no_deadlock tasks rels t safe m waits =
    walk tasks rels safe (suc (remaining tasks rels [] tasks)) [] t (λ v a. absurd a) m waits
      (omega arith)
