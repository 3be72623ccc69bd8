-- ===== src/Relations/Search.antt =====
-- The breadth-first search of `dependencyPathExists`: it ends, and it decides reachability.
use headcount.Prelude.{
  ℕ, zero, suc, ◌+◌, ◌≤◌, ◌≡◌, ◌≢◌, refl, ◌⊎◌, inl, inr, Bool, true, false, Option, some, List, [],
  ◌∷◌, ◌++◌, length, length-append, arith, ◌==◌, ==_iff, ◌||◌, not, if◌then◌else◌, if_elim, subst,
  sym,
}
use headcount.Relations.{
  TaskRelation, is_dependency, targets, contains, path_loop, dependency_path_exists,
}
use headcount.Relations.Reach.{
  Among, Edge, Reach, here, step, Among-contains, Among-append, Among-targets,
}

-- The rows whose source has not been expanded yet.
abbrev waiting : List TaskRelation → List ℕ → ℕ
waiting [] visited = 0
waiting (r ∷ rs) visited =
    let rest = waiting rs visited in
    if contains visited r.source || not (is_dependency r) then rest else suc rest

-- Expanding a new task moves its rows from `waiting` to the queue.
waiting-visit :
    (rels : List TaskRelation) (visited : List ℕ) (u : ℕ)
    → contains visited u ≡ false
    → waiting rels (u ∷ visited) + length (targets rels u) ≡ waiting rels visited
waiting-visit [] visited u h = omega arith
waiting-visit (r ∷ rs) visited u h = ground (arith, waiting-visit rs visited u h, ==_iff r.source u)

waiting-le-length : (rels : List TaskRelation) → waiting rels [] ≤ length rels
waiting-le-length [] = omega arith
waiting-le-length (r ∷ rs) = ground (arith, waiting-le-length rs)

path_loop_ends :
    (rels : List TaskRelation) (goal fuel : ℕ) (visited frontier : List ℕ)
    → waiting rels visited + length frontier ≤ fuel
    → (b : Bool) × (path_loop rels goal fuel visited frontier ≡ some b)
unfolding path_loop
path_loop_ends rels goal fuel visited [] h = (false, ground arith)
path_loop_ends rels goal zero visited (c ∷ frontier) h = absurd (omega arith)
path_loop_ends rels goal (suc fuel) visited (c ∷ frontier) h =
    if_elim Answers (c == goal) (λ _. (true, refl))
      λ _.
        if_elim Answers (contains visited c)
          (λ _. path_loop_ends rels goal fuel visited frontier (omega arith))
          λ new. path_loop_ends rels goal fuel (c ∷ visited) (frontier ++ targets rels c) (
            omega
              (arith, waiting-visit rels visited c new, length-append frontier (targets rels c)))
  where
    Answers : Option Bool → Type 0
    Answers o = (b : Bool) × (o ≡ some b)

-- The search of `CreateTaskRelation` never runs out of rounds: it answers for all tasks.
pub dependency_path_exists_total :
    (rels : List TaskRelation) (from goal : ℕ)
    → (b : Bool) × (dependency_path_exists rels from goal ≡ some b)
unfolding dependency_path_exists
dependency_path_exists_total rels from goal =
    path_loop_ends rels goal (length rels + 1) [] (from ∷ [])
      (omega (arith, waiting-le-length rels))

-- What holds of the queue and the visited set in every round.
record Inv (rels : List TaskRelation) (from goal : ℕ) (visited frontier : List ℕ) : Type 0 where
  reached : (v : ℕ) → Among v frontier → Reach rels from v
  start : Among from visited ⊎ Among from frontier
  closed : (u v : ℕ) → Among u visited → Edge rels u v → Among v visited ⊎ Among v frontier
  missed : ¬ Among goal visited

module _ (rels : List TaskRelation) (from goal : ℕ) where
  Inv-skip :
      (visited frontier : List ℕ) (c : ℕ)
      → Inv rels from goal visited (c ∷ frontier)
      → contains visited c ≡ true
      → Inv rels from goal visited frontier
  Inv-skip visited frontier c h old = record {
    reached = λ v m. h.reached v (inr m);
    start = ground (arith, h.start, Among-contains from visited);
    closed = λ u v m e. ground (arith, h.closed u v m e, Among-contains v visited);
    missed = h.missed;
  }

  Inv-expand :
      (visited frontier : List ℕ) (c : ℕ)
      → Inv rels from goal visited (c ∷ frontier)
      → c ≢ goal
      → Inv rels from goal (c ∷ visited) (frontier ++ targets rels c)
  Inv-expand visited frontier c h other = record {
    reached = λ v m. elim ((Among-append v frontier (targets rels c)).0 m) [
      | inl old ↦ h.reached v (inr old)
      | inr new ↦ step (h.reached c (inl refl)) ((Among-targets rels c v).0 new)
    ];
    start = ground (arith, h.start, Among-append from frontier (targets rels c));
    closed = λ u v m e. elim m [
      | inl same ↦ inr (
          (Among-append v frontier (targets rels c)).1
            (inr ((Among-targets rels c v).1 (subst (λ w. Edge rels w v) (sym same) e))))
      | inr old ↦ ground (arith, h.closed u v old e, Among-append v frontier (targets rels c))
    ];
    missed = λ m. ground (arith, h.missed);
  }

  -- Once the queue is empty, the visited set is closed and does not hold the goal.
  Inv-empty : (visited : List ℕ) → Inv rels from goal visited [] → ¬ Reach rels from goal
  Inv-empty visited h p = h.missed (all goal p)
    where
      all : (v : ℕ) → Reach rels from v → Among v visited
      all v here = elim h.start [ inl m ↦ m | inr f ↦ absurd f ]
      all w (step {v} q e) = elim (h.closed v w (all v q) e) [ inl m ↦ m | inr f ↦ absurd f ]

-- `true` is returned exactly if the goal is reachable.
abbrev Decides : List TaskRelation → ℕ → ℕ → Option Bool → Type 0
Decides rels from goal o =
    (o ≡ some true → Reach rels from goal) × (o ≡ some false → ¬ Reach rels from goal)

path_loop-Decides :
    (rels : List TaskRelation) (from goal fuel : ℕ) (visited frontier : List ℕ)
    → Inv rels from goal visited frontier
    → Decides rels from goal (path_loop rels goal fuel visited frontier)
unfolding path_loop
path_loop-Decides rels from goal fuel visited [] h =
    (λ e. cc, λ _. Inv-empty rels from goal visited h)
path_loop-Decides rels from goal zero visited (c ∷ frontier) h = (λ e. cc, λ e. cc)
path_loop-Decides rels from goal (suc fuel) visited (c ∷ frontier) h =
    if_elim (Decides rels from goal) (c == goal)
      (λ hit.
        (λ _. subst (Reach rels from) ((==_iff c goal).0 hit) (h.reached c (inl refl)), λ e. cc))
      λ miss.
        if_elim (Decides rels from goal) (contains visited c)
          (λ old.
            path_loop-Decides rels from goal fuel visited frontier
              (Inv-skip rels from goal visited frontier c h old))
          λ _.
            path_loop-Decides rels from goal fuel (c ∷ visited) (frontier ++ targets rels c)
              (Inv-expand rels from goal visited frontier c h (ground arith))

-- The search answers `true` exactly if some walk along dependencies leads from the first task to
-- the second, and it always answers.
pub dependency_path_exists_correct :
    (rels : List TaskRelation) (from goal : ℕ)
    → (dependency_path_exists rels from goal ≡ some true × Reach rels from goal)
      ⊎ (dependency_path_exists rels from goal ≡ some false × ¬ Reach rels from goal)
dependency_path_exists_correct rels from goal =
    let (b, e) = dependency_path_exists_total rels from goal in split b e
  where
    initial : Inv rels from goal [] (from ∷ [])
    initial = record {
      reached = λ v m. elim m [ inl e ↦ subst (Reach rels from) e here | inr f ↦ absurd f ];
      start = inr (inl refl);
      closed = λ u v m e. absurd m;
      missed = λ m. m;
    }

    decided : Decides rels from goal (dependency_path_exists rels from goal)
    decided =
        unfold dependency_path_exists in
        path_loop-Decides rels from goal (length rels + 1) [] (from ∷ []) initial

    split :
        (b : Bool)
        → dependency_path_exists rels from goal ≡ some b
        → (dependency_path_exists rels from goal ≡ some true × Reach rels from goal)
          ⊎ (dependency_path_exists rels from goal ≡ some false × ¬ Reach rels from goal)
    split true e = inl (e, decided.0 e)
    split false e = inr (e, decided.1 e)
