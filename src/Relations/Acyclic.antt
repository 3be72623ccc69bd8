-- ===== src/Relations/Acyclic.antt =====
-- A relation that passes the checks of `CreateTaskRelation` keeps the dependencies acyclic.
use headcount.Prelude.{
  ℕ, ◌≡◌, sym, subst, ◌⊎◌, inl, inr, Bool, true, List, [], ◌∷◌, ◌++◌, arith, delete,
}
use headcount.Relations.{TaskRelation, is_dependency}
use headcount.Relations.Reach.{Edge, Reach, here, step, IsAcyclic, Reach-trans}

pub Edge-append :
    (rels : List TaskRelation) (r : TaskRelation) (u v : ℕ)
    → Edge (rels ++ r ∷ []) u v
    → Edge rels u v ⊎ ((r.source ≡ u) × (r.target ≡ v) × (is_dependency r ≡ true))
Edge-append [] r u v h = ground arith
Edge-append (x ∷ rels) r u v h = ground (arith, Edge-append rels r u v)

-- A walk in the larger table is an old walk, or it passes through the new row.
abbrev Splits : List TaskRelation → TaskRelation → ℕ → ℕ → Type 0
Splits rels r u v =
    Reach rels u v ⊎ (Reach rels u r.source × Reach rels r.target v × (is_dependency r ≡ true))

Reach-append :
    (rels : List TaskRelation) (r : TaskRelation) (u : ℕ) {v : ℕ}
    → Reach (rels ++ r ∷ []) u v
    → Splits rels r u v
Reach-append rels r u here = inl here
Reach-append rels r u (step {v} {w} p e) =
    extend (Reach-append rels r u p) (Edge-append rels r v w e)
  where
    extend :
        Splits rels r u v
        → Edge rels v w ⊎ ((r.source ≡ v) × (r.target ≡ w) × (is_dependency r ≡ true))
        → Splits rels r u w
    extend (inl q) (inl old) = inl (step q old)
    extend (inr (a, b, d)) (inl old) = inr (a, step b old, d)
    extend (inl q) (inr (s, t, d)) =
        inr (subst (Reach rels u) (sym s) q, subst (Reach rels r.target) t here, d)
    extend (inr (a, b, d)) (inr (s, t, _)) = inr (a, subst (Reach rels r.target) t here, d)

pub IsAcyclic-append :
    (rels : List TaskRelation) (r : TaskRelation)
    → IsAcyclic rels
    → (is_dependency r ≡ true → ¬ Reach rels r.target r.source)
    → IsAcyclic (rels ++ r ∷ [])
IsAcyclic-append rels r safe fresh u v e p =
    close (Edge-append rels r u v e) (Reach-append rels r v p)
  where
    close :
        Edge rels u v ⊎ ((r.source ≡ u) × (r.target ≡ v) × (is_dependency r ≡ true))
        → Splits rels r v u
        → ⊥
    close (inl old) (inl q) = safe u v old q
    close (inl old) (inr (a, b, d)) = fresh d (Reach-trans (step b old) a)
    close (inr (s, t, d)) (inl q) =
        fresh d (subst (λ w. Reach rels w r.source) (sym t) (subst (Reach rels v) (sym s) q))
    close (inr (s, t, d)) (inr (a, b, _)) = fresh d (subst (λ w. Reach rels w r.source) (sym t) a)

Edge-delete :
    (p : TaskRelation → Bool) (rels : List TaskRelation) (u v : ℕ)
    → Edge (delete p rels) u v
    → Edge rels u v
Edge-delete p [] u v h = h
Edge-delete p (r ∷ rels) u v h = ground (arith, Edge-delete p rels u v)

Reach-delete :
    (p : TaskRelation → Bool) (rels : List TaskRelation) {u v : ℕ}
    → Reach (delete p rels) u v
    → Reach rels u v
Reach-delete p rels here = here
Reach-delete p rels (step {v} {w} q e) = step (Reach-delete p rels q) (Edge-delete p rels v w e)

-- Deleting rows keeps the dependencies acyclic.
pub IsAcyclic-delete :
    (p : TaskRelation → Bool) (rels : List TaskRelation)
    → IsAcyclic rels
    → IsAcyclic (delete p rels)
IsAcyclic-delete p rels safe u v e q = safe u v (Edge-delete p rels u v e) (Reach-delete p rels q)
