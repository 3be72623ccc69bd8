-- ===== src/Relations/Reach.antt =====
-- Walks along the dependency relations, independent of the search that looks for them.
use headcount.Prelude.{ℕ, ◌≡◌, ◌⊎◌, ◌↔◌, inl, inr, true, List, [], ◌∷◌, ◌++◌, arith}
use headcount.Relations.{TaskRelation, is_dependency, targets, contains}

-- Membership by recursion, which the tactics take apart.
abbrev pub Among : ℕ → List ℕ → Type 0
Among v [] = ⊥
Among v (x ∷ xs) = (x ≡ v) ⊎ Among v xs

-- Some row says that `u` depends on `v`.
abbrev pub Edge : List TaskRelation → ℕ → ℕ → Type 0
Edge [] u v = ⊥
Edge (r ∷ rs) u v = ((r.source ≡ u) × (r.target ≡ v) × (is_dependency r ≡ true)) ⊎ Edge rs u v

pub data Reach (rels : List TaskRelation) (u : ℕ) : ℕ → Type 0 where
  here : Reach rels u u
  step : {v w : ℕ} → Reach rels u v → Edge rels v w → Reach rels u w

-- No task depends on itself through other tasks.
abbrev pub IsAcyclic : List TaskRelation → Type 0
IsAcyclic rels = (u v : ℕ) → Edge rels u v → ¬ Reach rels v u

pub Reach-trans :
    {rels : List TaskRelation} {u v w : ℕ} → Reach rels u v → Reach rels v w → Reach rels u w
Reach-trans p here = p
Reach-trans p (step q e) = step (Reach-trans p q) e

pub Among-contains : (v : ℕ) (l : List ℕ) → (contains l v ≡ true) ↔ Among v l
Among-contains v [] = ground arith
Among-contains v (x ∷ l) = ground (arith, Among-contains v l)

pub Among-append : (v : ℕ) (xs ys : List ℕ) → Among v (xs ++ ys) ↔ (Among v xs ⊎ Among v ys)
Among-append v [] ys = (inr, λ s. elim s [ inl f ↦ absurd f | inr m ↦ m ])
Among-append v (x ∷ xs) ys = ground (arith, Among-append v xs ys)

-- The query returns exactly the direct prerequisites.
pub Among-targets : (rels : List TaskRelation) (u v : ℕ) → Among v (targets rels u) ↔ Edge rels u v
Among-targets [] u v = (λ f. f, λ f. f)
Among-targets (r ∷ rs) u v = ground (arith, Among-targets rs u v)
