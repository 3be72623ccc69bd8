-- ===== src/Runs/Resume/Sweep.antt =====
-- The sweep over expired leases, and the start of a claimed run.
use headcount.Prelude.{
  ℕ, ◌≡◌, ◌≢◌, ◌⊎◌, refl, inl, inr, true, false, List, [], ◌∷◌, find, update-All, All, All-map,
  find-All, if_elim, str_eq, eq_iff, arith,
}
use headcount.Runs.{Run, has_status}
use headcount.Runs.Resume.{
  lease_over, returned_status, reclaim, reclaimable, give_back, reclaim_all,
  reclaim_expired_resume_leases,
}

module _ (now : ℕ) where
  abbrev IsOver : Run → Type 0
  IsOver r = lease_over now r.recovery.resume_lease_until ≡ true

  -- A run of the list, whose lease is over, has the id of the row.
  abbrev Owed : List Run → Run → Type 0
  Owed [] y = ⊥
  Owed (l ∷ ls) y = (IsOver l × (y.id ≡ l.id)) ⊎ Owed ls y

  abbrev Pending : List Run → Run → Type 0
  Pending ls y = y.status ≡ "resuming" → IsOver y → Owed ls y

  abbrev Returns : Run → Type 0
  Returns r = r.recovery.resume_previous_status ≢ "resuming"

  returned-ne : (l : Run) → Returns l → returned_status l ≢ "resuming"
  returned-ne l h =
      if_elim (λ s. s ≢ "resuming") (str_eq l.recovery.resume_previous_status "")
        (λ _ e. ground (arith, eq_iff "paused" "resuming")) (λ _. h)

  reclaim-Pending :
      (l : Run) (ls runs : List Run)
      → Returns l
      → All (Pending (l ∷ ls)) runs
      → All (Pending ls) (reclaim now l runs)
  unfolding reclaim
  reclaim-Pending l ls runs back h =
      if_elim (All (Pending ls)) (lease_over now l.recovery.resume_lease_until)
        (λ over.
          update-All (Pending (l ∷ ls)) (Pending ls) (reclaimable l) (give_back l) runs
            (λ y _ _ e. absurd (returned-ne l back e))
            (λ y owed miss e o. let debt = owed e o in ground (arith, eq_iff y.status "resuming"))
            h)
        (λ fresh.
          All-map (Pending (l ∷ ls)) (Pending ls) runs
            (λ y owed e o. let debt = owed e o in ground arith) h)

  reclaim_all-Pending :
      (ls runs : List Run)
      → All Returns ls
      → All (Pending ls) runs
      → All (Pending []) (reclaim_all now ls runs)
  reclaim_all-Pending [] runs back h = h
  reclaim_all-Pending (l ∷ ls) runs back h =
      reclaim_all-Pending ls (reclaim now l runs) back.1 (reclaim-Pending l ls runs back.0 h)

  find-Pending : (runs : List Run) → All (Pending (find (has_status "resuming") runs)) runs
  find-Pending [] = tt
  find-Pending (r ∷ runs) =
      let due = find (has_status "resuming") runs in
      let rest = find-Pending runs in
      if_elim (λ l. All (Pending l) (r ∷ runs)) (has_status "resuming" r)
        (λ t. (
          λ e o. inl (o, refl),
          All-map (Pending due) (Pending (r ∷ due)) runs (λ y owed e o. inr (owed e o)) rest,
        ))
        (λ f. (λ e o. absurd (ground (arith, eq_iff r.status "resuming")), rest))

  -- If no run's previous status is "resuming", then after the sweep no row is resuming with a lease
  -- that is over.
  pub reclaim_complete :
      (runs : List Run)
      → All Returns runs
      → All
          (λ r. r.status ≡ "resuming" → lease_over now r.recovery.resume_lease_until ≡ false)
          (reclaim_expired_resume_leases now runs)
  unfolding reclaim_expired_resume_leases
  reclaim_complete runs back =
      let due = find (has_status "resuming") runs in
      let swept =
        reclaim_all-Pending due runs (find-All Returns (has_status "resuming") runs back)
          (find-Pending runs) in
      All-map (Pending []) _ (reclaim_all now due runs) (λ r none_owed e. ground arith) swept

-- A claim that succeeds can be started by its owner, and by nobody else.
