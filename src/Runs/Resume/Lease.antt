-- ===== src/Runs/Resume/Lease.antt =====
-- The resume lease: who wins a claim, who may start the resumed run, and what a sweep releases.
use headcount.Prelude.{
  ℕ, ◌≤◌, ◌≡◌, ◌≢◌, ◌↔◌, refl, sym, ap, ◌∙◌, subst, inl, inr, String, Bool, true, false, ◌||◌, not,
  Option, none, some, some-injective, List, [], ◌∷◌, first, update, count, Result, ok, err, if_elim,
  Bool-cases, ==_iff, str_eq, eq_iff, arith, All, All-count, update_unique, count_mono,
  count-update, count-ext, count-first, All-first, first-holds, All-map,
}
use headcount.Runs.{Run, RunError, Outcome, has_id, one_of, with_run, write, bad_claim}
use headcount.Runs.Resume.{
  Claim, no_states, lease_runs, allowed_for, claimed, claimable, write_claim, claim_run_for_resume,
  starting, start_claimed, mark_run_resume_started,
}

-- What a successful claim has done.
record IsWon (now : ℕ) (c : Claim) (runs after : List Run) : Type 0 where
  run : Run
  one : count (claimable c) runs ≡ 1
  wrote : after ≡ update (claimable c) (write "resuming" (claimed c run)) runs

ok-true : {b : Bool} {o : Result RunError Bool} → o ≡ ok b → o ≡ ok true → b ≡ true
ok-true is_ok e = cc

write_claim-IsWon :
    (now : ℕ) (c : Claim) (run : Run) (runs : List Run)
    → (write_claim now c run runs).0 ≡ ok true
    → IsWon now c runs (write_claim now c run runs).1
unfolding write_claim
write_claim-IsWon now c run runs =
    if_elim (λ (o : Outcome Bool). o.0 ≡ ok true → IsWon now c runs o.1)
      (not (one_of c.allowed_states run.status) || lease_runs now run.recovery.resume_lease_until)
      {x = (ok false, runs)} (λ _ e. cc)
      (λ _ e. record {
        run = run;
        one = (==_iff (count (claimable c) runs) 1).0 (ok-true refl e);
        wrote = refl;
      })

claim_run_for_resume-IsWon :
    (now : ℕ) (c : Claim) (seen runs : List Run)
    → (claim_run_for_resume now c seen runs).0 ≡ ok true
    → IsWon now c runs (claim_run_for_resume now c seen runs).1
unfolding claim_run_for_resume
claim_run_for_resume-IsWon now c seen runs =
    if_elim (λ (o : Outcome Bool). o.0 ≡ ok true → IsWon now c runs o.1)
      (str_eq c.owner "" || no_states c.allowed_states) {x = (err bad_claim, runs)} (λ _ e. cc)
      (λ _. found (first (has_id c.run_id) seen))
  where
    found :
        (o : Option Run)
        → (with_run o (λ run. write_claim now c run runs) runs).0 ≡ ok true
        → IsWon now c runs (with_run o (λ run. write_claim now c run runs) runs).1
    found none e = cc
    found (some run) e = write_claim-IsWon now c run runs e

-- After a claim that succeeds, every row of its run is resuming.
won-IsResuming :
    {now : ℕ} {c : Claim} {runs after : List Run}
    → count (has_id c.run_id) runs ≤ 1
    → IsWon now c runs after
    → All (λ r. has_id c.run_id r ≡ true → r.status ≡ "resuming") after
won-IsResuming {now} {c} {runs} few w =
    subst (All (λ r. has_id c.run_id r ≡ true → r.status ≡ "resuming")) (sym w.wrote) (
      update_unique (λ r. r.status ≡ "resuming") (claimable c) (has_id c.run_id)
        (write "resuming" (claimed c w.run)) (λ r e. ground arith) runs (λ r. refl) few w.one)

unclaimable :
    (c : Claim) (runs : List Run)
    → one_of c.allowed_states "resuming" ≡ false
    → All (λ r. has_id c.run_id r ≡ true → r.status ≡ "resuming") runs
    → All (λ r. claimable c r ≡ false) runs
unclaimable c [] closed h = tt
unclaimable c (r ∷ runs) closed h = (
  elim (Bool-cases (has_id c.run_id r)) [ inl t ↦ rw (t, h.0 t) closed | inr f ↦ rw f refl ],
  unclaimable c runs closed h.1,
)

-- The engine never asks to claim a run that is being resumed.
allowed_for-closed :
    (cause : String) {states : List String}
    → allowed_for cause ≡ some states
    → one_of states "resuming" ≡ false
unfolding allowed_for
allowed_for-closed cause {states} =
    if_elim (λ o. o ≡ some states → one_of states "resuming" ≡ false)
      (str_eq cause "failed_recovery") (λ _ e. closed e refl)
      (λ _.
        if_elim (λ o. o ≡ some states → one_of states "resuming" ≡ false)
          (str_eq cause "stale_recovery") (λ _ e. closed e refl)
          (λ _.
            if_elim (λ o. o ≡ some states → one_of states "resuming" ≡ false)
              (str_eq cause "binary_update" || str_eq cause "human_input") (λ _ e. closed e refl)
              (λ _ e. cc)))
  where
    closed :
        {l : List String}
        → some l ≡ some states
        → one_of l "resuming" ≡ false
        → one_of states "resuming" ≡ false
    closed e h = subst (λ m. one_of m "resuming" ≡ false) (some-injective _ _ e) h

-- If a claim of a run succeeds, where the table holds at most one row of that id, then any later
-- claim of it, whose allowed states are those that the engine takes for some cause, fails on the
-- table that the first one left, whatever earlier table it has read the row from.
pub claim_exclusive :
    (now later : ℕ) (c c' : Claim) (cause : String) (seen seen' runs : List Run)
    → count (has_id c.run_id) runs ≤ 1
    → c'.run_id ≡ c.run_id
    → allowed_for cause ≡ some c'.allowed_states
    → (claim_run_for_resume now c seen runs).0 ≡ ok true
    → (claim_run_for_resume later c' seen' (claim_run_for_resume now c seen runs).1).0 ≢ ok true
claim_exclusive now later c c' cause seen seen' runs few same cause_states e e' =
    let after = (claim_run_for_resume now c seen runs).1 in
    let marked = won-IsResuming few (claim_run_for_resume-IsWon now c seen runs e) in
    let second_won = claim_run_for_resume-IsWon later c' seen' after e' in
    let zero = All-count (claimable c') after (
      unclaimable c' after (allowed_for-closed cause cause_states) (
        subst (λ id. All (λ r. has_id id r ≡ true → r.status ≡ "resuming") after) (sym same)
          marked)) in
    omega (arith, zero, second_won.one)

abbrev IsHeld : Claim → Run → Type 0
IsHeld c r = (r.status ≡ "resuming") × (r.recovery.resume_lease_owner ≡ c.owner)

won-IsHeld :
    {now : ℕ} {c : Claim} {runs after : List Run}
    → count (has_id c.run_id) runs ≤ 1
    → IsWon now c runs after
    → All (λ r. has_id c.run_id r ≡ true → IsHeld c r) after
won-IsHeld {now} {c} {runs} few w =
    subst (All (λ r. has_id c.run_id r ≡ true → IsHeld c r)) (sym w.wrote) (
      update_unique (IsHeld c) (claimable c) (has_id c.run_id) (write "resuming" (claimed c w.run))
        (λ r e. ground arith) runs (λ r. (refl, refl)) few w.one)

-- The claimed row is the only one of its id, and it is resuming.
won_one :
    {now : ℕ} {c : Claim} {runs after : List Run}
    → count (has_id c.run_id) runs ≤ 1
    → IsWon now c runs after
    → count (has_id c.run_id) after ≡ 1
won_one {now} {c} {runs} few w =
    let mono = count_mono (claimable c) (has_id c.run_id) runs (λ r e. ground arith) in
    let same =
      count-update (claimable c) (has_id c.run_id) (write "resuming" (claimed c w.run)) runs
        (λ r. refl) in
    ap (count (has_id c.run_id)) w.wrote ∙ omega (arith, w.one)

start_claimed_iff :
    (later run_id : ℕ) (owner : String) (run : Run) (rows : List Run)
    → run.status ≡ "resuming"
    → count (starting run_id) rows ≡ 1
    → ((start_claimed later run_id owner run rows).0 ≡ ok tt)
      ↔ (run.recovery.resume_lease_owner ≡ owner)
unfolding start_claimed
start_claimed_iff later run_id owner run rows resuming one =
    rw (resuming, one) (ground (arith, eq_iff run.recovery.resume_lease_owner owner))

starting_one :
    (c : Claim) (rows : List Run)
    → All (λ r. has_id c.run_id r ≡ true → IsHeld c r) rows
    → count (has_id c.run_id) rows ≡ 1
    → count (starting c.run_id) rows ≡ 1
starting_one c rows held one =
    count-ext (starting c.run_id) (has_id c.run_id) rows (
      All-map (λ r. has_id c.run_id r ≡ true → IsHeld c r)
        (λ r. starting c.run_id r ≡ has_id c.run_id r) rows
        (λ r h. ground (arith, eq_iff r.status "resuming")) held)
    ∙ one

-- If a claim of a run succeeds, where the table holds at most one row of that id, then the start of
-- the resumed run on the table that the claim left succeeds exactly for the claim's owner.
start_only_by_owner :
    (now later : ℕ) (c : Claim) (owner : String) (seen runs : List Run)
    → count (has_id c.run_id) runs ≤ 1
    → (claim_run_for_resume now c seen runs).0 ≡ ok true
    → (let after = (claim_run_for_resume now c seen runs).1 in
        (mark_run_resume_started later c.run_id owner after after).0 ≡ ok tt)
      ↔ (owner ≡ c.owner)
unfolding mark_run_resume_started
start_only_by_owner now later c owner seen runs few e =
    let won = claim_run_for_resume-IsWon now c seen runs e in
    let held = won-IsHeld few won in
    let one = won_one few won in
    let (run, found) = count-first (has_id c.run_id) after (omega (arith, one)) in
    let (resuming, owned) =
      All-first (λ r. has_id c.run_id r ≡ true → IsHeld c r) (has_id c.run_id) after held found
        (first-holds (has_id c.run_id) after found) in
    let both =
      start_claimed_iff later c.run_id owner run after resuming (starting_one c after held one) in
    rw found (λ started. sym (both.0 started) ∙ owned, λ is_owner. both.1 (owned ∙ sym is_owner))
  where
    after : List Run
    after = (claim_run_for_resume now c seen runs).1
