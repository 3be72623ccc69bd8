-- ===== src/Migrations/Plans.antt =====
-- What a plan of db/migrations/reconcile.go undoes and applies.
use headcount.Prelude.{
  suc, ◌==◌, ◌≡◌, ◌≢◌, refl, sym, first, first-holds, ap, ◌∙◌, ◌⊎◌, inl, inr, String, true, false,
  Option, none, some, List, [], ◌∷◌, ◌++◌, ok, All2, All2-reverse, All, eq_iff, str_eq-ne, arith,
  ==_iff, length, drop,
}
use mathlib.Core.List.{reverse}
use headcount.Migrations.{
  Migration, or_else, Manifest, AppliedRevision, check_complete, is_baseline, compare_history,
  diverge, down_entry, rollback_entries, plan_from, plan_reconciliation, at, has_version, entry,
}

-- A revision records a migration: its version and its hash.
abbrev pub Records : AppliedRevision → Migration → Type 0
Records r m = (r.version ≡ m.version) × (r.hash ≡ m.atlas_hash)

-- The revision of a migration that ran to its end.
abbrev pub IsComplete : AppliedRevision → Type 0
IsComplete r = r.applied ≡ r.total

-- The first revision is not a baseline marker: the database was not adopted.
abbrev pub StartsPlain : List AppliedRevision → Type 0
StartsPlain [] = Unit
StartsPlain (r ∷ rs) = is_baseline r ≡ false

-- The two histories part here: one is at its end, or their next versions differ.
abbrev pub Parts : List AppliedRevision → List Migration → Type 0
Parts [] ms = Unit
Parts (r ∷ rs) [] = Unit
Parts (r ∷ rs) (m ∷ ms) = r.version ≢ m.version

abbrev pub last_version : String → List AppliedRevision → String
last_version last [] = last
last_version last (r ∷ rs) = last_version r.version rs

-- The migration that undoes a revision can be undone: the first manifest's migration of its version, or,
-- where that has none, the second one's.
abbrev pub Undoes : List Migration → List Migration → AppliedRevision → Migration → Type 0
Undoes candidate previous r m =
    (down_entry candidate previous r.version ≡ some m) × (m.reversible ≡ true)

check_complete_holds : (rs : List AppliedRevision) → All IsComplete rs → check_complete rs ≡ ok tt
unfolding check_complete
check_complete_holds [] h = refl
check_complete_holds (r ∷ rs) h =
    rw ((==_iff r.applied r.total).1 h.0) (check_complete_holds rs h.1)

compare_history_stops :
    (last : String) (rs : List AppliedRevision) (ms : List Migration)
    → Parts rs ms
    → compare_history last rs ms ≡ ok (record { common_version = last; undone = rs; apply = ms })
unfolding compare_history
compare_history_stops last [] ms h = refl
compare_history_stops last (r ∷ rs) [] h = refl
compare_history_stops last (r ∷ rs) (m ∷ ms) h = rw (str_eq-ne r.version m.version h) refl

compare_history_common :
    (last : String) (base undone : List AppliedRevision) (prior apply : List Migration)
    → All2 Records base prior
    → Parts undone apply
    → compare_history last (base ++ undone) (prior ++ apply)
      ≡ ok (record { common_version = last_version last base; undone = undone; apply = apply })
unfolding compare_history
compare_history_common last [] undone [] apply h parts =
    compare_history_stops last undone apply parts
compare_history_common last [] undone (m ∷ prior) apply h parts = absurd h
compare_history_common last (r ∷ base) undone [] apply h parts = absurd h
compare_history_common last (r ∷ base) undone (m ∷ prior) apply h parts =
    rw ((eq_iff r.version m.version).1 h.0.0, (eq_iff r.hash m.atlas_hash).1 h.0.1)
      (compare_history_common r.version base undone prior apply h.1 parts)

rollback_entries_found :
    (candidate previous : List Migration) (rs : List AppliedRevision) (ms : List Migration)
    → All2 (Undoes candidate previous) rs ms
    → rollback_entries candidate previous rs ≡ ok ms
unfolding rollback_entries
rollback_entries_found candidate previous [] [] h = refl
rollback_entries_found candidate previous [] (m ∷ ms) h = absurd h
rollback_entries_found candidate previous (r ∷ rs) [] h = absurd h
rollback_entries_found candidate previous (r ∷ rs) (m ∷ ms) h =
    rw (h.0.0, h.0.1, rollback_entries_found candidate previous rs ms h.1) refl

-- A history with no baseline marker is compared from its start.
diverge_plain :
    (rs : List AppliedRevision) (ms : List Migration)
    → StartsPlain rs
    → diverge rs ms ≡ compare_history "" rs ms
unfolding diverge
diverge_plain [] ms h = refl
diverge_plain (r ∷ rs) ms h = rw h refl

at_first :
    (skipped : List Migration) (m : Migration) (ms : List Migration) (version : String)
    → All (λ k. k.version ≢ version) skipped
    → m.version ≡ version
    → at (skipped ++ m ∷ ms) version ≡ some (length skipped)
unfolding at
at_first [] m ms version h same = rw ((eq_iff m.version version).1 same) refl
at_first (k ∷ skipped) m ms version h same =
    rw (str_eq-ne k.version version h.0, at_first skipped m ms version h.1 same) refl

drop_first :
    (skipped : List Migration) (m : Migration) (ms : List Migration)
    → drop (suc (length skipped)) (skipped ++ m ∷ ms) ≡ ms
drop_first [] m ms = refl
drop_first (k ∷ skipped) m ms = drop_first skipped m ms

plan_follows :
    (applied : List AppliedRevision) (candidate previous : Manifest) (last : String)
    (undone : List AppliedRevision) (reverted apply : List Migration)
    → check_complete applied ≡ ok tt
    → diverge applied candidate.migrations
      ≡ ok (record { common_version = last; undone = undone; apply = apply })
    → All2 (Undoes candidate.migrations previous.migrations) undone reverted
    → plan_reconciliation applied candidate previous
      ≡ ok (record { common_version = last; rollback = reverse reverted; apply = apply })
unfolding plan_reconciliation plan_from
plan_follows applied candidate previous last undone reverted apply complete parted known =
    let found =
      rollback_entries_found candidate.migrations previous.migrations (reverse undone)
        (reverse reverted) (All2-reverse _ undone reverted known) in
    rw (complete, parted, found) refl

-- Let the history of the database be `base ++ undone` and the candidate's be `prior ++ apply`, where
-- `base` records `prior` by version and hash, the two part after that, every revision ran to its end,
-- and the first one is not a baseline marker. Let each revision of `undone` have a migration of its
-- version in the candidate or, only where the candidate has none, in the previous manifest, and let
-- that migration be reversible. Then the plan succeeds: it names the last common version, undoes
-- exactly the revisions of `undone` by these migrations, the newest first, and applies exactly `apply`.
pub plan_reconciliation_correct :
    (base undone : List AppliedRevision) (prior apply reverted : List Migration)
    (candidate previous : Manifest)
    → candidate.migrations ≡ prior ++ apply
    → All IsComplete (base ++ undone)
    → StartsPlain (base ++ undone)
    → All2 Records base prior
    → Parts undone apply
    → All2 (Undoes candidate.migrations previous.migrations) undone reverted
    → plan_reconciliation (base ++ undone) candidate previous
      ≡ ok (record {
        common_version = last_version "" base;
        rollback = reverse reverted;
        apply = apply;
      })
plan_reconciliation_correct base undone prior apply reverted candidate previous whole complete plain
      common parts known =
    let parted =
      diverge_plain (base ++ undone) candidate.migrations plain
      ∙ ap (compare_history "" (base ++ undone)) whole
      ∙ compare_history_common "" base undone prior apply common parts in
    plan_follows (base ++ undone) candidate previous _ undone reverted apply
      (check_complete_holds (base ++ undone) complete) parted known

-- The same for a database whose first revision is a baseline marker: it stands for the candidate's
-- migrations up to the one of its version, so the plan neither undoes nor applies any of those.
plan_reconciliation_adopted :
    (marker : AppliedRevision) (base undone : List AppliedRevision) (skipped : List Migration)
    (adopted : Migration) (prior apply reverted : List Migration) (candidate previous : Manifest)
    → candidate.migrations ≡ skipped ++ adopted ∷ (prior ++ apply)
    → is_baseline marker ≡ true
    → All (λ m. m.version ≢ marker.version) skipped
    → adopted.version ≡ marker.version
    → All IsComplete (base ++ undone)
    → All2 Records base prior
    → Parts undone apply
    → All2 (Undoes candidate.migrations previous.migrations) undone reverted
    → plan_reconciliation (marker ∷ base ++ undone) candidate previous
      ≡ ok (record {
        common_version = last_version marker.version base;
        rollback = reverse reverted;
        apply = apply;
      })
unfolding diverge check_complete
plan_reconciliation_adopted marker base undone skipped adopted prior apply reverted candidate
      previous whole baseline fresh same complete common parts known =
    let place =
      ap (λ ms. at ms marker.version) whole
      ∙ at_first skipped adopted (prior ++ apply) marker.version fresh same in
    let rest =
      ap (drop (suc (length skipped))) whole ∙ drop_first skipped adopted (prior ++ apply) in
    let counters : (marker.applied == marker.total) ≡ true = ground arith in
    let parted : diverge (marker ∷ base ++ undone) candidate.migrations ≡ _ =
      rw (baseline, place, rest)
        (compare_history_common marker.version base undone prior apply common parts) in
    plan_follows (marker ∷ base ++ undone) candidate previous _ undone reverted apply
      (rw counters (check_complete_holds (base ++ undone) complete)) parted known

or_else_either :
    (o p : Option Migration) (m : Migration) → or_else o p ≡ some m → (o ≡ some m) ⊎ (p ≡ some m)
or_else_either none p m h = inr h
or_else_either (some k) p m h = inl h

found_version :
    (candidate previous : List Migration) (version : String) (m : Migration)
    → down_entry candidate previous version ≡ some m
    → m.version ≡ version
unfolding down_entry entry
found_version candidate previous version m h =
    let either =
      or_else_either (first (has_version version) candidate) (first (has_version version) previous)
        m h in
    (eq_iff m.version version).0 (elim either [
      | inl e ↦ first-holds (has_version version) candidate e
      | inr e ↦ first-holds (has_version version) previous e
    ])

-- The migrations that undo revisions have their versions.
pub undone_versions :
    (candidate previous : List Migration) (rs : List AppliedRevision) (ms : List Migration)
    → All2 (Undoes candidate previous) rs ms
    → All2 (λ r m. r.version ≡ m.version) rs ms
undone_versions candidate previous [] [] h = tt
undone_versions candidate previous [] (m ∷ ms) h = absurd h
undone_versions candidate previous (r ∷ rs) [] h = absurd h
undone_versions candidate previous (r ∷ rs) (m ∷ ms) h = (
  sym (found_version candidate previous r.version m h.0.0),
  undone_versions candidate previous rs ms h.1,
)
