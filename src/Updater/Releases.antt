-- ===== src/Updater/Releases.antt =====
-- The list of successful releases, and the binaries that the updater keeps on disk.
use headcount.Prelude.{
  ℕ, zero, suc, ◌-◌, ◌≤◌, ◌≡◌, ◌≢◌, ◌⊎◌, refl, ap, ◌∙◌, subst, inl, inr, String, Bool, true, false,
  ◌||◌, Option, some, List, [], ◌∷◌, ◌++◌, length, drop, length-append, length-drop, first, delete,
  is_some, if◌then◌else◌, if_elim, ltb, str_eq, eq_refl, eq_iff, Memᴰ, arith,
}
use headcount.Updater.{
  ReleaseRecord, DeploymentState, Entry, holds, has_release, replace_release, retain,
  append_successful_release, in_flight, is_promoted, keep, removable, prune_releases,
  active_candidate, promote, mark_promoted,
}

replace_release-length :
    (r : ReleaseRecord) (rs : List ReleaseRecord) → length (replace_release r rs) ≡ length rs
unfolding replace_release
replace_release-length r [] = refl
replace_release-length r (x ∷ rs) =
    let rest = replace_release-length r rs in
    if_elim (λ (l : List ReleaseRecord). length l ≡ suc (length rs)) (has_release r.id x)
      (λ _. refl) (λ _. ap suc rest)

replace_release-first :
    (r : ReleaseRecord) (rs : List ReleaseRecord)
    → is_some (first (has_release r.id) rs) ≡ true
    → first (has_release r.id) (replace_release r rs) ≡ some r
unfolding replace_release
replace_release-first r [] h = cc
replace_release-first r (x ∷ rs) h =
    if_elim (λ (l : List ReleaseRecord). first (has_release r.id) l ≡ some r) (has_release r.id x)
      (λ _. rw (eq_refl r.id) refl)
      (λ miss. rw miss (
        replace_release-first r rs
          (subst (λ b. is_some (if b then some x else first (has_release r.id) rs) ≡ true) miss h)))

first-after :
    (r : ReleaseRecord) (n : ℕ) (rs : List ReleaseRecord)
    → is_some (first (has_release r.id) rs) ≡ false
    → n ≤ length rs
    → first (has_release r.id) (drop n (rs ++ r ∷ [])) ≡ some r
first-after r zero [] h few = rw (eq_refl r.id) refl
first-after r zero (x ∷ rs) h few =
    let any : 0 ≤ length rs = omega arith in
    if_elim (λ o. is_some o ≡ false → first (has_release r.id) (x ∷ rs ++ r ∷ []) ≡ some r)
      (has_release r.id x) (λ _ e. cc) (λ miss e. rw miss (first-after r 0 rs e any)) h
first-after r (suc n) [] h few = absurd (omega arith)
first-after r (suc n) (x ∷ rs) h few =
    let fewer : n ≤ length rs = omega arith in
    if_elim (λ o. is_some o ≡ false → first (has_release r.id) (drop n (rs ++ r ∷ [])) ≡ some r)
      (has_release r.id x) (λ _ e. cc) (λ _ e. first-after r n rs e fewer) h

retain-short : (rs : List ReleaseRecord) → length rs ≤ 12 → retain rs ≡ rs
retain-short rs h =
    if_elim (λ (l : List ReleaseRecord). l ≡ rs) (ltb 12 (length rs))
      (λ long. absurd (ground arith)) (λ _. refl)

retain-length : (rs : List ReleaseRecord) → length (retain rs) ≤ 12
retain-length rs =
    if_elim (λ (l : List ReleaseRecord). length l ≤ 12) (ltb 12 (length rs))
      (λ long. omega (arith, length-drop (length rs - 12) rs)) (λ short. ground arith)

-- If a record has an id and a path and at most 12 releases are listed, then after it is added at
-- most 12 are listed, and the first one of its id is the new record.
pub append_successful_release-retains :
    (r : ReleaseRecord) (releases : List ReleaseRecord)
    → r.id ≢ ""
    → r.path ≢ ""
    → length releases ≤ 12
    → (length (append_successful_release r releases) ≤ 12)
      × (first (has_release r.id) (append_successful_release r releases) ≡ some r)
unfolding append_successful_release
append_successful_release-retains r releases has has_path few =
    if_elim (λ (l : List ReleaseRecord). (length l ≤ 12) × (first (has_release r.id) l ≡ some r))
      (str_eq r.id "" || str_eq r.path "")
      (λ bad. absurd (ground (arith, eq_iff r.id "", eq_iff r.path "")))
      (λ _.
        if_elim
          (λ (l : List ReleaseRecord). (length l ≤ 12) × (first (has_release r.id) l ≡ some r))
          (is_some (first (has_release r.id) releases))
          (λ old.
            let same =
              retain-short (replace_release r releases)
                (omega (arith, replace_release-length r releases)) in
            (
              retain-length (replace_release r releases),
              ap (first (has_release r.id)) same ∙ replace_release-first r releases old,
            ))
          (λ new. (
            retain-length (releases ++ r ∷ []),
            if_elim (λ (l : List ReleaseRecord). first (has_release r.id) l ≡ some r)
                (ltb 12 (length (releases ++ r ∷ [])))
                (λ _.
                  first-after r (length (releases ++ r ∷ []) - 12) releases new
                    (omega (arith, length-append releases (r ∷ []))))
                (λ _. first-after r 0 releases new (omega arith)),
          )))

module _ (release_id_for_path : String → Option String) (current : String) where
  delete-member :
      {A : Type 0} (p : A → Bool) (xs : List A) (x : A)
      → p x ≡ false
      → Memᴰ x xs
      → Memᴰ x (delete p xs)
  delete-member p [] x miss m = elim m [ ]
  delete-member p (y ∷ xs) x miss (Memᴰ.head e) =
      if_elim (Memᴰ x) (p y) (λ t. absurd (cc (ap p e, miss, t))) (λ _. Memᴰ.head e)
  delete-member p (y ∷ xs) x miss (Memᴰ.tail m) =
      let rest = delete-member p xs x miss m in
      if_elim (Memᴰ x) (p y) (λ _. rest) (λ _. Memᴰ.tail rest)

  keep-owner :
      (state : DeploymentState) (name : String)
      → (in_flight state.phase || is_promoted state.phase) ≡ true
      → (release_id_for_path state.candidate_path ≡ some name)
        ⊎ (release_id_for_path state.previous_path ≡ some name)
      → keep release_id_for_path state name ≡ true
  unfolding keep
  keep-owner state name phase (inl e) = rw (phase, e, eq_refl name) (ground arith)
  keep-owner state name phase (inr e) = rw (e, eq_refl name) (ground arith)

  -- When a deployment under way is promoted, the release folder still has its entry of the promoted
  -- binary, and of the binary before it.
  pub mark_promoted-keeps :
      (now : ℕ) (state : DeploymentState) (entries : List Entry) (e : Entry)
      → active_candidate release_id_for_path current state ≡ true
      → (release_id_for_path state.candidate_path ≡ some e.name)
        ⊎ (release_id_for_path state.previous_path ≡ some e.name)
      → Memᴰ e entries
      → Memᴰ e (mark_promoted release_id_for_path current now (holds state) entries).1
  unfolding mark_promoted
  mark_promoted-keeps now state entries e active owner m =
      let after = promote release_id_for_path current now state in
      let kept = keep-owner after e.name refl owner in
      rw active (
        unfold prune_releases in
        delete-member (removable release_id_for_path after) entries e (ground arith) m)
