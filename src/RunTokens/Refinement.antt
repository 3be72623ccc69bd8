-- ===== src/RunTokens/Refinement.antt =====
-- The registry implements its contract: a token validates exactly while it is the latest one of
-- its run and the run has not been revoked since.
use headcount.Prelude.{
  ℕ, ◌≡◌, ◌≢◌, ◌↔◌, ◌⊎◌, refl, inl, inr, String, Option, none, some, List, [], ◌∷◌, arith,
  if◌then◌else◌, ◌==◌, ==_iff, eq_iff, Option-cases, ap, sym, ◌∙◌,
}
use headcount.RunTokens.{Registry, new_registry, issue, validate, revoke}

pub data Op : Type 0 where
  issued : (run_id : ℕ) (token : String) → Op
  revoked : (run_id : ℕ) → Op

-- The contract, over a history with the latest operation first.
abbrev pub current : List Op → ℕ → Option String
current [] r = none
current (issued run_id token ∷ earlier) r =
    let before = current earlier r in if run_id == r then some token else before
current (revoked run_id ∷ earlier) r =
    let before = current earlier r in if run_id == r then none else before

-- A token was issued in the history.
abbrev pub Issued : String → List Op → Type 0
Issued t [] = ⊥
Issued t (issued run_id token ∷ earlier) = (token ≡ t) ⊎ Issued t earlier
Issued t (revoked run_id ∷ earlier) = Issued t earlier

-- Random tokens: none is empty, and none is drawn twice.
abbrev pub AreFresh : List Op → Type 0
AreFresh [] = Unit
AreFresh (issued run_id token ∷ earlier) =
    (token ≢ "") × (¬ Issued token earlier) × AreFresh earlier
AreFresh (revoked run_id ∷ earlier) = AreFresh earlier

current-Issued : (ops : List Op) (r : ℕ) {t : String} → current ops r ≡ some t → Issued t ops
current-Issued [] r h = cc
current-Issued (issued run_id token ∷ ops) r {t} h = ground (arith, current-Issued ops r {t = t})
current-Issued (revoked run_id ∷ ops) r {t} h = ground (arith, current-Issued ops r {t = t})

current-nonempty : (ops : List Op) (r : ℕ) → AreFresh ops → current ops r ≢ some ""
current-nonempty [] r f h = cc
current-nonempty (issued run_id token ∷ ops) r f h =
    let rest = current-nonempty ops r f.2 in ground (arith, rest)
current-nonempty (revoked run_id ∷ ops) r f h =
    let rest = current-nonempty ops r f in ground (arith, rest)

-- `by_hash` is the inverse of `by_run`.
abbrev IsPaired : Registry → Type 0
IsPaired reg = (r : ℕ) (h : String) → (reg.by_hash h ≡ some r) ↔ (reg.by_run r ≡ some h)

abbrev hashed : (String → String) → Option String → Option String
hashed hash none = none
hashed hash (some t) = some (hash t)

module _ (hash : String → String) where
  pub issue-IsPaired :
      (reg : Registry) (run_id : ℕ) (token : String)
      → ((r : ℕ) → reg.by_run r ≢ some (hash token))
      → IsPaired reg
      → IsPaired (issue hash run_id token reg)
  unfolding issue
  issue-IsPaired reg run_id token unused paired r h = elim (Option-cases (reg.by_run run_id)) [
    | inl nothing ↦
        rw nothing (ground (arith, paired r h, paired run_id h, unused r, eq_iff (hash token) h))
    | inr (old, e) ↦ rw e (
        ground (
          arith,
          paired r h,
          paired run_id h,
          paired r old,
          paired run_id old,
          unused r,
          eq_iff (hash token) h,
          eq_iff old h,
        ))
  ]

  pub revoke-IsPaired : (reg : Registry) (run_id : ℕ) → IsPaired reg → IsPaired (revoke run_id reg)
  unfolding revoke
  revoke-IsPaired reg run_id paired r h = elim (Option-cases (reg.by_run run_id)) [
    | inl nothing ↦ rw nothing (paired r h)
    | inr (old, e) ↦
        rw e (
          ground
            (arith, paired r h, paired run_id h, paired r old, paired run_id old, eq_iff old h))
  ]

  unfoldable pub apply_ops : List Op → Registry
  apply_ops [] = new_registry
  apply_ops (issued run_id token ∷ earlier) = issue hash run_id token (apply_ops earlier)
  apply_ops (revoked run_id ∷ earlier) = revoke run_id (apply_ops earlier)

  issue-by_run :
      (reg : Registry) (run_id : ℕ) (token : String) (r : ℕ)
      → (issue hash run_id token reg).by_run r
        ≡ (if run_id == r then some (hash token) else reg.by_run r)
  unfolding issue
  issue-by_run reg run_id token r = elim (Option-cases (reg.by_run run_id)) [
    | inl nothing ↦ rw nothing refl
    | inr (old, e) ↦ rw e refl
  ]

  revoke-by_run :
      (reg : Registry) (run_id r : ℕ)
      → (revoke run_id reg).by_run r ≡ (if run_id == r then none else reg.by_run r)
  unfolding revoke
  revoke-by_run reg run_id r = elim (Option-cases (reg.by_run run_id)) [
    | inl nothing ↦ rw nothing (ground (arith, ==_iff run_id r))
    | inr (old, e) ↦ rw e refl
  ]

  by_run-current : (ops : List Op) (r : ℕ) → (apply_ops ops).by_run r ≡ hashed hash (current ops r)
  unfolding apply_ops
  by_run-current [] r = refl
  by_run-current (issued run_id token ∷ ops) r =
      let rest = by_run-current ops r in
      issue-by_run (apply_ops ops) run_id token r ∙ ground (arith, rest)
  by_run-current (revoked run_id ∷ ops) r =
      let rest = by_run-current ops r in
      revoke-by_run (apply_ops ops) run_id r ∙ ground (arith, rest)

  module _ (no_collision : (a b : String) → hash a ≡ hash b → a ≡ b) where
    -- A token that no history entry drew is nobody's.
    unused :
        (ops : List Op) (token : String)
        → ¬ Issued token ops
        → (r : ℕ) → (apply_ops ops).by_run r ≢ some (hash token)
    unused ops token new r e = elim (Option-cases (current ops r)) [
      | inl nothing ↦ absurd (cc (by_run-current ops r, nothing, e))
      | inr (t, is_t) ↦
          let same : hash t ≡ hash token = cc (by_run-current ops r, is_t, e) in
          new (current-Issued ops r (is_t ∙ ap some (no_collision t token same)))
    ]

    apply_ops-IsPaired : (ops : List Op) → AreFresh ops → IsPaired (apply_ops ops)
    unfolding apply_ops
    apply_ops-IsPaired [] f = λ r h. ground arith
    apply_ops-IsPaired (issued run_id token ∷ ops) f =
        let (full, new, rest) = f in
        issue-IsPaired (apply_ops ops) run_id token (unused ops token new)
          (apply_ops-IsPaired ops rest)
    apply_ops-IsPaired (revoked run_id ∷ ops) f =
        revoke-IsPaired (apply_ops ops) run_id (apply_ops-IsPaired ops f)

    hashed-some : (o : Option String) (t : String) → (hashed hash o ≡ some (hash t)) ↔ (o ≡ some t)
    hashed-some none t = ground arith
    hashed-some (some u) t = (λ e. ap some (no_collision u t (cc e)), λ e. ap (hashed hash) e)

    -- If the hash has no collisions, and the history of the registry issues no token twice and no
    -- empty token, then a token validates to a run exactly if it is the latest token issued to that
    -- run and the run was not revoked after that.
    pub validate-refines :
        (ops : List Op) (r : ℕ) (t : String)
        → AreFresh ops
        → (validate hash t (apply_ops ops) ≡ some r) ↔ (current ops r ≡ some t)
    unfolding validate
    validate-refines ops r t f =
        let paired = apply_ops-IsPaired ops f r (hash t) in
        let back = hashed-some (current ops r) t in
        let full = current-nonempty ops r f in
        let held : ((apply_ops ops).by_hash (hash t) ≡ some r) ↔ (current ops r ≡ some t) = (
          λ e. back.0 (sym (by_run-current ops r) ∙ paired.0 e),
          λ e. paired.1 (by_run-current ops r ∙ back.1 e),
        ) in
        ground (arith, eq_iff t "")
