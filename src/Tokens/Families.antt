-- ===== src/Tokens/Families.antt =====
-- A login's family of refresh tokens: one user and one absolute cap, for good.
use headcount.Prelude.{ℕ, ◌≤◌, ◌≡◌, inl, inr, String, List, All, All-first, ok, arith, ap, ◌∙◌}
use headcount.Tokens.{RefreshToken, Store, Outcome, rotate_refresh_token, has_hash, successor}
use headcount.Tokens.Calls.{
  Call, OpensOther, apply_all, rotate_refresh_token-cases, InFamily, apply_all-All,
  Rotation-Succeeds,
}

-- A token of `family` belongs to `user` and has the absolute expiry `last`.
pub record HasLineage (family : String) (user last : ℕ) (t : RefreshToken) : Type 0 where
  pub owner : t.family_id ≡ family → t.user_id ≡ user
  pub ceiling : t.family_id ≡ family → t.absolute_expires_at ≡ last

HasLineage-InFamily :
    (family : String) (user last : ℕ) → InFamily family (HasLineage family user last)
unfolding successor
HasLineage-InFamily family user last = record {
  stable = record {
    marked = λ t now p. record { owner = p.owner; ceiling = p.ceiling };
    revoked = λ t now p. record { owner = p.owner; ceiling = p.ceiling };
  };
  other = λ t n. record { owner = λ e. absurd (n e); ceiling = λ e. absurd (n e) };
  inherited = λ cur id now hash p live. record { owner = p.owner; ceiling = p.ceiling };
}

-- Take a store in which the tokens of `family` belong to `user` and have the absolute expiry
-- `last`, as a login leaves it. After any calls, none of which logs in to that family again, a
-- rotation that returns a token of the family does so no later than `last`, and the token has the
-- same user and the same absolute expiry. So no chain of rotations outlives its login's cap.
pub lineage_ends_at_cap :
    (family : String) (user last now : ℕ) (old_hash new_hash : String) (calls : List (ℕ × Call))
    (s : Store) (next : RefreshToken)
    → All (HasLineage family user last) s.tokens
    → All (OpensOther family) calls
    → (rotate_refresh_token now old_hash new_hash (apply_all calls s)).0 ≡ ok next
    → next.family_id ≡ family
    → (now ≤ last) × (next.user_id ≡ user) × (next.absolute_expires_at ≡ last)
lineage_ends_at_cap family user last now old_hash new_hash calls s next h o e same =
    elim (rotate_refresh_token-cases now old_hash new_hash s') [
      | inl missing ↦ absurd (cc (ap (λ (r : Outcome RefreshToken). r.0) missing))
      | inr (cur, found, r) ↦
          let won = Rotation-Succeeds r e in
          let p =
            All-first (HasLineage family user last) (has_hash old_hash) s'.tokens kept found in
          let fam = won.family ∙ same in
          let cap' = p.ceiling fam in
          (omega (arith, won.within), won.owner ∙ p.owner fam, won.ceiling ∙ cap')
    ]
  where
    s' : Store
    s' = apply_all calls s

    kept : All (HasLineage family user last) s'.tokens
    kept =
        apply_all-All family (HasLineage family user last) (HasLineage-InFamily family user last)
          calls s o h
