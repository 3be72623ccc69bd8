-- ===== src/Tokens/Calls.antt =====
-- Runs of calls on the refresh-token table, and what every call keeps.
use headcount.Prelude.{
  ℕ, ◌≡◌, ◌≢◌, String, Option, some, List, [], ◌∷◌, first, All, true, false, All-append, All-update,
  All-delete, All-first, ok, err, if_elim, ◌==◌, ltb, ◌||◌, ◌-◌, is_some, none, leb, ◌⊎◌, inl, inr,
  ◌<◌, ◌≤◌, arith, refl,
}
use headcount.Tokens.{
  RefreshToken, Store, Outcome, refresh_reuse, record_not_found, has_hash, live_in_family,
  revoke_at, revoke_refresh_family, create_refresh_token, successor, burn, mint, mark_used,
  rotate_live, rotate_found, rotate_refresh_token, revoke_refresh_tokens_for_user,
  delete_expired_refresh_tokens, delete_sessions_for_user, refresh_reuse_grace_period,
}

pub data Call : Type 0 where
  login : (user : ℕ) (family hash : String) (absolute_expiry : ℕ) → Call
  rotate : (old_hash new_hash : String) → Call
  logout : (family : String) → Call
  revoke_user : (user : ℕ) → Call
  collect : Call

-- One call at the time `now`.
unfoldable pub apply : ℕ → Call → Store → Store
apply now (login user family hash cap) s = (create_refresh_token now user family hash cap s).1
apply now (rotate old_hash new_hash) s = (rotate_refresh_token now old_hash new_hash s).1
apply now (logout family) s = revoke_refresh_family now family s
apply now (revoke_user user) s = revoke_refresh_tokens_for_user user s
apply now collect s = delete_expired_refresh_tokens now s

unfoldable pub apply_all : List (ℕ × Call) → Store → Store
unfolding apply
apply_all [] s = s
apply_all ((now, c) ∷ rest) s = apply_all rest (apply now c s)

-- A login to `family` is none of the calls.
abbrev pub OpensOther : String → ℕ × Call → Type 0
OpensOther family (now, login user f hash cap) = f ≢ family
OpensOther family (now, _) = Unit

-- The outcomes of `RotateRefreshToken` for the row `cur`, with what led to each.
pub data Rotation (now : ℕ) (cur : RefreshToken) (hash : String) (s : Store)
    : Outcome RefreshToken → Type 0 where
  burned :
      (is_some cur.revoked_at ≡ true)
        ⊎ ((used : ℕ) × (cur.used_at ≡ some used) × (refresh_reuse_grace_period < now - used))
      → Rotation now cur hash s (err refresh_reuse, burn now cur s)
  refused : Rotation now cur hash s (err record_not_found, s)
  graced :
      is_some cur.revoked_at ≡ false
      → now ≤ cur.absolute_expires_at
      → (used : ℕ) × (cur.used_at ≡ some used) × (now - used ≤ refresh_reuse_grace_period)
      → Rotation now cur hash s (mint now cur hash s)
  rotated :
      is_some cur.revoked_at ≡ false
      → now ≤ cur.absolute_expires_at
      → now ≤ cur.expires_at
      → cur.used_at ≡ none
      → Rotation now cur hash s (mint now cur hash (mark_used now cur s))

module _ (now : ℕ) (cur : RefreshToken) (hash : String) (s : Store) where
  rotate_live-Rotation :
      (u : Option ℕ)
      → cur.used_at ≡ u
      → is_some cur.revoked_at ≡ false
      → Rotation now cur hash s (rotate_live now cur hash s u)
  unfolding rotate_live
  rotate_live-Rotation none e live =
      if_elim (Rotation now cur hash s) (ltb cur.expires_at now || ltb cur.absolute_expires_at now)
        (λ _. refused) (λ valid. rotated live (ground arith) (ground arith) e)
  rotate_live-Rotation (some used) e live =
      if_elim (Rotation now cur hash s) (ltb refresh_reuse_grace_period (now - used))
        (λ late. burned (inr (used, e, ground arith)))
        λ soon.
          if_elim (Rotation now cur hash s) (ltb cur.absolute_expires_at now) (λ _. refused)
            (λ valid. graced live (ground arith) (used, e, ground arith))

  pub rotate_found-Rotation : Rotation now cur hash s (rotate_found now cur hash s)
  unfolding rotate_found
  rotate_found-Rotation =
      if_elim (Rotation now cur hash s) (is_some cur.revoked_at) (λ r. burned (inl r))
        (rotate_live-Rotation cur.used_at refl)

-- What a successful rotation says of the presented row and of the returned one.
pub record Succeeds (now : ℕ) (cur next : RefreshToken) : Type 0 where
  pub live : is_some cur.revoked_at ≡ false
  pub within : now ≤ cur.absolute_expires_at
  pub family : cur.family_id ≡ next.family_id
  pub owner : next.user_id ≡ cur.user_id
  pub ceiling : next.absolute_expires_at ≡ cur.absolute_expires_at

pub Rotation-Succeeds :
    {now : ℕ} {cur : RefreshToken} {hash : String} {s : Store} {r : Outcome RefreshToken}
    → Rotation now cur hash s r
    → {next : RefreshToken} → r.0 ≡ ok next
    → Succeeds now cur next
unfolding mint successor
Rotation-Succeeds (burned why) e = cc
Rotation-Succeeds refused e = cc
Rotation-Succeeds (graced live within used) e = record {
  live = live;
  within = within;
  family = cc;
  owner = cc;
  ceiling = cc;
}
Rotation-Succeeds (rotated live within fresh unused) e = record {
  live = live;
  within = within;
  family = cc;
  owner = cc;
  ceiling = cc;
}

-- A property of the rows that marking, revoking and succeeding keep.
pub record Stable (P : RefreshToken → Type 0) : Type 0 where
  pub marked : (t : RefreshToken) (now : ℕ) → P t → P (record t { used_at = some now })
  pub revoked : (t : RefreshToken) (now : ℕ) → P t → P (revoke_at now t)

module _ (P : RefreshToken → Type 0) (stable : Stable P) where
  revoke_refresh_family-All :
      (now : ℕ) (family : String) (s : Store)
      → All P s.tokens
      → All P (revoke_refresh_family now family s).tokens
  unfolding revoke_refresh_family
  revoke_refresh_family-All now family s h =
      All-update P (live_in_family family) (revoke_at now) s.tokens
        (λ t p _. stable.revoked t now p) h

  burn-All :
      (now : ℕ) (cur : RefreshToken) (s : Store) → All P s.tokens → All P (burn now cur s).tokens
  unfolding burn
  burn-All now cur s h =
      revoke_refresh_family-All now cur.family_id (delete_sessions_for_user cur.user_id s)
        (unfold delete_sessions_for_user in h)

  mark_used-All :
      (now : ℕ) (cur : RefreshToken) (s : Store)
      → All P s.tokens
      → All P (mark_used now cur s).tokens
  unfolding mark_used
  mark_used-All now cur s h =
      All-update P (λ t. t.id == cur.id) (λ t. record t { used_at = some now }) s.tokens
        (λ t p _. stable.marked t now p) h

  mint-All :
      (now : ℕ) (cur : RefreshToken) (hash : String) (s : Store)
      → P (successor s.next_id now cur hash)
      → All P s.tokens
      → All P (mint now cur hash s).1.tokens
  unfolding mint
  mint-All now cur hash s p h = All-append P s.tokens (_ ∷ []) h (p, tt)

  -- A rotation keeps the property if the successor, where one is minted, has it.
  pub Rotation-All :
      {now : ℕ} {cur : RefreshToken} {hash : String} {s : Store} {r : Outcome RefreshToken}
      → Rotation now cur hash s r
      → (is_some cur.revoked_at ≡ false → (id : ℕ) → P (successor id now cur hash))
      → All P s.tokens
      → All P r.1.tokens
  Rotation-All (burned why) next h = burn-All _ _ _ h
  Rotation-All refused next h = h
  Rotation-All {now} {cur} {hash} {s} (graced live cap used) next h =
      mint-All now cur hash s (next live s.next_id) h
  Rotation-All {now} {cur} {hash} {s} (rotated live cap fresh unused) next h =
      mint-All now cur hash (mark_used now cur s) (next live _) (mark_used-All now cur s h)

pub rotate_refresh_token-found :
    (now : ℕ) (old_hash new_hash : String) (s : Store) {cur : RefreshToken}
    → first (has_hash old_hash) s.tokens ≡ some cur
    → rotate_refresh_token now old_hash new_hash s ≡ rotate_found now cur new_hash s
unfolding rotate_refresh_token
rotate_refresh_token-found now old_hash new_hash s e = rw (e, rotate_refresh_token)

pub rotate_refresh_token-cases :
    (now : ℕ) (old_hash new_hash : String) (s : Store)
    → (rotate_refresh_token now old_hash new_hash s ≡ (err record_not_found, s))
      ⊎ ((cur : RefreshToken) × (first (has_hash old_hash) s.tokens ≡ some cur)
          × Rotation now cur new_hash s (rotate_refresh_token now old_hash new_hash s))
unfolding rotate_refresh_token
rotate_refresh_token-cases now old_hash new_hash s = by (first (has_hash old_hash) s.tokens) refl
  where
    by :
        (o : Option RefreshToken)
        → first (has_hash old_hash) s.tokens ≡ o
        → (rotate_refresh_token now old_hash new_hash s ≡ (err record_not_found, s))
          ⊎ ((cur : RefreshToken) × (first (has_hash old_hash) s.tokens ≡ some cur)
              × Rotation now cur new_hash s (rotate_refresh_token now old_hash new_hash s))
    by none e = inl (rw (e, rotate_refresh_token))
    by (some cur) e =
        inr (cur, e, rw (e, rotate_refresh_token) (rotate_found-Rotation now cur new_hash s))

-- A property of rows that says what holds in one family.
pub record InFamily (family : String) (P : RefreshToken → Type 0) : Type 0 where
  pub stable : Stable P
  pub other : (t : RefreshToken) → t.family_id ≢ family → P t
  pub inherited :
      (cur : RefreshToken) (id now : ℕ) (hash : String)
      → P cur
      → is_some cur.revoked_at ≡ false
      → P (successor id now cur hash)

module _ (family : String) (P : RefreshToken → Type 0) (f : InFamily family P) where
  rotate-All :
      (now : ℕ) (old_hash new_hash : String) (s : Store)
      → All P s.tokens
      → All P (rotate_refresh_token now old_hash new_hash s).1.tokens
  rotate-All now old_hash new_hash s h = elim (rotate_refresh_token-cases now old_hash new_hash s) [
    | inl e ↦ rw e h
    | inr (cur, found, r) ↦
        Rotation-All P f.stable r
          (λ live id.
            f.inherited cur id now new_hash (All-first P (has_hash old_hash) s.tokens h found) live)
          h
  ]

  apply-All :
      (now : ℕ) (c : Call) (s : Store)
      → OpensOther family (now, c)
      → All P s.tokens
      → All P (apply now c s).tokens
  unfolding apply create_refresh_token revoke_refresh_tokens_for_user delete_expired_refresh_tokens
  apply-All now (login user fam hash cap) s o h = All-append P s.tokens (_ ∷ []) h (f.other _ o, tt)
  apply-All now (rotate old_hash new_hash) s o h = rotate-All now old_hash new_hash s h
  apply-All now (logout fam) s o h = revoke_refresh_family-All P f.stable now fam s h
  apply-All now (revoke_user user) s o h = All-delete P (λ t. t.user_id == user) s.tokens h
  apply-All now collect s o h =
      All-delete P (λ t. leb t.absolute_expires_at now || is_some t.revoked_at) s.tokens h

  pub apply_all-All :
      (calls : List (ℕ × Call)) (s : Store)
      → All (OpensOther family) calls
      → All P s.tokens
      → All P (apply_all calls s).tokens
  unfolding apply_all
  apply_all-All [] s o h = h
  apply_all-All ((now, c) ∷ calls) s o h =
      apply_all-All calls (apply now c s) o.1 (apply-All now c s o.0 h)
