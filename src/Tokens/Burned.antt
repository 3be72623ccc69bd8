-- ===== src/Tokens/Burned.antt =====
-- Reuse of a refresh token: it burns the family, and a burned family stays burned.
use headcount.Prelude.{
  ℕ, ◌+◌, ◌<◌, ◌≡◌, ◌≢◌, refl, inl, inr, String, true, none, some, List, [], ◌∷◌, All, All-first,
  first, first-append, first-update, update, delete, ok, err, arith, ap, ◌∙◌, if_elim, is_some,
  eq_iff, ◌==◌, ==_refl, if◌then◌else◌,
}
use headcount.Tokens.{
  RefreshToken, Session, Store, Outcome, has_hash, live_in_family, revoke_at, revoke_refresh_family,
  delete_sessions_for_user, successor, burn, mint, mark_used, rotate_live, rotate_found,
  rotate_refresh_token, refresh_reuse, refresh_reuse_grace_period,
}
use headcount.Tokens.Calls.{
  Call, OpensOther, apply_all, Rotation, burned, refused, graced, rotated,
  rotate_refresh_token-cases, InFamily, apply_all-All, Rotation-Succeeds,
  rotate_refresh_token-found, rotate_found-Rotation,
}

abbrev pub IsRevoked : String → RefreshToken → Type 0
IsRevoked family t = t.family_id ≡ family → is_some t.revoked_at ≡ true

IsRevoked-InFamily : (family : String) → InFamily family (IsRevoked family)
unfolding successor
IsRevoked-InFamily family = record {
  stable = record { marked = λ t now p. p; revoked = λ t now p e. refl };
  other = λ t n e. absurd (n e);
  inherited = λ cur id now hash p live e. cc (p e, live);
}

-- `RevokeRefreshFamily` leaves no live token in the family.
pub revoke_refresh_family-IsRevoked :
    (now : ℕ) (family : String) (s : Store)
    → All (IsRevoked family) (revoke_refresh_family now family s).tokens
unfolding revoke_refresh_family
revoke_refresh_family-IsRevoked now family s = go s.tokens
  where
    row :
        (t : RefreshToken)
        → IsRevoked family (if live_in_family family t then revoke_at now t else t)
    row t =
        if_elim (IsRevoked family) (live_in_family family t) (λ _ e. refl)
          (λ dead e. ground (arith, eq_iff t.family_id family))

    go :
        (ts : List RefreshToken)
        → All (IsRevoked family) (update (live_in_family family) (revoke_at now) ts)
    go [] = tt
    go (t ∷ ts) = (row t, go ts)

delete_sessions-gone :
    (user : ℕ) (xs : List Session)
    → All (λ x. x.user_id ≢ user) (delete (λ x. x.user_id == user) xs)
delete_sessions-gone user [] = tt
delete_sessions-gone user (x ∷ xs) =
    if_elim (All (λ y. y.user_id ≢ user)) (x.user_id == user) (λ _. delete_sessions-gone user xs)
      (λ other. (ground arith, delete_sessions-gone user xs))

burn_lem :
    (now : ℕ) (cur : RefreshToken) (s : Store)
    → All (IsRevoked cur.family_id) (burn now cur s).tokens
      × All (λ x. x.user_id ≢ cur.user_id) (burn now cur s).sessions
unfolding burn
burn_lem now cur s = (
  revoke_refresh_family-IsRevoked now cur.family_id (delete_sessions_for_user cur.user_id s),
  unfold revoke_refresh_family delete_sessions_for_user in
      delete_sessions-gone cur.user_id s.sessions,
)

-- If a rotation reports reuse, then the presented hash is that of a stored token, and in the
-- committed store every token of its family is revoked and its user has no session.
pub reuse_burns :
    (now : ℕ) (old_hash new_hash : String) (s : Store)
    → (rotate_refresh_token now old_hash new_hash s).0 ≡ err refresh_reuse
    → (cur : RefreshToken) × (first (has_hash old_hash) s.tokens ≡ some cur)
      × All (IsRevoked cur.family_id) (rotate_refresh_token now old_hash new_hash s).1.tokens
      × All (λ x. x.user_id ≢ cur.user_id) (rotate_refresh_token now old_hash new_hash s).1.sessions
reuse_burns now old_hash new_hash s e = elim (rotate_refresh_token-cases now old_hash new_hash s) [
  | inl missing ↦ absurd (cc (ap (λ (r : Outcome RefreshToken). r.0) missing))
  | inr (cur, found, r) ↦ let (t, x) = burnt r e in (cur, found, t, x)
]
  where
    burnt :
        {cur : RefreshToken} {r : Outcome RefreshToken}
        → Rotation now cur new_hash s r
        → r.0 ≡ err refresh_reuse
        → All (IsRevoked cur.family_id) r.1.tokens × All (λ x. x.user_id ≢ cur.user_id) r.1.sessions
    burnt {cur} (burned why) e = burn_lem now cur s
    burnt refused e = cc
    burnt (graced a b c) e = unfold mint in cc
    burnt (rotated a b c d) e = unfold mint in cc

-- Once every token of a family is revoked, then after any calls, none of which logs in to that
-- family again, no rotation returns a token of the family.
pub burned_forever :
    (family : String) (now : ℕ) (old_hash new_hash : String) (calls : List (ℕ × Call)) (s : Store)
    (next : RefreshToken)
    → All (IsRevoked family) s.tokens
    → All (OpensOther family) calls
    → (rotate_refresh_token now old_hash new_hash (apply_all calls s)).0 ≡ ok next
    → next.family_id ≢ family
burned_forever family now old_hash new_hash calls s next h o e same =
    elim (rotate_refresh_token-cases now old_hash new_hash s') [
      | inl missing ↦ absurd (cc (ap (λ (r : Outcome RefreshToken). r.0) missing))
      | inr (cur, found, r) ↦
          let won = Rotation-Succeeds r e in
          let revoked = All-first (IsRevoked family) (has_hash old_hash) s'.tokens kept found in
          cc (revoked (won.family ∙ same), won.live)
    ]
  where
    s' : Store
    s' = apply_all calls s

    kept : All (IsRevoked family) s'.tokens
    kept = apply_all-All family (IsRevoked family) (IsRevoked-InFamily family) calls s o h

-- A success for an unused token is the second branch of the transaction.
rotated_once :
    {now : ℕ} {cur next : RefreshToken} {hash : String} {s : Store} {r : Outcome RefreshToken}
    → Rotation now cur hash s r
    → r.0 ≡ ok next
    → cur.used_at ≡ none
    → r ≡ mint now cur hash (mark_used now cur s)
rotated_once (burned why) e unused = cc
rotated_once refused e unused = cc
rotated_once (graced live cap' (used, u, soon)) e unused = cc
rotated_once (rotated live cap' fresh u) e unused = refl

-- The stored row of a rotated token is the old one, marked.
first-rotated :
    (now : ℕ) (old_hash new_hash : String) (s : Store) (cur : RefreshToken)
    → first (has_hash old_hash) s.tokens ≡ some cur
    → first (has_hash old_hash) (mint now cur new_hash (mark_used now cur s)).1.tokens
      ≡ some (record cur { used_at = some now })
unfolding mint mark_used
first-rotated now old_hash new_hash s cur found = first-append (has_hash old_hash) _ _ (
    first-update (has_hash old_hash) (λ t. t.id == cur.id) (λ t. record t { used_at = some now })
      s.tokens (λ t. refl) (==_refl cur.id) found)

rotate_found-late :
    (now later : ℕ) (cur : RefreshToken) (hash : String) (s : Store)
    → now + refresh_reuse_grace_period < later
    → (rotate_found later (record cur { used_at = some now }) hash s).0 ≡ err refresh_reuse
unfolding rotate_found rotate_live
rotate_found-late now later cur hash s late = ground arith

-- If a token that was not used before is rotated successfully at `now`, and its hash is presented
-- again more than the grace period after `now`, then the second call reports reuse.
pub replay_detected :
    (now later : ℕ) (old_hash new_hash other : String) (s : Store) (cur next : RefreshToken)
    → first (has_hash old_hash) s.tokens ≡ some cur
    → cur.used_at ≡ none
    → (rotate_refresh_token now old_hash new_hash s).0 ≡ ok next
    → now + refresh_reuse_grace_period < later
    → (rotate_refresh_token later old_hash other (rotate_refresh_token now old_hash new_hash s).1).0
      ≡ err refresh_reuse
replay_detected now later old_hash new_hash other s cur next found unused e late =
    let done = rotate_refresh_token-found now old_hash new_hash s found in
    let won = rotated_once (rotate_found-Rotation now cur new_hash s) (rw done at e) unused in
    let s' = (mint now cur new_hash (mark_used now cur s)).1 in
    rw (done, won)
      (rw
        (rotate_refresh_token-found later old_hash other s'
          (first-rotated now old_hash new_hash s cur found))
        (rotate_found-late now later cur other s' late))
