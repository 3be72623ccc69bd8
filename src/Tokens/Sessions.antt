-- ===== src/Tokens/Sessions.antt =====
-- Access sessions: the absolute ceiling holds however often the session is used.
use headcount.Prelude.{
  refl, ℕ, ◌<◌, ◌≡◌, ◌+◌, ◌-◌, inl, inr, String, some, List, [], ◌∷◌, arith, err, first,
  first-holds, All, All-first, All-update, All-delete, if_elim, ltb, eq_iff, ◌==◌, Option-cases,
}
use headcount.Tokens.{
  Outcome, Store, Session, past_cap, valid_session, slid_expiry, use_session, get_session_user,
  record_not_found, session_renew_after, access_token_lifetime,
}

-- Every session under the cookie hash `h` has the absolute ceiling `c`.
abbrev pub HasCeiling : String → ℕ → Session → Type 0
HasCeiling h c x = x.token_hash ≡ h → x.absolute_expires_at ≡ some c

module _ (h : String) (c : ℕ) where
  use_session-HasCeiling :
      (now : ℕ) (x : Session) (s : Store)
      → All (HasCeiling h c) s.sessions
      → All (HasCeiling h c) (use_session now x s).1.sessions
  unfolding use_session
  use_session-HasCeiling now x s k =
      if_elim Keeps (past_cap now x)
        (λ _. All-delete (HasCeiling h c) (λ y. y.id == x.id) s.sessions k)
        λ _.
          if_elim Keeps (ltb session_renew_after (now + access_token_lifetime - x.expires_at))
            (λ _.
              All-update (HasCeiling h c) (λ y. y.id == x.id)
                (λ y. record y { expires_at = slid_expiry now x }) s.sessions (λ y ky _. ky) k)
            (λ _. k)
    where
      Keeps : Outcome ℕ → Type 0
      Keeps r = All (HasCeiling h c) r.1.sessions

  get_session_user-HasCeiling :
      (now : ℕ) (hash : String) (s : Store)
      → All (HasCeiling h c) s.sessions
      → All (HasCeiling h c) (get_session_user now hash s).1.sessions
  unfolding get_session_user
  get_session_user-HasCeiling now hash s k =
      elim (Option-cases (first (valid_session now hash) s.sessions)) [
        | inl e ↦ rw (e, get_session_user) k
        | inr (x, e) ↦ rw (e, get_session_user) (use_session-HasCeiling now x s k)
      ]

  -- After the ceiling the cookie is refused.
  refused_after_ceiling :
      (now : ℕ) (s : Store)
      → All (HasCeiling h c) s.sessions
      → c < now
      → (get_session_user now h s).0 ≡ err record_not_found
  unfolding get_session_user use_session
  refused_after_ceiling now s k late =
      elim (Option-cases (first (valid_session now h) s.sessions)) [
        | inl e ↦ rw (e, get_session_user) refl
        | inr (x, e) ↦
            let valid = first-holds (valid_session now h) s.sessions e in
            let ceiling =
              All-first (HasCeiling h c) (valid_session now h) s.sessions k e
                (ground (arith, eq_iff x.token_hash h)) in
            rw (e, get_session_user, use_session) (ground arith)
      ]

-- The lookups of a run of requests, each with its time and its cookie hash.
pub after_lookups : List (ℕ × String) → Store → Store
after_lookups [] s = s
after_lookups ((now, hash) ∷ rest) s = after_lookups rest (get_session_user now hash s).1

-- If every session under a cookie hash has the absolute ceiling `c`, then after any lookups, of
-- that cookie or of others and at any times, a lookup of the cookie later than `c` is refused:
-- using a session never moves it past its ceiling.
session_ends_at_ceiling :
    (h : String) (c now : ℕ) (requests : List (ℕ × String)) (s : Store)
    → All (HasCeiling h c) s.sessions
    → c < now
    → (get_session_user now h (after_lookups requests s)).0 ≡ err record_not_found
unfolding after_lookups
session_ends_at_ceiling h c now [] s k late = refused_after_ceiling h c now s k late
session_ends_at_ceiling h c now ((t, hash) ∷ rest) s k late =
    session_ends_at_ceiling h c now rest (get_session_user t hash s).1
      (get_session_user-HasCeiling h c t hash s k) late
