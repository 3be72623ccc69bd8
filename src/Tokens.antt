-- ===== src/Tokens.antt =====
-- db/repository/refresh_token_repository.go and session_repository.go: rotation of refresh tokens,
-- detection of their reuse, and the sliding expiry of access sessions. An instant is a number of
-- nanoseconds, and `now` is the reading of the clock that a call makes.
pub mod Calls
pub mod Caps
pub mod Burned
pub mod Families
pub mod Sessions
mod Examples
use headcount.Prelude.{
  ℕ, suc, ◌+◌, ◌-◌, ◌*◌, String, Bool, true, false, ◌&&◌, ◌||◌, not, Option, none, some, List, [],
  ◌∷◌, ◌++◌, first, find, update, delete, Result, ok, err, if◌then◌else◌, ltb, leb, ◌==◌, str_eq,
  is_some,
}

abbrev pub second : ℕ
second = 1000000000

abbrev pub hour : ℕ
hour = 3600 * second

abbrev pub access_token_lifetime : ℕ
access_token_lifetime = hour

abbrev pub refresh_token_lifetime : ℕ
refresh_token_lifetime = 24 * hour

abbrev pub refresh_reuse_grace_period : ℕ
refresh_reuse_grace_period = 30 * second

abbrev pub session_renew_after : ℕ
session_renew_after = 15 * 60 * second

pub record RefreshToken : Type 0 where
  pub id : ℕ
  pub family_id : String
  pub token_hash : String
  pub user_id : ℕ
  pub expires_at : ℕ
  pub absolute_expires_at : ℕ
  pub used_at : Option ℕ
  pub revoked_at : Option ℕ

-- `none` in `absolute_expires_at` is the zero time of legacy rows.
pub record Session : Type 0 where
  pub id : ℕ
  pub token_hash : String
  pub user_id : ℕ
  pub expires_at : ℕ
  pub absolute_expires_at : Option ℕ

pub record Store : Type 0 where
  pub next_id : ℕ
  pub tokens : List RefreshToken
  pub sessions : List Session

pub data TokenError : Type 0 where
  record_not_found refresh_reuse : TokenError

-- What a call returns, with the database that it leaves.
abbrev pub Outcome : Type 0 → Type 0
Outcome A = Result TokenError A × Store

-- `SessionAbsoluteCap`, in days, from the parsed value of SESSION_ABSOLUTE_CAP (`none`: unset or
-- not a number; a negative one is out of range like 0).
pub session_absolute_cap : Option ℕ → ℕ
session_absolute_cap none = 14
session_absolute_cap (some n) = if leb 1 n && leb n 60 then n else 14

abbrev wanted_gap : Option ℕ → ℕ
wanted_gap none = 4
wanted_gap (some n) = if leb 1 n then n else 4

-- `SessionReauthGap`, in days, from the parsed values of both variables.
pub session_reauth_gap : Option ℕ → Option ℕ → ℕ
session_reauth_gap cap_var gap_var =
    let last_day = session_absolute_cap cap_var - 1 in
    let wanted = wanted_gap gap_var in
    let capped = if ltb last_day wanted then last_day else wanted in
    if ltb capped 1 then 1 else capped

-- The conditions of the queries.
abbrev pub has_hash : String → RefreshToken → Bool
has_hash hash t = str_eq t.token_hash hash

abbrev pub live_in_family : String → RefreshToken → Bool
live_in_family family t = str_eq t.family_id family && not (is_some t.revoked_at)

abbrev pub revoke_at : ℕ → RefreshToken → RefreshToken
revoke_at now t = record t { revoked_at = some now }

-- `RevokeRefreshFamily`
pub revoke_refresh_family : ℕ → String → Store → Store
revoke_refresh_family now family s = record s {
  tokens = update (live_in_family family) (revoke_at now) s.tokens;
}

-- `DeleteSessionsForUser`
pub delete_sessions_for_user : ℕ → Store → Store
delete_sessions_for_user user s = record s { sessions = delete (λ x. x.user_id == user) s.sessions }

-- `CreateRefreshToken`: the first token of a family. The hash is that of a fresh random token; the unique
-- index on it, which refuses a hash that is taken, is left out.
pub create_refresh_token : ℕ → ℕ → String → String → ℕ → Store → RefreshToken × Store
create_refresh_token now user family hash absolute_expiry s =
    let t : RefreshToken = record {
      id = s.next_id;
      family_id = family;
      token_hash = hash;
      user_id = user;
      expires_at = now + refresh_token_lifetime;
      absolute_expires_at = absolute_expiry;
      used_at = none;
      revoked_at = none;
    } in
    (t, record s { next_id = suc s.next_id; tokens = s.tokens ++ t ∷ [] })

-- The successor of a token, in its family and under its absolute cap.
pub successor : ℕ → ℕ → RefreshToken → String → RefreshToken
successor id now cur hash = record {
  id = id;
  family_id = cur.family_id;
  token_hash = hash;
  user_id = cur.user_id;
  expires_at = now + refresh_token_lifetime;
  absolute_expires_at = cur.absolute_expires_at;
  used_at = none;
  revoked_at = none;
}

-- Theft: the user's sessions and the whole family go, and the transaction commits.
pub burn : ℕ → RefreshToken → Store → Store
burn now cur s = revoke_refresh_family now cur.family_id (delete_sessions_for_user cur.user_id s)

pub mint : ℕ → RefreshToken → String → Store → Outcome RefreshToken
mint now cur hash s =
    let next = successor s.next_id now cur hash in
    (ok next, record s { next_id = suc s.next_id; tokens = s.tokens ++ next ∷ [] })

pub mark_used : ℕ → RefreshToken → Store → Store
mark_used now cur s = record s {
  tokens = update (λ t. t.id == cur.id) (λ t. record t { used_at = some now }) s.tokens;
}

-- The part of the transaction after the revocation test, by the token's `used_at`.
pub rotate_live : ℕ → RefreshToken → String → Store → Option ℕ → Outcome RefreshToken
rotate_live now cur new_hash s (some used) =
    if ltb refresh_reuse_grace_period (now - used)
    then (err refresh_reuse, burn now cur s)
    else if ltb cur.absolute_expires_at now
    then (err record_not_found, s)
    else mint now cur new_hash s
rotate_live now cur new_hash s none =
    if ltb cur.expires_at now || ltb cur.absolute_expires_at now
    then (err record_not_found, s)
    else mint now cur new_hash (mark_used now cur s)

-- The body of the transaction, once the presented token is found.
pub rotate_found : ℕ → RefreshToken → String → Store → Outcome RefreshToken
rotate_found now cur new_hash s =
    if is_some cur.revoked_at
    then (err refresh_reuse, burn now cur s)
    else rotate_live now cur new_hash s cur.used_at

-- `RotateRefreshToken`
pub rotate_refresh_token : ℕ → String → String → Store → Outcome RefreshToken
rotate_refresh_token now old_hash new_hash s = elim (first (has_hash old_hash) s.tokens) [
  | none ↦ (err record_not_found, s)
  | some cur ↦ rotate_found now cur new_hash s
]

-- `RevokeRefreshTokensForUser` deletes the rows.
pub revoke_refresh_tokens_for_user : ℕ → Store → Store
revoke_refresh_tokens_for_user user s = record s {
  tokens = delete (λ t. t.user_id == user) s.tokens;
}

-- `DeleteExpiredRefreshTokens`
pub delete_expired_refresh_tokens : ℕ → Store → Store
delete_expired_refresh_tokens now s = record s {
  tokens = delete (λ t. leb t.absolute_expires_at now || is_some t.revoked_at) s.tokens;
}

-- `CreateSession`
pub create_session : ℕ → ℕ → String → Option ℕ → Store → Session × Store
create_session now user hash absolute_expiry s =
    let x : Session = record {
      id = s.next_id;
      token_hash = hash;
      user_id = user;
      expires_at = now + access_token_lifetime;
      absolute_expires_at = absolute_expiry;
    } in
    (x, record s { next_id = suc s.next_id; sessions = s.sessions ++ x ∷ [] })

abbrev pub past_cap : ℕ → Session → Bool
past_cap now x = elim x.absolute_expires_at [ none ↦ false | some cap ↦ ltb cap now ]

-- The new expiry, no later than the absolute one.
abbrev pub slid_expiry : ℕ → Session → ℕ
slid_expiry now x =
    let new = now + access_token_lifetime in
    elim x.absolute_expires_at [ none ↦ new | some cap ↦ if ltb cap new then cap else new ]

-- The body of `GetSessionUser` for the row that the query found; it returns the user's id, which
-- the code then loads.
pub use_session : ℕ → Session → Store → Outcome ℕ
use_session now x s =
    if past_cap now x
    then (err record_not_found, record s { sessions = delete (λ y. y.id == x.id) s.sessions })
    else if ltb session_renew_after (now + access_token_lifetime - x.expires_at)
    then (
      ok x.user_id,
      record s {
        sessions =
            update (λ y. y.id == x.id) (λ y. record y { expires_at = slid_expiry now x })
              s.sessions;
      },
    )
    else (ok x.user_id, s)

abbrev pub valid_session : ℕ → String → Session → Bool
valid_session now hash x = str_eq x.token_hash hash && ltb now x.expires_at

pub get_session_user : ℕ → String → Store → Outcome ℕ
get_session_user now hash s = elim (first (valid_session now hash) s.sessions) [
  | none ↦ (err record_not_found, s)
  | some x ↦ use_session now x s
]
