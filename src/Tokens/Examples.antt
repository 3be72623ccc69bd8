-- ===== src/Tokens/Examples.antt =====
-- One login, one rotation, and a thief who replays the first token.
use headcount.Prelude.{
  ℕ, ◌+◌, ◌*◌, ◌≤◌, ◌<◌, ◌≡◌, ◌≢◌, ◌↔◌, refl, String, Option, none, some, List, [], ◌∷◌, All, first,
  ok, err, arith, eq_iff,
}
use headcount.Tokens.{
  RefreshToken, Session, Store, hour, has_hash, rotate_refresh_token, rotate_found, rotate_live,
  burn, mint, mark_used, successor, revoke_refresh_family, delete_sessions_for_user, refresh_reuse,
  session_absolute_cap, session_reauth_gap,
}
use headcount.Tokens.Calls.{Call, apply_all, rotate}
use headcount.Tokens.Caps.{session_reauth_gap_bounds}
use headcount.Tokens.Families.{lineage_ends_at_cap}
use headcount.Tokens.Burned.{IsRevoked, reuse_burns, burned_forever, replay_detected}

abbrev token : ℕ → String → Option ℕ → Option ℕ → RefreshToken
token id hash used revoked = record {
  id = id;
  family_id = "f";
  token_hash = hash;
  user_id = 5;
  expires_at = 24 * hour;
  absolute_expires_at = 336 * hour;
  used_at = used;
  revoked_at = revoked;
}

abbrev access : Session
access = record {
  id = 9;
  token_hash = "cookie";
  user_id = 5;
  expires_at = hour;
  absolute_expires_at = some (336 * hour);
}

abbrev store : Store
store = record { next_id = 2; tokens = token 1 "a" none none ∷ []; sessions = access ∷ [] }

abbrev spent : Store
spent = record store { tokens = token 1 "a" (some 0) none ∷ [] }

session_reauth_gap_bounds_example :
    (1 ≤ session_absolute_cap (some 1))
    × (session_absolute_cap (some 1) ≤ 60)
    × (1 ≤ session_reauth_gap (some 1) none)
    × (session_reauth_gap (some 1) none ≤ session_absolute_cap (some 1))
    × ((session_reauth_gap (some 1) none < session_absolute_cap (some 1))
        ↔ (session_absolute_cap (some 1) ≢ 1))
session_reauth_gap_bounds_example = session_reauth_gap_bounds (some 1) none

abbrev minted : RefreshToken
minted = record (token 2 "b" none none) { expires_at = hour + 24 * hour }

first_rotation : (rotate_refresh_token hour "a" "b" store).0 ≡ ok minted
unfolding rotate_refresh_token rotate_found rotate_live mint mark_used successor
first_rotation = refl

replay_detected_example :
    (rotate_refresh_token (2 * hour) "a" "c" (rotate_refresh_token hour "a" "b" store).1).0
    ≡ err refresh_reuse
replay_detected_example =
    replay_detected hour (2 * hour) "a" "b" "c" store (token 1 "a" none none) minted refl refl
      first_rotation (omega arith)

theft : (rotate_refresh_token hour "a" "c" spent).0 ≡ err refresh_reuse
unfolding rotate_refresh_token rotate_found rotate_live
theft = refl

reuse_burns_example :
    (cur : RefreshToken) × (first (has_hash "a") spent.tokens ≡ some cur)
    × All (IsRevoked cur.family_id) (rotate_refresh_token hour "a" "c" spent).1.tokens
    × All (λ x. x.user_id ≢ cur.user_id) (rotate_refresh_token hour "a" "c" spent).1.sessions
reuse_burns_example = reuse_burns hour "a" "c" spent theft

-- Family "f" is burned, and another family of the same user lives on.
abbrev other_token : RefreshToken
other_token = record (token 3 "x" none none) { family_id = "g" }

abbrev burned_store : Store
burned_store = record store { tokens = token 1 "a" (some 0) (some hour) ∷ other_token ∷ [] }

f-ne-g : ◌≢◌ {A = String} "g" "f"
f-ne-g = ground (arith, eq_iff "g" "f")

abbrev calls : List (ℕ × Call)
calls = (hour, rotate "a" "z") ∷ []

abbrev lives_on : RefreshToken
lives_on = record other_token { id = 2; token_hash = "y"; expires_at = 2 * hour + 24 * hour }

other_family_lives :
    (rotate_refresh_token (2 * hour) "x" "y" (apply_all calls burned_store)).0 ≡ ok lives_on
unfolding apply_all rotate_refresh_token rotate_found rotate_live mint mark_used successor burn
    revoke_refresh_family delete_sessions_for_user
other_family_lives = refl

burned_forever_example : ◌≢◌ {A = String} "g" "f"
burned_forever_example =
    burned_forever "f" (2 * hour) "x" "y" calls burned_store lives_on
      (λ e. refl, (λ e. absurd (f-ne-g e), tt)) (tt, tt) other_family_lives

second_rotation : (rotate_refresh_token hour "a" "b" (apply_all [] store)).0 ≡ ok minted
unfolding apply_all rotate_refresh_token rotate_found rotate_live mint mark_used successor
second_rotation = refl

lineage_ends_at_cap_example :
    (hour ≤ 336 * hour) × (minted.user_id ≡ 5) × (minted.absolute_expires_at ≡ 336 * hour)
lineage_ends_at_cap_example =
    lineage_ends_at_cap "f" 5 (336 * hour) hour "a" "b" [] store minted
      (record { owner = λ e. refl; ceiling = λ e. refl }, tt) tt second_rotation refl
