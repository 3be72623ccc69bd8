-- ===== src/Tokens/Caps.antt =====
-- The two settings of the session lifetime.
use headcount.Prelude.{ℕ, ◌≤◌, ◌<◌, ◌≢◌, ◌↔◌, Option, arith}
use headcount.Tokens.{session_absolute_cap, session_reauth_gap}

-- Whatever the variables hold, the cap is between 1 and 60 days, the gap is at least a day and at
-- most the cap, and the gap is below the cap exactly if the cap is longer than a day.
pub session_reauth_gap_bounds :
    (cap_var gap_var : Option ℕ)
    → (1 ≤ session_absolute_cap cap_var)
      × (session_absolute_cap cap_var ≤ 60)
      × (1 ≤ session_reauth_gap cap_var gap_var)
      × (session_reauth_gap cap_var gap_var ≤ session_absolute_cap cap_var)
      × ((session_reauth_gap cap_var gap_var < session_absolute_cap cap_var)
          ↔ (session_absolute_cap cap_var ≢ 1))
unfolding session_absolute_cap session_reauth_gap
session_reauth_gap_bounds cap_var gap_var = ground arith
