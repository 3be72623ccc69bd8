-- ===== src/RunTokens.antt =====
-- pkg/runtokens/runtokens.go: bearer tokens of agent runs, kept by their hashes. The hash function
-- (SHA-256) and the random bytes are not this code: `hash` is a parameter, and `issue` is given the
-- token that the random bytes make. The two Go maps are functions.
pub mod Refinement
mod Examples
use headcount.Prelude.{
  ℕ, String, Bool, true, false, Option, none, some, if◌then◌else◌, ◌==◌, str_eq, is_some, List, [],
  ◌∷◌,
}

pub record Registry : Type 0 where
  pub by_hash : String → Option ℕ
  pub by_run : ℕ → Option String

abbrev pub new_registry : Registry
new_registry = record { by_hash = λ h. none; by_run = λ r. none }

-- Writes to the two maps; `none` deletes the key.
abbrev pub set_hash : String → Option ℕ → Registry → Registry
set_hash h v reg = record reg { by_hash = λ k. if str_eq h k then v else reg.by_hash k }

abbrev pub set_run : ℕ → Option String → Registry → Registry
set_run r v reg = record reg { by_run = λ k. if r == k then v else reg.by_run k }

abbrev pub forget : Option String → Registry → Registry
forget none reg = reg
forget (some old) reg = set_hash old none reg

module _ (hash : String → String) where
  -- `Issue`, for the token that was drawn.
  pub issue : ℕ → String → Registry → Registry
  issue run_id token reg =
      set_run run_id (some (hash token))
        (set_hash (hash token) (some run_id) (forget (reg.by_run run_id) reg))

  -- `Validate`
  pub validate : String → Registry → Option ℕ
  validate token reg = if str_eq token "" then none else reg.by_hash (hash token)

abbrev drop_pair : ℕ → Option String → Registry → Registry
drop_pair run_id none reg = reg
drop_pair run_id (some h) reg = set_run run_id none (set_hash h none reg)

-- `Revoke`
pub revoke : ℕ → Registry → Registry
revoke run_id reg = drop_pair run_id (reg.by_run run_id) reg
