-- ===== src/Router.antt =====
-- integration/group_router.go and db/repository/model_group_member_repository.go: a group of models,
-- the health of its members, the order in which they are tried, and the outcomes that change it.
-- Durations and instants are nanoseconds. The speed of a model (a float64 of the source, computed from
-- tokens and seconds and only compared) is a number that the parameter `speed` gives.
pub mod Cooldown
pub mod Failover
pub mod Order
use headcount.Prelude.{
  ℕ, ◌+◌, ◌-◌, ◌*◌, ◌^◌, ◌/◌, ◌%◌, String, Bool, true, false, not, ◌&&◌, ◌||◌, Option, none, some,
  List, [], ◌∷◌, ◌++◌, map, if◌then◌else◌, ltb, leb, ◌==◌, str_eq, append, slice, len, sort,
}

pub record LlmProvider : Type 0 where
  pub id : ℕ
  pub user_id : Option ℕ
  pub name : String
  pub api_key_encrypted : String
  pub supported_models : String
  pub builtin : Bool

pub record ModelGroupMember : Type 0 where
  pub id : ℕ
  pub group_id : ℕ
  pub provider_id : ℕ
  pub provider : LlmProvider
  pub model : String
  pub all_models : Bool
  pub is_free : Bool
  pub priority : ℕ

pub record ModelGroup : Type 0 where
  pub id : ℕ
  pub name : String
  pub slug : String
  pub user_id : Option ℕ
  pub members : List ModelGroupMember

-- The loop over the names of a provider's models, without the spaces around them.
pub expand_models : ModelGroupMember → List String → List ModelGroupMember
expand_models member [] = []
expand_models member (model ∷ models) =
    let rest = expand_models member models in
    if str_eq model "" then rest else record member { model = model; all_models = false } ∷ rest

-- `ExpandModelGroupMembers`, where `names` splits at commas and trims.
pub expand_model_group_members :
    (String → List String) → List ModelGroupMember → List ModelGroupMember
expand_model_group_members names [] = []
expand_model_group_members names (member ∷ members) =
    let rest = expand_model_group_members names members in
    if member.all_models
    then expand_models member (names member.provider.supported_models) ++ rest
    else member ∷ rest

pub record MemberHealth : Type 0 where
  pub rate_limited_until : ℕ
  pub rate_limit_streak : ℕ
  pub fail_streak : ℕ
  pub last_tokens_per_sec : ℕ

pub data Outcome : Type 0 where
  success rate_limited failure : Outcome

pub record ModelRequestStat : Type 0 where
  pub group_id : ℕ
  pub provider_id : ℕ
  pub model : String
  pub status_code : ℕ
  pub duration_ms : ℕ
  pub prompt_tokens : ℕ
  pub completion_tokens : ℕ
  pub error_message : String
  pub success : Bool
  pub rate_limited : Bool
  pub tokens_per_sec : ℕ
  pub cooldown_until : Option ℕ

-- The map of the health of members, where a missing entry is the zero value, and the rows of stats.
abbrev pub Health : Type 0
Health = ℕ → String → MemberHealth

pub record Gateway : Type 0 where
  pub health : Health
  pub stats : List ModelRequestStat

-- `groupHealthState.update`
pub update_health : ℕ → String → (MemberHealth → MemberHealth) → Health → Health
update_health provider_id model fn h =
    λ p m. if p == provider_id && str_eq m model then fn (h p m) else h p m

abbrev pub rate_limit_base_cooldown : ℕ
rate_limit_base_cooldown = 300000000000

abbrev pub rate_limit_max_cooldown : ℕ
rate_limit_max_cooldown = 3600000000000

-- `rateLimitBaseCooldown << uint(streak-1)` as an int64 between 0 and 2^64: the upper half is negative.
pub shifted : ℕ → ℕ
shifted streak = rate_limit_base_cooldown * 2 ^ (streak - 1) % 2 ^ 64

pub cooldown : ℕ → ℕ
cooldown streak =
    if (ltb rate_limit_max_cooldown (shifted streak) || shifted streak == 0)
      || leb (2 ^ 63) (shifted streak)
    then rate_limit_max_cooldown
    else shifted streak

pub note_success : ℕ → MemberHealth → MemberHealth
note_success tokens_per_sec h = record {
  fail_streak = 0;
  rate_limit_streak = 0;
  rate_limited_until = 0;
  last_tokens_per_sec = if ltb 0 tokens_per_sec then tokens_per_sec else h.last_tokens_per_sec;
}

pub note_rate_limit : ℕ → MemberHealth → MemberHealth
note_rate_limit now h = record h {
  rate_limit_streak = h.rate_limit_streak + 1;
  rate_limited_until = now + cooldown (h.rate_limit_streak + 1);
}

pub note_failure : MemberHealth → MemberHealth
note_failure h = record h { fail_streak = h.fail_streak + 1 }

-- `truncateMsg`
pub truncate_msg : String → ℕ → String
truncate_msg s n = if leb (len s) n then s else append (slice s 0 n) "…"

-- One attempt, as it is recorded: `status`, `duration`, the tokens and the message.
pub record Attempt : Type 0 where
  pub status : ℕ
  pub duration : ℕ
  pub prompt_tokens : ℕ
  pub completion_tokens : ℕ
  pub err_msg : String

module _ (speed : ℕ → ℕ → ℕ) where
  abbrev pub measured : Attempt → ℕ
  measured a =
      if ltb 0 a.duration && ltb 0 a.completion_tokens
      then speed a.completion_tokens a.duration
      else 0

  abbrev pub stat_of : ℕ → ModelGroupMember → Attempt → ModelRequestStat
  stat_of group_id m a = record {
    group_id = group_id;
    provider_id = m.provider_id;
    model = m.model;
    status_code = a.status;
    duration_ms = a.duration / 1000000;
    prompt_tokens = a.prompt_tokens;
    completion_tokens = a.completion_tokens;
    error_message = truncate_msg a.err_msg 500;
    success = false;
    rate_limited = false;
    tokens_per_sec = 0;
    cooldown_until = none;
  }

  -- `recordOutcome` at the instant `now`, with the row that it stores.
  pub record_outcome : ℕ → ℕ → ModelGroupMember → Outcome → Attempt → Gateway → Gateway
  record_outcome now group_id m success a g = record {
    health = update_health m.provider_id m.model (note_success (measured a)) g.health;
    stats =
        g.stats
        ++ record (stat_of group_id m a) { success = true; tokens_per_sec = measured a } ∷ [];
  }
  record_outcome now group_id m rate_limited a g =
      let health = update_health m.provider_id m.model (note_rate_limit now) g.health in
      record {
        health = health;
        stats =
            g.stats
            ++ record (stat_of group_id m a) {
              rate_limited = true;
              cooldown_until = some (health m.provider_id m.model).rate_limited_until;
            }
              ∷ [];
      }
  record_outcome now group_id m failure a g = record {
    health = update_health m.provider_id m.model note_failure g.health;
    stats = g.stats ++ stat_of group_id m a ∷ [];
  }

-- An entry of the list that `orderCandidates` sorts.
pub record Scored : Type 0 where
  pub m : ModelGroupMember
  pub h : MemberHealth
  pub cooled : Bool

pub scored : Health → ℕ → ModelGroupMember → Scored
scored health now m =
    let h = health m.provider_id m.model in
    record { m = m; h = h; cooled = ltb now h.rate_limited_until }

abbrev pub differ : Bool → Bool → Bool
differ a b = if a then not b else b

-- The comparison of `orderCandidates`.
pub tried_before : Scored → Scored → Bool
tried_before a b =
    if differ a.m.is_free b.m.is_free
    then a.m.is_free
    else if differ a.cooled b.cooled
    then not a.cooled
    else if a.cooled && b.cooled
    then ltb a.h.rate_limited_until b.h.rate_limited_until
    else if not (a.h.fail_streak == b.h.fail_streak)
    then ltb a.h.fail_streak b.h.fail_streak
    else if not (a.h.last_tokens_per_sec == b.h.last_tokens_per_sec)
    then ltb b.h.last_tokens_per_sec a.h.last_tokens_per_sec
    else ltb a.m.priority b.m.priority

-- `orderCandidates`
pub order_candidates : Health → ℕ → List ModelGroupMember → List ModelGroupMember
order_candidates health now members =
    map (λ s. s.m) (sort tried_before (map (scored health now) members))
