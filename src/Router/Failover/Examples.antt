-- ===== src/Router/Failover/Examples.antt =====
-- A group of two members, of which the free one is rate limited.
use headcount.Prelude.{
  ℕ, ◌+◌, ◌≡◌, refl, String, Bool, true, false, some, Option, none, List, [], ◌∷◌, if◌then◌else◌,
  ◌==◌, arith, Memᴰ,
}
use headcount.Router.{
  LlmProvider, ModelGroupMember, ModelGroup, Gateway, Outcome, success, rate_limited,
  expand_model_group_members, cooldown,
}
use headcount.Router.Cooldown.{cooldown-eq-doubled}
use headcount.Router.Failover.{
  Probe, Upstream, response, Relay, relayed, Request, refused, serve_group,
}
use headcount.Router.Failover.Attempts.{first_good, try_members_correct, Tries, tried}
use headcount.Router.Failover.Groups.{serve_group-refuses_foreign}

abbrev provider : ℕ → ℕ → LlmProvider
provider id owner = record {
  id = id;
  user_id = some owner;
  name = "";
  api_key_encrypted = "";
  supported_models = "";
  builtin = false;
}

abbrev member : ℕ → ℕ → Bool → ModelGroupMember
member id owner is_free = record {
  id = id;
  group_id = 1;
  provider_id = id;
  provider = provider id owner;
  model = "m";
  all_models = false;
  is_free = is_free;
  priority = id;
}

abbrev group_of : List ModelGroupMember → ModelGroup
group_of members = record { id = 1; name = ""; slug = "g"; user_id = some 7; members = members }

abbrev fresh : Gateway
fresh = record {
  health = λ p m. record {
    rate_limited_until = 0;
    rate_limit_streak = 0;
    fail_streak = 0;
    last_tokens_per_sec = 0;
  };
  stats = [];
}

abbrev speed : ℕ → ℕ → ℕ
speed tokens duration = tokens

abbrev classify : ℕ → String → Outcome × String
classify status body = if status == 429 then (rate_limited, "limit") else (success, "")

-- The provider 1 is limited, and the provider 2 answers.
abbrev upstream : ℕ → ModelGroupMember → Upstream
upstream i m = if m.provider_id == 1 then response 429 "" else response 200 "hello"

abbrev relay : ℕ → ModelGroupMember → Relay
relay i m = relayed 0 0

abbrev usage : String → ℕ × ℕ
usage body = (3, 4)

abbrev ticks : ℕ → ℕ
ticks i = i + 1000

abbrev plain : Request
plain = record { readable = true; is_json = true; stream = false; can_flush = true }

abbrev no_names : String → List String
no_names text = []

abbrev both : List ModelGroupMember
both = member 2 7 false ∷ member 1 7 true ∷ []

cooldown-eq-doubled_example : cooldown 70 ≡ 3600000000000
cooldown-eq-doubled_example = cooldown-eq-doubled 70

try_members_correct_example :
    Tries speed classify upstream relay usage ticks ticks 1 plain 0 both 0 fresh
      (first_good speed classify upstream relay usage ticks ticks 1 plain 0 both)
      (tried speed classify upstream relay usage ticks ticks 1 plain 0 both "" 0 fresh)
try_members_correct_example =
    try_members_correct speed classify upstream relay usage ticks ticks 1 plain 0 both "" 0 fresh
      refl

expanded : expand_model_group_members no_names both ≡ both
unfolding expand_model_group_members
expanded = refl

serve_group-refuses_foreign_example :
    serve_group speed classify upstream relay usage ticks ticks 1 plain no_names 5
      (group_of (member 2 7 false ∷ member 1 8 true ∷ []))
      fresh
    ≡ (refused 403 "Model group references a provider owned by another user", fresh)
unfolding expand_model_group_members
serve_group-refuses_foreign_example =
    serve_group-refuses_foreign speed classify upstream relay usage ticks ticks 1 plain no_names 5
      (group_of (member 2 7 false ∷ member 1 8 true ∷ [])) fresh (member 1 8 true) 7 8 refl
      (Memᴰ.tail (Memᴰ.head refl)) refl (λ e. omega arith)

abbrev same_text : String → String
same_text s = s

abbrev digits : ℕ → String
digits n = "502"

abbrev no_json : String → Option Probe
no_json body = none

abbrev no_error_text : String → String
no_error_text body = ""
