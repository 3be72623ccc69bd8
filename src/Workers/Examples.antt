-- ===== src/Workers/Examples.antt =====
-- Tests of the worker policy and of the role tools, and a registry below a parent's permissions.
use headcount.Prelude.{
  ◌≡◌, refl, String, Bool, true, false, Option, none, some, List, [], ◌∷◌, str_eq,
}
use headcount.Workers.{
  Tool, Registry, get_tool, DecodedPolicy, apply_worker_tool_policy, name_matches_filter, register,
  drop_named, register_passing, entry_matches, has_star, filter_tools, exclude_tools,
  decoded_policy, policy_or_none, apply_mode, denied_entries, denied_or_none, parse_worker_policy,
  denied_from_permissions, contains_fold, mode_allows, parent_allows, decode_agent_names,
  worker_mcp_allowed,
}
use headcount.Workers.Registries.{IsWellFormed, passed}
use headcount.Workers.Policy.{worker_may_use, get_tool-apply_worker_tool_policy}

abbrev trim : String → String
trim s = s

abbrev tool : String → Tool
tool name = record { name = name; description = "" }

abbrev parent_tools : Registry
parent_tools = record {
  tools = tool "bash" ∷ tool "read" ∷ tool "codegraph_search" ∷ tool "finish_work" ∷ [];
}

-- Graph tools only, for any text.
abbrev graph_only : String → Option DecodedPolicy
graph_only raw = some (record { mode = some "custom"; denied = []; allowed = "codegraph_*" ∷ [] })

abbrev strict : String → Option DecodedPolicy
strict raw = some (record { mode = some "deny"; denied = "ba*" ∷ []; allowed = [] })

abbrev unknown_mode : String → Option DecodedPolicy
unknown_mode raw = some (record { mode = some "all"; denied = []; allowed = "*" ∷ [] })

abbrev no_reading : String → Option (List (String × String))
no_reading raw = some (("read", "deny") ∷ ("bash", "allow") ∷ [])

abbrev broken : String → Option (List (String × String))
broken raw = none

abbrev tools_left :
    (String → Option DecodedPolicy) → (String → Option (List (String × String))) → Registry
tools_left decode decode_map =
    apply_worker_tool_policy trim str_eq decode decode_map parent_tools "parent" "worker"

abbrev is_left :
    (String → Option DecodedPolicy) → (String → Option (List (String × String))) → String → Bool
is_left decode decode_map name = elim (get_tool name (tools_left decode decode_map)) [
  | some t ↦ true
  | none ↦ false
]

graph_tool_left : is_left graph_only no_reading "codegraph_search" ≡ true
unfolding apply_worker_tool_policy parse_worker_policy policy_or_none decoded_policy apply_mode
    denied_from_permissions denied_or_none denied_entries exclude_tools filter_tools has_star
    register_passing register drop_named get_tool name_matches_filter entry_matches
graph_tool_left = refl

shell_gone : is_left strict no_reading "bash" ≡ false
unfolding apply_worker_tool_policy parse_worker_policy policy_or_none decoded_policy apply_mode
    denied_from_permissions denied_or_none denied_entries exclude_tools register_passing register
    drop_named get_tool name_matches_filter entry_matches
shell_gone = refl

-- Of an unknown mode only the lifecycle tools are left.
unknown_is_closed : is_left unknown_mode no_reading "codegraph_search" ≡ false
unfolding apply_worker_tool_policy parse_worker_policy policy_or_none decoded_policy apply_mode
    denied_from_permissions denied_or_none denied_entries exclude_tools filter_tools has_star
    register_passing register drop_named get_tool name_matches_filter entry_matches
unknown_is_closed = refl

-- Permissions that cannot be read deny nothing.
broken_is_open : is_left strict broken "read" ≡ true
unfolding apply_worker_tool_policy parse_worker_policy policy_or_none decoded_policy apply_mode
    denied_from_permissions denied_or_none exclude_tools register_passing register drop_named
    get_tool name_matches_filter entry_matches
broken_is_open = refl

-- A lifecycle tool that the parent's permissions deny is gone.
finish_denied :
    is_left graph_only (λ raw. some (("finish_work", "deny") ∷ [])) "finish_work" ≡ false
unfolding apply_worker_tool_policy parse_worker_policy policy_or_none decoded_policy apply_mode
    denied_from_permissions denied_or_none denied_entries exclude_tools filter_tools has_star
    register_passing register drop_named get_tool name_matches_filter entry_matches
finish_denied = refl

get_tool-apply_worker_tool_policy_example :
    IsWellFormed (tools_left graph_only no_reading)
    × ((name : String)
        → get_tool name (tools_left graph_only no_reading)
          ≡ passed
              (worker_may_use trim str_eq graph_only no_reading "parent" "worker" name)
              (get_tool name parent_tools))
get_tool-apply_worker_tool_policy_example =
    get_tool-apply_worker_tool_policy trim str_eq graph_only no_reading parent_tools "parent"
      "worker" (refl, (refl, (refl, (refl, tt))))

mcp_below_parent :
    worker_mcp_allowed trim str_eq strict (λ raw. some ("github" ∷ [])) "slack" "parent" "worker"
    ≡ false
unfolding worker_mcp_allowed parse_worker_policy policy_or_none decoded_policy parent_allows
    decode_agent_names contains_fold mode_allows
mcp_below_parent = refl
