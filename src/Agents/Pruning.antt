-- ===== src/Agents/Pruning.antt =====
-- engine/aicli/agent.go: `pruneHistory`, which shortens old results of tools in a request.
use headcount.Prelude.{
  ℕ, suc, String, Bool, ◌||◌, List, [], ◌∷◌, if◌then◌else◌, ltb, leb, str_eq, slice, len, append,
  not,
}
use headcount.Agents.{Message}

abbrev pub fresh_assistant_turns : ℕ
fresh_assistant_turns = 2

abbrev pub stale_tool_result_threshold : ℕ
stale_tool_result_threshold = 4000

abbrev pub stale_tool_result_keep_chars : ℕ
stale_tool_result_keep_chars = 1500

abbrev pub pruned_marker : String
pruned_marker =
    "\n…[older tool output pruned to save context — call the tool again if you still need the full content]"

abbrev pub is_mcp_dispatcher : String → Bool
is_mcp_dispatcher name = str_eq name "call_mcp_tool" || str_eq name "discover_mcp_tool"

abbrev pub is_assistant : Message → Bool
is_assistant m = str_eq m.role "assistant"

unfoldable pub assistant_count : List Message → ℕ
assistant_count [] = 0
assistant_count (m ∷ ms) = if is_assistant m then suc (assistant_count ms) else assistant_count ms

unfoldable pub prune_message : Message → Message
prune_message m =
    if not (str_eq m.role "tool")
    then m
    else if is_mcp_dispatcher m.name
    then record m { content = "[omitted]" }
    else if ltb stale_tool_result_threshold (len m.content)
    then record m {
      content = append (slice m.content 0 stale_tool_result_keep_chars) pruned_marker;
    }
    else m

-- The messages before the second assistant message from the end are stale: at least two assistant
-- messages follow them.
unfoldable pub prune_history : List Message → List Message
prune_history [] = []
prune_history (m ∷ ms) =
    if leb fresh_assistant_turns (assistant_count ms)
    then (prune_message m ∷ prune_history ms)
    else (m ∷ ms)
