-- ===== src/Workers/Roles/Examples.antt =====
-- Tests of the role tools, where the letters are those of ASCII in lower or upper case.
use headcount.Prelude.{◌≡◌, refl, String, Bool, [], ◌∷◌, if◌then◌else◌, leb, ◌&&◌, str_eq}
use Prim.Native.Char.{Char, code}
use headcount.Workers.Roles.{
  canonical_role, role_tool_names, tools_of_role, words_after, drop_agent, without_agent,
  join_words, role_of_words, add_groups, add_group, listed,
}

abbrev is_lower_case : Char → Bool
is_lower_case c = leb 97 (code c) && leb (code c) 122

abbrev trim : String → String
trim s = s

-- The two texts the tests need.
abbrev lower : String → String
lower s = if str_eq s "CEO" then "ceo" else if str_eq s "Agent" then "agent" else s

abbrev is_word_char : Char → Bool
is_word_char c = leb 65 (code c)

role_with_suffix : canonical_role is_word_char lower trim "CEO Agent" ≡ "CEO"
unfolding canonical_role words_after drop_agent without_agent join_words role_of_words
role_with_suffix = refl

key_with_suffix :
    role_tool_names is_word_char lower trim "CEO Agent" "Alice"
    ≡ "create_task" ∷ "create_subtask" ∷ "get_task" ∷ "ask_task_owner" ∷ "answer_message"
      ∷ "write_artifact" ∷ "list_artifacts" ∷ "read_artifact" ∷ "finish_task" ∷ "report_status"
      ∷ "ask_human" ∷ []
unfolding role_tool_names canonical_role words_after drop_agent without_agent join_words
    role_of_words tools_of_role add_groups add_group listed
key_with_suffix = refl

-- The role key "CEO" itself gives no list, so the whole registry, unless the name is that of a role.
plain_key : role_tool_names is_word_char lower trim "CEO" "Alice" ≡ []
unfolding role_tool_names canonical_role words_after drop_agent without_agent join_words
    role_of_words tools_of_role
plain_key = refl
