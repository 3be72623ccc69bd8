-- ===== src/Workers/Roles.antt =====
-- engine/agentconfig/roles.go and engine/tool_policy.go: the built-in roles and the tools of an agent
-- of a role. `is_word_char` stands for `unicode.IsLetter` or `unicode.IsDigit`, `lower` and `trim` for
-- `strings.ToLower` and `strings.TrimSpace`.
mod Examples
use headcount.Prelude.{
  String, Bool, true, false, List, [], ◌∷◌, ◌++◌, if◌then◌else◌, str_eq, append, ◌||◌,
}
use Prim.Native.String as Str
use Prim.Native.Char.{Char}

abbrev basic_tools : List String
basic_tools = "bash" ∷ "read" ∷ "write" ∷ "ls" ∷ "grep" ∷ "web_fetch" ∷ "browser_use" ∷ []

abbrev artifact_tools : List String
artifact_tools = "write_artifact" ∷ "list_artifacts" ∷ "read_artifact" ∷ []

abbrev task_tools : List String
task_tools = "create_task" ∷ "create_subtask" ∷ "get_task" ∷ []

abbrev messaging_tools : List String
messaging_tools = "ask_task_owner" ∷ "answer_message" ∷ []

abbrev agent_lifecycle_tools : List String
agent_lifecycle_tools = "finish_task" ∷ "report_status" ∷ []

abbrev worker_control_tools : List String
worker_control_tools = "run_worker" ∷ "worker_list" ∷ "get_worker_info" ∷ "stop_worker" ∷ []

abbrev qa_tools : List String
qa_tools = "read" ∷ "ls" ∷ "grep" ∷ "bash" ∷ "web_fetch" ∷ "browser_use" ∷ []

abbrev read_only_tools : List String
read_only_tools = "read" ∷ "ls" ∷ "grep" ∷ []

abbrev implementation_tools : List String
implementation_tools = "read" ∷ "write" ∷ "bash" ∷ "ls" ∷ "grep" ∷ "codegraph_*" ∷ []

abbrev content_tools : List String
content_tools = "read" ∷ "web_fetch" ∷ []

-- What is common to the agents of every built-in role.
abbrev common_tools : List String
common_tools = messaging_tools ++ artifact_tools ++ agent_lifecycle_tools

unfoldable listed : String → List String → Bool
listed name [] = false
listed name (x ∷ xs) = str_eq x name || listed name xs

-- The names of a group that are not seen yet are added after those that are.
unfoldable add_group : List String → List String → List String
add_group [] seen = seen
add_group (x ∷ xs) seen = add_group xs (if listed x seen then seen else (seen ++ x ∷ []))

unfoldable add_groups : List (List String) → List String → List String
add_groups [] seen = seen
add_groups (g ∷ gs) seen = add_groups gs (add_group g seen)

abbrev base : List (List String) → List String
base groups = add_groups groups []

unfoldable tools_of_role : String → List String
tools_of_role role =
    if str_eq role "CEO"
    then base (task_tools ∷ common_tools ∷ ("ask_human" ∷ []) ∷ [])
    else if str_eq role "CTO"
    then base (read_only_tools ∷ common_tools ∷ worker_control_tools ∷ ("codegraph_*" ∷ []) ∷ [])
    else if str_eq role "CMO"
    then base (content_tools ∷ common_tools ∷ worker_control_tools ∷ [])
    else if str_eq role "Coder" || str_eq role "Debugger"
    then base (implementation_tools ∷ common_tools ∷ [])
    else if str_eq role "QA"
    then base (qa_tools ∷ common_tools ∷ [])
    else if str_eq role "Designer"
        || str_eq role "SMM"
        || str_eq role "PPC Specialist"
        || str_eq role "Post Writer"
    then base (content_tools ∷ common_tools ∷ [])
    else []

abbrev flush : (String → String) → String → List String → List String
flush lower current rest = if str_eq current "" then rest else (lower current ∷ rest)

unfoldable without_agent : List String → List String
without_agent [] = []
without_agent (w ∷ []) = if str_eq w "agent" then [] else (w ∷ [])
without_agent (w ∷ v ∷ rest) = w ∷ without_agent (v ∷ rest)

-- The last of several words is dropped if it is "agent".
unfoldable drop_agent : List String → List String
drop_agent [] = []
drop_agent (w ∷ rest) = w ∷ without_agent rest

unfoldable join_words : List String → String
join_words [] = ""
join_words (w ∷ []) = w
join_words (w ∷ v ∷ rest) = append w (append " " (join_words (v ∷ rest)))

unfoldable role_of_words : String → String → String
role_of_words words otherwise =
    if str_eq words "ceo" || str_eq words "chief executive officer"
    then "CEO"
    else if str_eq words "cto" || str_eq words "chief technology officer"
    then "CTO"
    else if str_eq words "cmo" || str_eq words "chief marketing officer"
    then "CMO"
    else if str_eq words "coder"
    then "Coder"
    else if str_eq words "qa" || str_eq words "quality assurance"
    then "QA"
    else otherwise

module _ (is_word_char : Char → Bool) (lower : String → String) where
  unfoldable words_after : String → String → List String
  words_after current String.[] = flush lower current []
  words_after current (String.◌∷◌ c s) =
      let inside = words_after (append current (String.◌∷◌ c String.[])) s in
      let outside = words_after "" s in
      if is_word_char c then inside else flush lower current outside

module _ (is_word_char : Char → Bool) (lower trim : String → String) where
  unfoldable canonical_role : String → String
  canonical_role value =
      role_of_words (join_words (drop_agent (words_after is_word_char lower "" (trim value))))
        (trim value)

  -- The role by the key, and by the name where the key is its own canonical form or empty.
  unfoldable role_tool_names : String → String → List String
  role_tool_names role_key name =
      let role = canonical_role role_key in
      tools_of_role (if str_eq role role_key || str_eq role "" then canonical_role name else role)

module _ (is_word_char : Char → Bool) (lower trim : String → String)
    (equal_fold : String → String → Bool) where
  unfoldable role_matches : String → String → String → Bool
  role_matches role_key name requested =
      let want = canonical_role is_word_char lower trim requested in
      equal_fold (canonical_role is_word_char lower trim role_key) want
      || equal_fold (canonical_role is_word_char lower trim name) want

  unfoldable worker_default_for_role : String → Bool
  worker_default_for_role role_key =
      let role = canonical_role is_word_char lower trim role_key in
      str_eq role "CEO" || str_eq role "CTO" || str_eq role "CMO"

  unfoldable agent_can_use_workers : Bool → String → String → Bool
  agent_can_use_workers opted_in role_key name =
      opted_in
      || worker_default_for_role role_key
      || role_matches role_key name "CEO"
      || role_matches role_key name "CTO"
      || role_matches role_key name "CMO"
