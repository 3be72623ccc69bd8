-- ===== src/Agents/Steps.antt =====
-- engine/aicli/agent.go: the steps of the loop, its log and its tools. A step works on the history and
-- the session and hands a value on, or it stops the run. Left out: the token statistics and the run
-- log, which goroutines write on the side, the number of the turn in the texts of errors, writes to the
-- log that fail, and the lines of other producers. What is logged for display besides the messages is a
-- function of the world.
use headcount.Prelude.{
  ℕ, suc, String, Bool, true, false, ◌||◌, Option, none, some, List, [], ◌∷◌, ◌++◌, Result, ok, err,
  if◌then◌else◌, ltb, str_eq, slice, len, append,
}
use headcount.Workers.{Tool, get_tool}
use headcount.Agents.{ToolCall, Message, Host, Session}
use headcount.Agents.Client.{ClientError}

pub data Failure : Type 0 where
  canceled hook_failed interrupt_failed no_choices too_many_turns unsupported_mode : Failure
  llm_failed : ClientError → Failure

pub data Ending : Type 0 where
  final_answer : String → Ending
  paused : Ending
  failed : Failure → Ending

pub data Step (W A : Type 0) : Type 0 where
  stop : Ending → List Message → Session W → Step W A
  next : A → List Message → Session W → Step W A

abbrev pub max_tool_output_chars : ℕ
max_tool_output_chars = 60_000

-- Ten minutes.
abbrev pub tool_call_timeout : ℕ
tool_call_timeout = 600_000_000_000

abbrev pub is_blocking : String → Bool
is_blocking name =
    str_eq name "ask_human"
    || str_eq name "create_subtask"
    || str_eq name "ask_task_owner"
    || str_eq name "browser_use"

abbrev pub listed : String → List String → Bool
listed name [] = false
listed name (x ∷ xs) = str_eq x name || listed name xs

unfoldable pub cap_output : String → String → String
cap_output name output =
    if ltb max_tool_output_chars (len output)
    then append (slice output 0 max_tool_output_chars) (
        append "\n…[output truncated at 60000 chars — re-run "
          (append name " with a narrower query to see more]"))
    else output

unfoldable pub text_of : Result String String → String
text_of (ok output) = output
text_of (err e) = append "error: " e

abbrev pub is_ok : Result String String → Bool
is_ok (ok output) = true
is_ok (err e) = false

abbrev pub tool_message : ToolCall → String → Message
tool_message c output = record {
  role = "tool";
  content = output;
  tool_calls = [];
  tool_call_id = c.id;
  name = c.name;
}

abbrev pub M : Type 0 → Type 0 → Type 0
M W A = List Message → Session W → Step W A

module _ {W A B : Type 0} where
  infixl 5 ◌>>=◌
  abbrev pub ◌>>=◌ :
      (List Message → Session W → Step W A)
      → (A → List Message → Session W → Step W B)
      → List Message
      → Session W
      → Step W B
  ◌>>=◌ m f h s = elim (m h s) [ stop e h' s' ↦ stop e h' s' | next a h' s' ↦ f a h' s' ]

module _ {W : Type 0} (host : Host W) where
  -- `makeEntry` and `logEntry`, with a log file that is open and takes every line.
  abbrev pub write_entry : String → String → Session W → Session W
  write_entry kind content s = record s {
    entries = s.entries ++ record { kind = kind; seq = s.next_seq; content = content } ∷ [];
    next_seq = suc s.next_seq;
  }

  unfoldable pub log_conversation_message : Message → Session W → Session W
  log_conversation_message m s = record (write_entry "message" (host.encode m) s) {
    conversation_sequence = s.next_seq;
  }

  unfoldable pub log_all : List Message → Session W → Session W
  log_all [] s = s
  log_all (m ∷ ms) s = log_all ms (log_conversation_message m s)

  -- `LogRequest`, `LogResponse` and `LogToolResultsFromRequest`
  unfoldable pub write_all : List (String × String) → Session W → Session W
  write_all [] s = s
  write_all ((kind, content) ∷ rest) s = write_all rest (write_entry kind content s)

  unfoldable pub log_display : Session W → Session W
  log_display s = write_all (host.display s.world) s

  -- Messages go to the history and to the log.
  unfoldable pub extend : List Message → M W (Unit {0})
  extend ms h s = next tt (h ++ ms) (log_all ms s)

  unfoldable pub execute_tool : ℕ → ToolCall → Option Tool → W → Result String String × W
  execute_tool sequence c none w = (err (append "unknown tool: " c.name), w)
  execute_tool sequence c (some tool) w =
      host.execute tool (if is_blocking c.name then none else some tool_call_timeout) sequence
        c.arguments w

  -- The results of the calls, and whether a terminal tool succeeded.
  unfoldable pub execute_tool_calls :
      List String → ℕ → List ToolCall → W → (List Message × Bool) × W
  execute_tool_calls terminal sequence [] w = (([], false), w)
  execute_tool_calls terminal sequence (c ∷ rest) w =
      let (output, w1) = execute_tool sequence c (get_tool c.name (host.registry w)) w in
      let ((messages, done), w2) = execute_tool_calls terminal sequence rest w1 in
      (
        (
          tool_message c (cap_output c.name (text_of output)) ∷ messages,
          (if is_ok output then listed c.name terminal else false) || done,
        ),
        w2,
      )

  -- The results are logged, and the run stops after a terminal tool.
  unfoldable pub record_results : Message → (List Message × Bool) × W → M W (Unit {0})
  record_results m ((results, done), w) h s =
      let s' = log_all results (log_display (record s { world = w })) in
      if done
      then stop (final_answer (host.trim m.content)) (h ++ results) s'
      else next tt (h ++ results) s'

  unfoldable pub run_tools : List String → Message → M W (Unit {0})
  run_tools terminal m h s =
      record_results m (execute_tool_calls terminal s.conversation_sequence m.tool_calls s.world) h
        s
