-- ===== src/Agents/Examples.antt =====
-- A run with one call of a tool. The world counts the requests; the provider asks for the shell first
-- and answers then.
use headcount.Prelude.{
  ℕ, suc, ◌+◌, ◌≤◌, ◌*◌, ◌≡◌, ◌≢◌, refl, sym, eq_iff, append-nil, String, Bool, true, false, Option,
  none, some, List, [], ◌∷◌, ◌++◌, ok, if◌then◌else◌, if_elim, ◌==◌, str_eq, append, arith, inl,
}
use headcount.Workers.{get_tool}
use headcount.Agents.{
  ToolCall, Message, ChatRequest, Reply, received, message_history, Agent, Host, Session,
}
use headcount.Agents.Client.{
  judge_error, judge_body, judge, do_request, back_off, settle, attempts_from, complete,
}
use headcount.Agents.Pruning.{assistant_count, prune_history}
use headcount.Agents.Histories.{
  LogLine, load_lines, load_message_history, scan_message, scan_lines, scan_line, scan_sequence,
  pending_after, add_calls, remove, load_safe_message_history,
}
use headcount.Agents.Histories.Scans.{IsBoundary}
use headcount.Agents.Histories.Forks.{messages_upto, load_safe_message_history-IsBoundary}
use headcount.Agents.Replies.{IsPolite}
use headcount.Agents.Steps.{
  Ending, final_answer, paused, Step, stop, next, cap_output, text_of, log_conversation_message,
  log_all, write_all, log_display, extend, execute_tool, execute_tool_calls, record_results,
  run_tools,
}
use headcount.Agents.Loop.{
  check_context, run_hook, ask, check_pause, finish, respond, turn, turns, replay, replay_calls,
  add_notice, log_history, prepare, run_message_history,
}
use headcount.Agents.Resume.Restart.{restored, run_message_history-resumes}
use headcount.Agents.Trail.{lines_of}
use headcount.Agents.Trail.Checkpoints.{load_message_history-run_message_history}
use headcount.Agents.Answered.Runs.{Leaves, run_message_history-Leaves}
use headcount.Agents.Requests.{Counts}
use headcount.Agents.Requests.Bounds.{run_message_history-ends}

abbrev shell_call : ToolCall
shell_call = record { id = "c1"; name = "bash"; arguments = "{}" }

abbrev text_message : String → String → Message
text_message role content = record {
  role = role;
  content = content;
  tool_calls = [];
  tool_call_id = "";
  name = "";
}

abbrev asking : Message
asking = record {
  role = "assistant";
  content = "";
  tool_calls = shell_call ∷ [];
  tool_call_id = "";
  name = "";
}

abbrev answering : Message
answering = text_message "assistant" "done"

abbrev shell_result : Message
shell_result = record {
  role = "tool";
  content = "ok";
  tool_calls = [];
  tool_call_id = "c1";
  name = "bash";
}

abbrev reply : ℕ → Reply
reply n =
    received 200
      (some (record { choices = (if n == 0 then asking else answering) ∷ []; error = none }))

-- The texts of the four messages, and back.
abbrev encode : Message → String
encode m = append m.role m.content

abbrev host : Host ℕ
host = record {
  canceled = λ w. false;
  send = λ req w. (reply w, suc w);
  sleep = λ d w. w;
  registry = λ w. record { tools = record { name = "bash"; description = "" } ∷ [] };
  execute = λ tool limit n args w. (ok "ok", w);
  before_turn = none;
  interrupt = none;
  pause_requested = none;
  display = λ w. ("request", "") ∷ [];
  encode = encode;
  trim = λ s. s;
  lower = λ s. s;
  contains = λ s t. str_eq s t;
}

host-IsPolite : (req : ChatRequest) (w : ℕ) → IsPolite (host.send req w).0
host-IsPolite req w = (
  if_elim (λ m. m.role ≡ "assistant") (w == 0) {x = asking} {y = answering} (λ e. refl) (λ e. refl),
  tt,
)

abbrev agent : Agent
agent = record {
  model = "m";
  max_retries = 3;
  retry_base_delay = 0;
  mode = message_history;
  reasoning_level = "";
  resume_notice = "";
  history_already_logged = false;
  terminal_tools = [];
}

abbrev fresh : Session ℕ
fresh = record { world = 0; entries = []; next_seq = 1; conversation_sequence = 0 }

abbrev opening : List Message
opening = text_message "user" "go" ∷ []

abbrev always : Option (ℕ → Bool)
always = some (λ w. true)

abbrev straight : Step ℕ (Unit {0})
straight = run_message_history host agent "" none opening fresh

abbrev interrupted : Step ℕ (Unit {0})
interrupted = run_message_history host agent "" always opening fresh

abbrev history_in : Step ℕ (Unit {0}) → List Message
history_in (stop e h s) = h
history_in (next u h s) = h

abbrev session_in : Step ℕ (Unit {0}) → Session ℕ
session_in (stop e h s) = s
session_in (next u h s) = s

asked_first : history_in interrupted ≡ opening ++ asking ∷ []
unfolding run_message_history prepare log_history replay replay_calls add_notice turns turn
    check_context run_hook extend ask respond check_pause finish log_display write_all log_all
    log_conversation_message complete attempts_from settle do_request back_off judge judge_body
    judge_error run_tools record_results execute_tool_calls execute_tool cap_output text_of get_tool
    prune_history assistant_count
asked_first = refl

run_message_history-resumes_example :
    run_message_history host
      (restored agent)
      ""
      none
      (history_in interrupted)
      (session_in interrupted)
    ≡ stop (final_answer "done") (history_in straight) (session_in straight)
unfolding run_message_history prepare log_history replay replay_calls add_notice turns turn
    check_context run_hook extend ask respond check_pause finish log_display write_all log_all
    log_conversation_message complete attempts_from settle do_request back_off judge judge_body
    judge_error run_tools record_results execute_tool_calls execute_tool cap_output text_of get_tool
    prune_history assistant_count
run_message_history-resumes_example =
    run_message_history-resumes host agent "" host-IsPolite always opening fresh
      (history_in interrupted) (session_in interrupted) (final_answer "done") (history_in straight)
      (session_in straight) refl refl (λ e. cc)

-- It reads the messages of the run.
abbrev decode : String → Option Message
decode text =
    if str_eq text "usergo"
    then some (text_message "user" "go")
    else if str_eq text "assistant"
    then some asking
    else if str_eq text "toolok"
    then some shell_result
    else some answering

display_is_other : ◌≢◌ {A = String} "request" "message"
display_is_other e = let equal : ◌≡◌ {A = Bool} false true = (eq_iff "request" "message").1 e in cc

load_message_history-run_message_history_example :
    load_message_history decode
      (some (
        lines_of (session_in straight).entries
        ++ some (record { kind = "outcome"; seq = some 99; content = none }) ∷ []))
      (session_in straight).conversation_sequence
    ≡ ok (history_in straight)
unfolding run_message_history prepare log_history replay replay_calls add_notice turns turn
    check_context run_hook extend ask respond check_pause finish log_display write_all log_all
    log_conversation_message complete attempts_from settle do_request back_off judge judge_body
    judge_error run_tools record_results execute_tool_calls execute_tool cap_output text_of get_tool
    prune_history assistant_count load_lines
load_message_history-run_message_history_example =
    load_message_history-run_message_history decode host agent (λ w. (display_is_other, tt)) "" none
      opening fresh (final_answer "done") (history_in straight) (session_in straight)
      (some (record { kind = "outcome"; seq = some 99; content = none }) ∷ [])
      (omega arith, inl refl, λ all c le n acc. (acc, refl, sym (append-nil acc.history))) refl
      (λ e. cc) (refl, (refl, (refl, (refl, tt)))) (inl refl, tt)

run_message_history-Leaves_example : Leaves paused (history_in interrupted) (session_in interrupted)
unfolding run_message_history prepare log_history replay replay_calls add_notice turns turn
    check_context run_hook extend ask respond check_pause finish log_display write_all log_all
    log_conversation_message complete attempts_from settle do_request back_off judge judge_body
    judge_error run_tools record_results execute_tool_calls execute_tool cap_output text_of get_tool
    prune_history assistant_count
run_message_history-Leaves_example =
    run_message_history-Leaves host agent host-IsPolite tt tt "" always opening fresh paused
      (history_in interrupted) (session_in interrupted) refl refl

host-Counts : Counts host (λ w. w)
host-Counts = record {
  one_each = λ req w. omega arith;
  sleep_quiet = λ d w. omega arith;
  execute_quiet = λ tool limit n args w. omega arith;
  controls_quiet = tt;
  interruptions_quiet = tt;
}

run_message_history-ends_example :
    (e : Ending) × (g : List Message) × (t : Session ℕ) × (run_message_history host agent "" always
        opening fresh
      ≡ stop e g t)
    × (t.world ≤ 0 + 300 * 4)
run_message_history-ends_example =
    run_message_history-ends host agent (λ w. w) host-Counts "" always opening fresh

abbrev file : List (Option LogLine)
file =
    some (record { kind = "message"; seq = some 1; content = some "usergo" })
    ∷ some (record { kind = "message"; seq = some 2; content = some "assistant" })
    ∷ some (record { kind = "message"; seq = some 3; content = some "toolok" })
    ∷ []

-- The answer to the call is the third message, so a fork at the second one starts from the first.
load_safe_message_history-IsBoundary_example :
    IsBoundary (messages_upto decode 2 file) (text_message "user" "go" ∷ [])
unfolding load_safe_message_history scan_lines scan_line scan_sequence scan_message pending_after
    add_calls remove
load_safe_message_history-IsBoundary_example =
    load_safe_message_history-IsBoundary decode 2 file (text_message "user" "go" ∷ []) 1 refl
