-- ===== src/Agents/Answered.antt =====
-- Every call of a tool has its result in the history, in the order of the calls.
pub mod Runs
use headcount.Prelude.{
  ℕ, zero, suc, ◌≡◌, refl, sym, ap, subst, ◌∙◌, String, Bool, true, false, Option, none, some, List,
  [], ◌∷◌, ◌++◌, append-nil, append_assoc, All, Result, ok, err, if◌then◌else◌, if_elim, str_eq,
  eq_iff, Bool-cases, inl, inr, arith,
}
use headcount.Workers.{get_tool}
use headcount.Agents.{ToolCall, Message, ChatRequest, Agent, Host, Session}
use headcount.Agents.Client.{ClientError, complete}
use headcount.Agents.Pruning.{prune_history}
use headcount.Agents.Histories.Boundaries.{
  ids, calls_in, results_in, calls_of, results_of, calls_of-append, results_of-append,
}
use headcount.Agents.Replies.{IsPolite, Marked, complete-Marked}
use headcount.Agents.Steps.{
  Failure, canceled, hook_failed, interrupt_failed, Ending, final_answer, paused, failed, Step,
  stop, next, ◌>>=◌, M, extend, record_results, run_tools, execute_tool, execute_tool_calls,
  log_all, log_display,
}
use headcount.Agents.Rules.{After, After-bind}
use headcount.Agents.Loop.{
  check_context, hook_result, run_hook, reply_result, ask, check_pause, asks_pause, finish, respond,
  turn, turns, max_turns, last_message, replay_calls, replay, add_notice, log_history, prepare,
  run_message_history,
}

abbrev pub IsComplete : List Message → Type 0
IsComplete h = calls_of h ≡ results_of h

abbrev pub calls_left : Option Message → List String
calls_left none = []
calls_left (some m) = calls_in m

-- Only the calls of the last message may wait.
abbrev pub IsStartable : List Message → Type 0
IsStartable h = calls_of h ≡ results_of h ++ calls_left (last_message h)

-- A message with neither calls nor results.
abbrev pub IsPlain : Message → Type 0
IsPlain m = (calls_in m ≡ []) × (results_in m ≡ [])

abbrev pub PlainResult : Result String (List Message) → Type 0
PlainResult (ok messages) = All IsPlain messages
PlainResult (err e) = Unit

abbrev pub PlainHook :
    {W : Type 0} → Option (List Message → W → Result String (List Message) × W) → Type 0
PlainHook none = Unit
PlainHook {W} (some hook) = (h : List Message) (w : W) → PlainResult (hook h w).0

plain_calls : (ms : List Message) → All IsPlain ms → calls_of ms ≡ []
plain_calls [] all = refl
plain_calls (m ∷ ms) all = let rest = plain_calls ms all.1 in rw all.0.0 rest

plain_results : (ms : List Message) → All IsPlain ms → results_of ms ≡ []
plain_results [] all = refl
plain_results (m ∷ ms) all = let rest = plain_results ms all.1 in rw all.0.1 rest

pub plain-IsComplete : (h ms : List Message) → IsComplete h → All IsPlain ms → IsComplete (h ++ ms)
plain-IsComplete h ms complete all =
    calls_of-append h ms
    ∙ ap (λ l. calls_of h ++ l) (plain_calls ms all)
    ∙ ap (λ l. l ++ []) complete
    ∙ ap (λ l. results_of h ++ l) (sym (plain_results ms all))
    ∙ sym (results_of-append h ms)

-- The results of calls complete a history that waits for them.
pub results-IsComplete :
    (h ms : List Message) (waiting : List String)
    → calls_of h ≡ results_of h ++ waiting
    → calls_of ms ≡ []
    → results_of ms ≡ waiting
    → IsComplete (h ++ ms)
results-IsComplete h ms waiting waits none_called answered =
    calls_of-append h ms
    ∙ ap (λ l. calls_of h ++ l) none_called
    ∙ append-nil (calls_of h)
    ∙ waits
    ∙ ap (λ l. results_of h ++ l) (sym answered)
    ∙ sym (results_of-append h ms)

pub reply-waits :
    (h : List Message) (m : Message)
    → IsComplete h
    → m.role ≡ "assistant"
    → calls_of (h ++ m ∷ []) ≡ results_of (h ++ m ∷ []) ++ calls_in m
reply-waits h m complete role =
    let no_result : results_in m ≡ [] =
      ap (λ r. if str_eq r "tool" then m.tool_call_id ∷ [] else []) role in
    calls_of-append h (m ∷ [])
    ∙ ap (λ l. calls_of h ++ l) (append-nil (calls_in m))
    ∙ ap (λ l. l ++ calls_in m)
        (complete
          ∙ sym (append-nil (results_of h))
          ∙ ap (λ l. results_of h ++ l) (sym (ap (λ l. l ++ []) no_result))
          ∙ sym (results_of-append h (m ∷ [])))

module _ {W : Type 0} (host : Host W) where
  pub called :
      (terminal : List String) (n : ℕ) (calls : List ToolCall) (w : W)
      → calls_of (execute_tool_calls host terminal n calls w).0.0 ≡ []
  unfolding execute_tool_calls
  called terminal n [] w = refl
  called terminal n (c ∷ calls) w =
      called terminal n calls (execute_tool host n c (get_tool c.name (host.registry w)) w).1

  pub answered :
      (terminal : List String) (n : ℕ) (calls : List ToolCall) (w : W)
      → results_of (execute_tool_calls host terminal n calls w).0.0 ≡ ids calls
  unfolding execute_tool_calls
  answered terminal n [] w = refl
  answered terminal n (c ∷ calls) w =
      ap (λ l. c.id ∷ l)
        (answered terminal n calls (execute_tool host n c (get_tool c.name (host.registry w)) w).1)
