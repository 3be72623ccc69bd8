-- ===== src/Agents/Loop.antt =====
-- engine/aicli/agent.go: the turns of the loop, and the start of a run from a history.
use headcount.Prelude.{
  ℕ, zero, suc, String, Bool, false, Option, none, some, List, [], ◌∷◌, Result, ok, err,
  if◌then◌else◌, str_eq,
}
use headcount.Agents.{
  ToolCall, Message, Mode, message_history, compact_thinking, plan_10k, Agent, Host,
}
use headcount.Agents.Client.{ClientError, complete}
use headcount.Agents.Pruning.{prune_history}
use headcount.Agents.Steps.{
  Failure, canceled, hook_failed, interrupt_failed, no_choices, too_many_turns, unsupported_mode,
  llm_failed, final_answer, paused, failed, stop, next, ◌>>=◌, M, extend, log_all, log_display,
  run_tools,
}

abbrev pub max_turns : ℕ
max_turns = 300

abbrev pub asks_pause : {W : Type 0} → Option (W → Bool) → W → Bool
asks_pause none w = false
asks_pause (some requested) w = requested w

abbrev pub last_message : List Message → Option Message
last_message [] = none
last_message (m ∷ []) = some m
last_message (m ∷ n ∷ ms) = last_message (n ∷ ms)

abbrev pub notice_message : String → Message
notice_message text = record {
  role = "system";
  content = text;
  tool_calls = [];
  tool_call_id = "";
  name = "";
}

unfoldable pub reasoning_effort : String → String
reasoning_effort level =
    if str_eq level "low"
    then "low"
    else if str_eq level "medium"
    then "medium"
    else if str_eq level "max"
    then "high"
    else ""

module _ {W : Type 0} (host : Host W) where
  unfoldable pub check_context : M W (Unit {0})
  check_context h s = if host.canceled s.world then stop (failed canceled) h s else next tt h s

  abbrev pub hook_result : Failure → Result String (List Message) × W → M W (List Message)
  hook_result failure (ok messages, w) h s = next messages h (record s { world = w })
  hook_result failure (err e, w) h s = stop (failed failure) h (record s { world = w })

  unfoldable pub run_hook :
      Failure → Option (List Message → W → Result String (List Message) × W) → M W (List Message)
  run_hook failure none h s = next [] h s
  run_hook failure (some hook) h s = hook_result failure (hook h s.world) h s

  abbrev pub reply_result : Result ClientError (List Message) × W → M W Message
  reply_result (err e, w) h s = stop (failed (llm_failed e)) h (record s { world = w })
  reply_result (ok [], w) h s =
      stop (failed no_choices) h (log_display host (record s { world = w }))
  reply_result (ok (m ∷ rest), w) h s = next m h (log_display host (record s { world = w }))

  unfoldable pub ask : Agent → String → M W Message
  ask a effort h s =
      let logged = log_display host s in
      reply_result
        (complete host a.max_retries a.retry_base_delay
          (record { model = a.model; messages = prune_history h; reasoning_effort = effort })
          logged.world)
        h logged

  unfoldable pub check_pause : Option (W → Bool) → M W (Unit {0})
  check_pause requested h s = if asks_pause requested s.world then stop paused h s else next tt h s

  -- A reply with no call ends the run, unless the host interrupts.
  unfoldable pub finish : Message → List Message → M W (Unit {0})
  finish m [] h s = stop (final_answer (host.trim m.content)) h s
  finish m (i ∷ interruptions) h s = extend host (i ∷ interruptions) h s

  unfoldable pub respond :
      List String → Option (W → Bool) → Message → List ToolCall → M W (Unit {0})
  respond terminal requested m [] = run_hook interrupt_failed host.interrupt >>= finish m
  respond terminal requested m (c ∷ calls) =
      check_pause requested >>= λ _. run_tools host terminal m

  unfoldable pub turn : Agent → String → Option (W → Bool) → M W (Unit {0})
  turn a effort requested = do
    _ ← check_context
    controls ← run_hook hook_failed host.before_turn
    _ ← extend host controls
    m ← ask a effort
    _ ← extend host (m ∷ [])
    respond a.terminal_tools requested m m.tool_calls

  unfoldable pub turns : ℕ → Agent → String → Option (W → Bool) → M W (Unit {0})
  turns zero a effort requested h s = stop (failed too_many_turns) h s
  turns (suc n) a effort requested h s = elim (turn a effort requested h s) [
    | stop e h' s' ↦ stop e h' s'
    | next _ h' s' ↦ turns n a effort requested h' s'
  ]

  -- A message whose calls were left pending by a pause.
  unfoldable pub replay_calls : List String → Message → List ToolCall → M W (Unit {0})
  replay_calls terminal m [] h s = next tt h s
  replay_calls terminal m (c ∷ calls) h s =
      if str_eq m.role "assistant" then run_tools host terminal m h s else next tt h s

  unfoldable pub replay : List String → Option Message → M W (Unit {0})
  replay terminal none h s = next tt h s
  replay terminal (some m) h s = replay_calls terminal m m.tool_calls h s

  unfoldable pub add_notice : Agent → M W (Unit {0})
  add_notice a h s =
      if str_eq a.resume_notice ""
      then next tt h s
      else extend host (notice_message a.resume_notice ∷ []) h s

  unfoldable pub log_history : Agent → M W (Unit {0})
  log_history a h s = next tt h (if a.history_already_logged then s else log_all host h s)

  unfoldable pub prepare : Agent → M W (Unit {0})
  prepare a = do
    _ ← log_history a
    _ ← (λ h s. replay a.terminal_tools (last_message h) h s)
    add_notice a

  unfoldable pub run_message_history : Agent → String → Option (W → Bool) → M W (Unit {0})
  run_message_history a effort requested = prepare a >>= λ _. turns max_turns a effort requested

  unfoldable pub run_mode : Agent → Mode → M W (Unit {0})
  run_mode a message_history = run_message_history a "" host.pause_requested
  run_mode a compact_thinking =
      run_message_history a (reasoning_effort a.reasoning_level) host.pause_requested
  run_mode a plan_10k = λ h s. stop (failed unsupported_mode) h s

  unfoldable pub run_with_history : Agent → M W (Unit {0})
  run_with_history a = run_mode a a.mode

abbrev pub system_message : String → Message
system_message text = record {
  role = "system";
  content = text;
  tool_calls = [];
  tool_call_id = "";
  name = "";
}

-- `BuildHistory`
unfoldable pub build_history : String → List Message → List Message
build_history system_prompt messages =
    if str_eq system_prompt "" then messages else (system_message system_prompt ∷ messages)
