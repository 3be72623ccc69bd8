-- ===== src/Agents/Answered/Runs.antt =====
-- What a run leaves of calls without results.
use headcount.Prelude.{
  ℕ, zero, suc, ◌≡◌, refl, sym, ap, subst, ◌∙◌, String, Bool, true, false, Option, none, some, List,
  [], ◌∷◌, ◌++◌, append-nil, All, Result, ok, err, if◌then◌else◌, if_elim, str_eq, eq_iff,
}
use headcount.Agents.{ToolCall, Message, ChatRequest, Agent, Host, Session}
use headcount.Agents.Histories.Boundaries.{ids, calls_in, calls_of, results_of}
use headcount.Agents.Client.{ClientError, complete}
use headcount.Agents.Pruning.{prune_history}
use headcount.Agents.Replies.{IsPolite, Marked, complete-Marked}
use headcount.Agents.Steps.{
  Failure, hook_failed, interrupt_failed, Ending, final_answer, paused, failed, Step, stop, next,
  ◌>>=◌, M, extend, record_results, run_tools, execute_tool_calls, log_all, log_display,
}
use headcount.Agents.Rules.{After, After-bind}
use headcount.Agents.Loop.{
  check_context, hook_result, run_hook, reply_result, ask, check_pause, asks_pause, finish, respond,
  turn, turns, max_turns, last_message, replay_calls, replay, notice_message, add_notice,
  log_history, prepare, run_message_history,
}
use headcount.Agents.Resume.{last_message-append}
use headcount.Agents.Answered.{
  IsComplete, calls_left, IsStartable, IsPlain, PlainResult, PlainHook, plain-IsComplete,
  results-IsComplete, reply-waits, called, answered,
}

-- A run that pauses leaves the calls of the last message, any other leaves none.
abbrev pub Leaves : {W : Type 0} → Ending → List Message → Session W → Type 0
Leaves paused g t = IsStartable g
Leaves (final_answer text) g t = IsComplete g
Leaves (failed e) g t = IsComplete g

module _ {W : Type 0} (host : Host W) (a : Agent) where
  abbrev Completes : {A : Type 0} → (A → List Message → Type 0) → Step W A → Type 0
  Completes N x = After Leaves (λ v g t. N v g) x

  Completes-bind :
      {A B : Type 0} (N : A → List Message → Type 0) (N' : B → List Message → Type 0) (m : M W A)
      (k : A → M W B) (h : List Message) (s : Session W)
      → Completes N (m h s)
      → ((v : A) (g : List Message) (t : Session W) → N v g → Completes N' (k v g t))
      → Completes N' ((m >>= k) h s)
  Completes-bind N N' m k h s = After-bind Leaves (λ v g t. N v g) (λ v g t. N' v g) m k h s

  Completes-if :
      {A : Type 0} (N : A → List Message → Type 0) (b : Bool) (x y : Step W A)
      → Completes N x
      → Completes N y
      → Completes N (if b then x else y)
  Completes-if N true x y p q = p
  Completes-if N false x y p q = q

  abbrev Whole : Unit {0} → List Message → Type 0
  Whole u g = IsComplete g

  check_context-Completes :
      (h : List Message) (s : Session W) → IsComplete h → Completes Whole (check_context host h s)
  unfolding check_context
  check_context-Completes h s whole = Completes-if Whole (host.canceled s.world) _ _ whole whole

  run_tools-Completes :
      (m : Message) (h : List Message) (s : Session W)
      → calls_of h ≡ results_of h ++ ids m.tool_calls
      → Completes Whole (run_tools host a.terminal_tools m h s)
  unfolding run_tools record_results
  run_tools-Completes m h s waits = Completes-if Whole made.0.1 _ _ complete complete
    where
      made : (List Message × Bool) × W
      made = execute_tool_calls host a.terminal_tools s.conversation_sequence m.tool_calls s.world

      complete : IsComplete (h ++ made.0.0)
      complete =
          results-IsComplete h made.0.0 (ids m.tool_calls) waits
            (called host a.terminal_tools s.conversation_sequence m.tool_calls s.world)
            (answered host a.terminal_tools s.conversation_sequence m.tool_calls s.world)

  run_hook-Completes :
      (f : Failure) (hook : Option (List Message → W → Result String (List Message) × W))
      → PlainHook hook
      → (h : List Message) (s : Session W) → IsComplete h
      → Completes (λ ms g. All IsPlain ms × IsComplete g) (run_hook host f hook h s)
  unfolding run_hook
  run_hook-Completes f none plain h s complete = (tt, complete)
  run_hook-Completes f (some hook) plain h s complete = by_result (hook h s.world) (plain h s.world)
    where
      by_result :
          (r : Result String (List Message) × W)
          → PlainResult r.0
          → Completes (λ ms g. All IsPlain ms × IsComplete g) (hook_result host f r h s)
      by_result (ok messages, w) all = (all, complete)
      by_result (err e, w) all = complete

  no_calls : (m : Message) → m.tool_calls ≡ [] → calls_in m ≡ []
  no_calls m none_made = by_role (str_eq m.role "assistant")
    where
      by_role : (b : Bool) → (if b then ids m.tool_calls else []) ≡ []
      by_role true = ap ids none_made
      by_role false = refl

  calls_in-assistant : (m : Message) → m.role ≡ "assistant" → calls_in m ≡ ids m.tool_calls
  calls_in-assistant m role = ap (λ r. if str_eq r "assistant" then ids m.tool_calls else []) role

  module _ (polite : (req : ChatRequest) (w : W) → IsPolite (host.send req w).0)
      (plain_controls : PlainHook host.before_turn)
      (plain_interruptions : PlainHook host.interrupt) where
    respond-Completes :
        (requested : Option (W → Bool)) (m : Message) (calls : List ToolCall) (h : List Message)
        (s : Session W)
        → m.tool_calls ≡ calls
        → last_message h ≡ some m
        → calls_of h ≡ results_of h ++ calls_in m
        → calls_in m ≡ ids m.tool_calls
        → Completes Whole (respond host a.terminal_tools requested m calls h s)
    unfolding respond check_pause finish extend
    respond-Completes requested m [] h s same last waits in_m =
        Completes-bind (λ ms g. All IsPlain ms × IsComplete g) Whole
          (run_hook host interrupt_failed host.interrupt) (finish host m) h s
          (run_hook-Completes interrupt_failed host.interrupt plain_interruptions h s complete)
          by_finish
      where
        complete : IsComplete h
        complete =
            waits ∙ ap (λ l. results_of h ++ l) (in_m ∙ ap ids same) ∙ append-nil (results_of h)

        by_finish :
            (v g : List Message) (t : Session W)
            → All IsPlain v × IsComplete g
            → Completes Whole (finish host m v g t)
        by_finish [] g t p = p.1
        by_finish (i ∷ is) g t p = plain-IsComplete g (i ∷ is) p.1 p.0
    respond-Completes requested m (c ∷ calls) h s same last waits in_m =
        Completes-bind (λ u g. calls_of g ≡ results_of g ++ ids m.tool_calls) Whole
          (check_pause host requested) (λ _. run_tools host a.terminal_tools m) h s
          (Completes-if (λ u g. calls_of g ≡ results_of g ++ ids m.tool_calls)
            (asks_pause requested s.world) _ _ startable (waits ∙ ap (λ l. results_of h ++ l) in_m))
          (λ u g t p. run_tools-Completes m g t p)
      where
        startable : IsStartable h
        startable = waits ∙ ap (λ l. results_of h ++ l) (sym (ap calls_left last))

    ask-Completes :
        (effort : String) (h : List Message) (s : Session W)
        → IsComplete h
        → Completes (λ m g. (m.role ≡ "assistant") × IsComplete g) (ask host a effort h s)
    unfolding ask
    ask-Completes effort h s whole =
        by_result (complete host a.max_retries a.retry_base_delay req (log_display host s).world) (
          complete-Marked host polite a.max_retries a.retry_base_delay req
            (log_display host s).world)
      where
        req : ChatRequest
        req = record { model = a.model; messages = prune_history h; reasoning_effort = effort }

        by_result :
            (r : Result ClientError (List Message) × W)
            → Marked r.0
            → Completes
                (λ (m : Message) g. (m.role ≡ "assistant") × IsComplete g)
                (reply_result host r h (log_display host s))
        by_result (err e, w) marked = whole
        by_result (ok [], w) marked = whole
        by_result (ok (m ∷ rest), w) marked = (marked.0, whole)

    turn-Completes :
        (effort : String) (requested : Option (W → Bool)) (h : List Message) (s : Session W)
        → IsComplete h
        → Completes Whole (turn host a effort requested h s)
    unfolding turn extend
    turn-Completes effort requested h s whole =
        let answer = λ (m : Message).
          extend host (m ∷ []) >>= λ _. respond host a.terminal_tools requested m m.tool_calls in
        let asked =
          λ (controls : List Message). extend host controls >>= λ _. ask host a effort >>= answer in
        let hooked = λ (u : Unit {0}). run_hook host hook_failed host.before_turn >>= asked in
        Completes-bind Whole Whole (check_context host) hooked h s
          (check_context-Completes h s whole)
          (λ u g t p.
            Completes-bind (λ ms i. All IsPlain ms × IsComplete i) Whole
              (run_hook host hook_failed host.before_turn) asked g t
              (run_hook-Completes hook_failed host.before_turn plain_controls g t p)
              (λ controls g t p.
                Completes-bind (λ m i. (m.role ≡ "assistant") × IsComplete i) Whole
                  (ask host a effort) answer (g ++ controls) (log_all host controls t)
                  (ask-Completes effort (g ++ controls) (log_all host controls t)
                    (plain-IsComplete g controls p.1 p.0))
                  (λ m g t p.
                    respond-Completes requested m m.tool_calls (g ++ m ∷ [])
                      (log_all host (m ∷ []) t) refl (last_message-append g m)
                      (reply-waits g m p.1 p.0) (calls_in-assistant m p.0))))

    turns-Completes :
        (n : ℕ) (effort : String) (requested : Option (W → Bool)) (h : List Message) (s : Session W)
        → IsComplete h
        → Completes Whole (turns host n a effort requested h s)
    unfolding turns
    turns-Completes zero effort requested h s whole = whole
    turns-Completes (suc n) effort requested h s whole =
        Completes-bind Whole Whole (turn host a effort requested)
          (λ _. turns host n a effort requested) h s (turn-Completes effort requested h s whole)
          (λ u. turns-Completes n effort requested)

    replay-Completes :
        (o : Option Message) (h : List Message) (s : Session W)
        → calls_of h ≡ results_of h ++ calls_left o
        → Completes Whole (replay host a.terminal_tools o h s)
    unfolding replay replay_calls
    replay-Completes none h s waits = waits ∙ append-nil (results_of h)
    replay-Completes (some m) h s waits = by_calls m.tool_calls refl
      where
        nothing : calls_in m ≡ [] → IsComplete h
        nothing none_made =
            waits ∙ ap (λ l. results_of h ++ l) none_made ∙ append-nil (results_of h)

        by_calls :
            (calls : List ToolCall)
            → m.tool_calls ≡ calls
            → Completes Whole (replay_calls host a.terminal_tools m calls h s)
        by_calls [] same = nothing (no_calls m same)
        by_calls (c ∷ calls) same =
            if_elim (Completes Whole) (str_eq m.role "assistant")
              {x = run_tools host a.terminal_tools m h s} {y = next tt h s}
              (λ is. run_tools-Completes m h s (
                waits
                ∙ ap (λ l. results_of h ++ l)
                    (calls_in-assistant m ((eq_iff m.role "assistant").0 is))))
              (λ other. nothing (ap (λ b. if b then ids m.tool_calls else []) other))

    add_notice-Completes :
        (h : List Message) (s : Session W) → IsComplete h → Completes Whole (add_notice host a h s)
    unfolding add_notice extend
    add_notice-Completes h s whole =
        Completes-if Whole (str_eq a.resume_notice "") _ _ whole
          (plain-IsComplete h (notice_message a.resume_notice ∷ []) whole ((refl, refl), tt))

    -- Where the provider marks its messages as the assistant's, and the hooks give messages with
    -- neither calls nor results: a run that starts from a history in which only the calls of the last
    -- message may lack their results, in the order of the calls, ends with such a history if it
    -- pauses, and with one where no call lacks its result if it ends in any other way.
    pub run_message_history-Leaves :
        (effort : String) (requested : Option (W → Bool)) (h : List Message) (s : Session W)
        (e : Ending) (g : List Message) (t : Session W)
        → IsStartable h
        → run_message_history host a effort requested h s ≡ stop e g t
        → Leaves e g t
    unfolding run_message_history prepare log_history
    run_message_history-Leaves effort requested h s e g t startable ends =
        subst (Completes Whole) ends (
          Completes-bind Whole Whole (prepare host a) (λ _. turns host max_turns a effort requested)
            h s
            (Completes-bind Whole Whole replay_last (λ _. add_notice host a) h logged
              (replay-Completes (last_message h) h logged startable) (λ u. add_notice-Completes))
            (λ u. turns-Completes max_turns effort requested))
      where
        logged : Session W
        logged = if a.history_already_logged then s else log_all host h s

        replay_last : M W (Unit {0})
        replay_last h s = replay host a.terminal_tools (last_message h) h s
