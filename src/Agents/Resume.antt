-- ===== src/Agents/Resume.antt =====
-- A turn that is stopped at a safe point and replayed.
pub mod Restart
use headcount.Prelude.{
  ℕ, zero, suc, ◌+◌, ◌≤◌, ◌<◌, ◌≡◌, ◌≢◌, refl, sym, ap, ◌∙◌, String, Bool, true, false, Option,
  none, some, List, [], ◌∷◌, ◌++◌, Result, ok, err, if◌then◌else◌, if_elim, if_true, str_eq, arith,
  eq_iff,
}
use headcount.Agents.{ToolCall, Message, ChatRequest, Agent, Host, Session}
use headcount.Agents.Client.{ClientError, complete}
use headcount.Agents.Replies.{IsPolite, Marked, complete-Marked}
use headcount.Agents.Pruning.{prune_history}
use headcount.Agents.Steps.{
  Failure, canceled, hook_failed, interrupt_failed, too_many_turns, Ending, final_answer, paused,
  failed, Step, stop, next, ◌>>=◌, M, extend, record_results, run_tools, log_display, log_all,
  execute_tool_calls,
}
use headcount.Agents.Loop.{
  check_context, hook_result, run_hook, reply_result, ask, check_pause, asks_pause, finish, respond,
  turn, prepare, last_message, replay_calls, replay, add_notice, log_history, run_message_history,
}

abbrev pub GoesOn : Ending → Type 0
GoesOn paused = ⊥
GoesOn (final_answer text) = Unit
GoesOn (failed e) = Unit

module _ {W A : Type 0} where
  -- The step does not pause, and what it hands on satisfies the predicate.
  abbrev pub Ensures : (A → List Message → Session W → Type 0) → Step W A → Type 0
  Ensures Post (stop e h s) = GoesOn e
  Ensures Post (next a h s) = Post a h s

abbrev pub Any : {W A : Type 0} → A → List Message → Session W → Type 0
Any a h s = Unit

pub last_message-append : (h : List Message) (m : Message) → last_message (h ++ m ∷ []) ≡ some m
last_message-append [] m = refl
last_message-append (x ∷ []) m = refl
last_message-append (x ∷ y ∷ h) m = last_message-append (y ∷ h) m

module _ {W : Type 0} (host : Host W) (a : Agent) where
  -- A pause is followed by the calls that it left pending; all else stays.
  abbrev pub after_pause : Step W (Unit {0}) → Step W (Unit {0})
  after_pause (stop paused h s) = replay host a.terminal_tools (last_message h) h s
  after_pause (stop (final_answer text) h s) = stop (final_answer text) h s
  after_pause (stop (failed e) h s) = stop (failed e) h s
  after_pause (next u h s) = next u h s

  after_pause_bind :
      {A : Type 0} (Post : A → List Message → Session W → Type 0) (m : M W A)
      (k k' : A → M W (Unit {0})) (h : List Message) (s : Session W)
      → Ensures Post (m h s)
      → ((v : A) (g : List Message) (t : Session W) → Post v g t → k v g t ≡ after_pause (k' v g t))
      → (m >>= k) h s ≡ after_pause ((m >>= k') h s)
  after_pause_bind {A} Post m k k' h s e rest = by_step (m h s) e
    where
      by_step :
          (x : Step W A)
          → Ensures Post x
          → ◌≡◌ {A = Step W (Unit {0})}
              (elim x [ stop e h' s' ↦ stop e h' s' | next v h' s' ↦ k v h' s' ])
              (after_pause (elim x [ stop e h' s' ↦ stop e h' s' | next v h' s' ↦ k' v h' s' ]))
      by_step (stop paused g t) bad = absurd bad
      by_step (stop (final_answer text) g t) good = refl
      by_step (stop (failed f) g t) good = refl
      by_step (next v g t) post = rest v g t post

  -- What does not pause stays.
  keeps : (x : Step W (Unit {0})) → Ensures Any x → x ≡ after_pause x
  keeps (stop paused g t) bad = absurd bad
  keeps (stop (final_answer text) g t) good = refl
  keeps (stop (failed f) g t) good = refl
  keeps (next v g t) good = refl

  check_context_goes : (h : List Message) (s : Session W) → Ensures Any (check_context host h s)
  unfolding check_context
  check_context_goes h s =
      if_elim (Ensures Any) (host.canceled s.world) {x = stop (failed canceled) h s}
        {y = next tt h s} (λ t. tt) (λ t. tt)

  run_hook_goes :
      (f : Failure) (hook : Option (List Message → W → Result String (List Message) × W))
      (h : List Message) (s : Session W)
      → Ensures Any (run_hook host f hook h s)
  unfolding run_hook
  run_hook_goes f none h s = tt
  run_hook_goes f (some hook) h s = by_result (hook h s.world)
    where
      by_result : (r : Result String (List Message) × W) → Ensures Any (hook_result host f r h s)
      by_result (ok messages, w) = tt
      by_result (err e, w) = tt

  run_tools_goes :
      (m : Message) (h : List Message) (s : Session W)
      → Ensures Any (run_tools host a.terminal_tools m h s)
  unfolding run_tools record_results
  run_tools_goes m h s =
      by_results
        (execute_tool_calls host a.terminal_tools s.conversation_sequence m.tool_calls s.world)
    where
      by_results : (r : (List Message × Bool) × W) → Ensures Any (record_results host m r h s)
      by_results ((results, true), w) = tt
      by_results ((results, false), w) = tt

  replay_goes :
      (o : Option Message) (h : List Message) (s : Session W)
      → Ensures Any (replay host a.terminal_tools o h s)
  unfolding replay replay_calls
  replay_goes none h s = tt
  replay_goes (some m) h s = by_calls m.tool_calls
    where
      by_calls :
          (calls : List ToolCall) → Ensures Any (replay_calls host a.terminal_tools m calls h s)
      by_calls [] = tt
      by_calls (c ∷ calls) =
          if_elim (Ensures Any) (str_eq m.role "assistant")
            {x = run_tools host a.terminal_tools m h s} {y = next tt h s}
            (λ t. run_tools_goes m h s) (λ t. tt)

  add_notice_goes : (h : List Message) (s : Session W) → Ensures Any (add_notice host a h s)
  unfolding add_notice extend
  add_notice_goes h s = if_elim (Ensures Any) (str_eq a.resume_notice "") (λ t. tt) (λ t. tt)

  pub prepare_goes : (h : List Message) (s : Session W) → Ensures Any (prepare host a h s)
  unfolding prepare log_history
  prepare_goes h s =
      by_step (replay host a.terminal_tools (last_message h) h logged)
        (replay_goes (last_message h) h logged)
    where
      logged : Session W
      logged = if a.history_already_logged then s else log_all host h s

      by_step :
          (x : Step W (Unit {0}))
          → Ensures Any x
          → Ensures Any (elim x as (λ _. Step W (Unit {0})) [
            | stop e g t ↦ stop e g t
            | next u g t ↦ add_notice host a g t
          ])
      by_step (stop e g t) good = good
      by_step (next u g t) good = add_notice_goes g t

  finish_goes :
      (m : Message) (interruptions h : List Message) (s : Session W)
      → Ensures Any (finish host m interruptions h s)
  unfolding finish extend
  finish_goes m [] h s = tt
  finish_goes m (i ∷ interruptions) h s = tt

  module _ (polite : (req : ChatRequest) (w : W) → IsPolite (host.send req w).0) where
    pub ask_goes :
        (effort : String) (h : List Message) (s : Session W)
        → Ensures (λ m g t. m.role ≡ "assistant") (ask host a effort h s)
    unfolding ask
    ask_goes effort h s =
        by_result
          (complete host a.max_retries a.retry_base_delay
            (record { model = a.model; messages = prune_history h; reasoning_effort = effort })
            (log_display host s).world)
          (complete-Marked host polite a.max_retries a.retry_base_delay
            (record { model = a.model; messages = prune_history h; reasoning_effort = effort })
            (log_display host s).world)
      where
        by_result :
            (r : Result ClientError (List Message) × W)
            → Marked r.0
            → Ensures
                (λ (m : Message) g t. m.role ≡ "assistant")
                (reply_result host r h (log_display host s))
        by_result (err e, w) marked = tt
        by_result (ok [], w) marked = tt
        by_result (ok (m ∷ rest), w) marked = marked.0

    replay_pending :
        (m : Message) (c : ToolCall) (calls : List ToolCall) (o : Option Message) (h : List Message)
        (s : Session W)
        → o ≡ some m
        → m.tool_calls ≡ c ∷ calls
        → m.role ≡ "assistant"
        → replay host a.terminal_tools o h s ≡ run_tools host a.terminal_tools m h s
    unfolding replay replay_calls
    replay_pending m c calls o h s last same role =
        ap (λ p. replay host a.terminal_tools p h s) last
        ∙ ap (λ k. replay_calls host a.terminal_tools m k h s) same
        ∙ if_true (next tt h s) (str_eq m.role "assistant") ((eq_iff m.role "assistant").1 role)

    -- A turn that is stopped for a pause and replayed is the turn that is not.
    respond-after_pause :
        (requested : Option (W → Bool)) (m : Message) (calls : List ToolCall)
        → m.tool_calls ≡ calls
        → m.role ≡ "assistant"
        → (h : List Message) (s : Session W) → last_message h ≡ some m
        → respond host a.terminal_tools none m calls h s
          ≡ after_pause (respond host a.terminal_tools requested m calls h s)
    unfolding respond check_pause
    respond-after_pause requested m [] same role h s last =
        after_pause_bind (λ v g t. Unit) (run_hook host interrupt_failed host.interrupt)
          (finish host m) (finish host m) h s (run_hook_goes interrupt_failed host.interrupt h s)
          (λ v g t any. keeps (finish host m v g t) (finish_goes m v g t))
    respond-after_pause requested m (c ∷ calls) same role h s last =
        if_elim
          (λ (x : Step W (Unit {0})).
            run_tools host a.terminal_tools m h s
            ≡ after_pause (elim x [
              | stop e g t ↦ stop e g t
              | next u g t ↦ run_tools host a.terminal_tools m g t
            ]))
          (asks_pause requested s.world) {x = stop paused h s} {y = next tt h s}
          (λ t. sym (replay_pending m c calls (last_message h) h s last same role))
          (λ t. keeps (run_tools host a.terminal_tools m h s) (run_tools_goes m h s))

    pub turn-after_pause :
        (effort : String) (requested : Option (W → Bool)) (h : List Message) (s : Session W)
        → turn host a effort none h s ≡ after_pause (turn host a effort requested h s)
    unfolding turn extend
    turn-after_pause effort requested h s =
        let answer = λ (r : Option (W → Bool)) (m : Message).
          extend host (m ∷ []) >>= λ _. respond host a.terminal_tools r m m.tool_calls in
        let asked = λ (r : Option (W → Bool)) (controls : List Message).
          extend host controls >>= λ _. ask host a effort >>= answer r in
        let hooked = λ (r : Option (W → Bool)) (u : Unit {0}).
          run_hook host hook_failed host.before_turn >>= asked r in
        after_pause_bind Any (check_context host) (hooked none) (hooked requested) h s
          (check_context_goes h s)
          (λ u g t any.
            after_pause_bind Any (run_hook host hook_failed host.before_turn) (asked none)
              (asked requested) g t (run_hook_goes hook_failed host.before_turn g t)
              (λ controls g' t' any'.
                after_pause_bind (λ m i j. m.role ≡ "assistant") (ask host a effort) (answer none)
                  (answer requested) (g' ++ controls) (log_all host controls t')
                  (ask_goes effort (g' ++ controls) (log_all host controls t'))
                  (λ m i j role.
                    respond-after_pause requested m m.tool_calls refl role (i ++ m ∷ [])
                      (log_all host (m ∷ []) j) (last_message-append i m))))
