-- ===== src/Agents/Trail/Turns.antt =====
-- One turn keeps the log in step with the history.
use headcount.Prelude.{
  ◌≢◌, String, Bool, true, false, Option, none, some, List, [], ◌∷◌, All, Result, ok, err,
  if◌then◌else◌,
}
use headcount.Agents.{ToolCall, Message, Agent, Host, Session}
use headcount.Agents.Client.{ClientError, complete}
use headcount.Agents.Pruning.{prune_history}
use headcount.Agents.Steps.{
  Failure, hook_failed, interrupt_failed, Step, ◌>>=◌, M, extend, record_results, run_tools,
  log_display, execute_tool_calls,
}
use headcount.Agents.Rules.{After, After-bind}
use headcount.Agents.Loop.{
  check_context, hook_result, run_hook, reply_result, ask, check_pause, asks_pause, finish, respond,
  turn,
}
use headcount.Agents.Trail.{IsTrail, log_all-IsTrail, log_display-IsTrail}

module _ {W : Type 0} (decode : String → Option Message) (host : Host W) (a : Agent)
    (shown : (w : W) → All (λ e. e.0 ≢ "message") (host.display w)) where
  abbrev pub Keeps : {A : Type 0} → Step W A → Type 0
  Keeps x = After (λ e. IsTrail decode host) (λ v. IsTrail decode host) x

  pub Keeps-bind :
      {A B : Type 0} (m : M W A) (k : A → M W B) (h : List Message) (s : Session W)
      → Keeps (m h s)
      → ((v : A) (g : List Message) (t : Session W) → IsTrail decode host g t → Keeps (k v g t))
      → Keeps ((m >>= k) h s)
  Keeps-bind m k h s =
      After-bind (λ e. IsTrail decode host) (λ v. IsTrail decode host) (λ v. IsTrail decode host) m
        k h s

  -- A test between two steps that change nothing.
  pub Keeps-if :
      {A : Type 0} (b : Bool) (x y : Step W A) → Keeps x → Keeps y → Keeps (if b then x else y)
  Keeps-if true x y p q = p
  Keeps-if false x y p q = q

  pub extend-Keeps :
      (ms h : List Message) (s : Session W) → IsTrail decode host h s → Keeps (extend host ms h s)
  unfolding extend
  extend-Keeps ms h s trail = log_all-IsTrail decode host shown ms h s trail

  check_context-Keeps :
      (h : List Message) (s : Session W) → IsTrail decode host h s → Keeps (check_context host h s)
  unfolding check_context
  check_context-Keeps h s trail = Keeps-if (host.canceled s.world) _ _ trail trail

  run_hook-Keeps :
      (f : Failure) (hook : Option (List Message → W → Result String (List Message) × W))
      (h : List Message) (s : Session W)
      → IsTrail decode host h s
      → Keeps (run_hook host f hook h s)
  unfolding run_hook
  run_hook-Keeps f none h s trail = trail
  run_hook-Keeps f (some hook) h s trail = by_result (hook h s.world)
    where
      by_result : (r : Result String (List Message) × W) → Keeps (hook_result host f r h s)
      by_result (ok messages, w) = trail
      by_result (err e, w) = trail

  pub run_tools-Keeps :
      (m : Message) (h : List Message) (s : Session W)
      → IsTrail decode host h s
      → Keeps (run_tools host a.terminal_tools m h s)
  unfolding run_tools record_results
  run_tools-Keeps m h s trail =
      by_results
        (execute_tool_calls host a.terminal_tools s.conversation_sequence m.tool_calls s.world)
    where
      by_results : (r : (List Message × Bool) × W) → Keeps (record_results host m r h s)
      by_results ((results, done), w) =
          let shown_first =
            log_display-IsTrail decode host shown h (record s { world = w }) trail in
          let logged = log_all-IsTrail decode host shown results h _ shown_first in
          Keeps-if done _ _ logged logged

  ask-Keeps :
      (effort : String) (h : List Message) (s : Session W)
      → IsTrail decode host h s
      → Keeps (ask host a effort h s)
  unfolding ask
  ask-Keeps effort h s trail = by_result (
      complete host a.max_retries a.retry_base_delay
        (record { model = a.model; messages = prune_history h; reasoning_effort = effort })
        (log_display host s).world)
    where
      logged : IsTrail decode host h (log_display host s)
      logged = log_display-IsTrail decode host shown h s trail

      by_result :
          (r : Result ClientError (List Message) × W)
          → Keeps (reply_result host r h (log_display host s))
      by_result (err e, w) = logged
      by_result (ok [], w) =
          log_display-IsTrail decode host shown h (record (log_display host s) { world = w }) logged
      by_result (ok (m ∷ rest), w) =
          log_display-IsTrail decode host shown h (record (log_display host s) { world = w }) logged

  respond-Keeps :
      (requested : Option (W → Bool)) (m : Message) (calls : List ToolCall) (h : List Message)
      (s : Session W)
      → IsTrail decode host h s
      → Keeps (respond host a.terminal_tools requested m calls h s)
  unfolding respond check_pause finish
  respond-Keeps requested m [] h s trail =
      Keeps-bind (run_hook host interrupt_failed host.interrupt) (finish host m) h s
        (run_hook-Keeps interrupt_failed host.interrupt h s trail) by_finish
    where
      by_finish :
          (v g : List Message) (t : Session W)
          → IsTrail decode host g t
          → Keeps (finish host m v g t)
      by_finish [] g t p = p
      by_finish (i ∷ is) g t p = extend-Keeps (i ∷ is) g t p
  respond-Keeps requested m (c ∷ calls) h s trail =
      Keeps-bind (check_pause host requested) (λ _. run_tools host a.terminal_tools m) h s
        (Keeps-if (asks_pause requested s.world) _ _ trail trail)
        (λ u g t p. run_tools-Keeps m g t p)

  pub turn-Keeps :
      (effort : String) (requested : Option (W → Bool)) (h : List Message) (s : Session W)
      → IsTrail decode host h s
      → Keeps (turn host a effort requested h s)
  unfolding turn
  turn-Keeps effort requested h s trail =
      let answer = λ (m : Message).
        extend host (m ∷ []) >>= λ _. respond host a.terminal_tools requested m m.tool_calls in
      let asked =
        λ (controls : List Message). extend host controls >>= λ _. ask host a effort >>= answer in
      let hooked = λ (u : Unit {0}). run_hook host hook_failed host.before_turn >>= asked in
      Keeps-bind (check_context host) hooked h s (check_context-Keeps h s trail) (λ u g t p.
        Keeps-bind (run_hook host hook_failed host.before_turn) asked g t
          (run_hook-Keeps hook_failed host.before_turn g t p)
          (λ controls g t p.
            Keeps-bind (extend host controls) (λ _. ask host a effort >>= answer) g t
              (extend-Keeps controls g t p)
              (λ u g t p.
                Keeps-bind (ask host a effort) answer g t (ask-Keeps effort g t p) (λ m g t p.
                  Keeps-bind (extend host (m ∷ []))
                    (λ _. respond host a.terminal_tools requested m m.tool_calls) g t
                    (extend-Keeps (m ∷ []) g t p)
                    (λ u g t p. respond-Keeps requested m m.tool_calls g t p)))))
