-- ===== src/Agents/Requests/Turns.antt =====
-- The requests of one turn.
use headcount.Prelude.{
  ℕ, suc, ◌+◌, ◌≤◌, ◌≡◌, refl, sym, subst, String, Bool, true, false, Option, none, some, List, [],
  ◌∷◌, ◌++◌, Result, ok, err, if◌then◌else◌, arith,
}
use headcount.Agents.{ToolCall, Message, ChatRequest, Agent, Host, Session}
use headcount.Agents.Client.{ClientError, complete}
use headcount.Agents.Pruning.{prune_history}
use headcount.Agents.Steps.{
  Failure, hook_failed, interrupt_failed, Step, stop, next, ◌>>=◌, M, extend, record_results,
  run_tools, execute_tool_calls, log_conversation_message, log_all, write_entry, write_all,
  log_display,
}
use headcount.Agents.Rules.{After, After-bind}
use headcount.Agents.Loop.{
  check_context, hook_result, run_hook, reply_result, ask, check_pause, asks_pause, finish, respond,
  turn,
}
use headcount.Agents.Requests.{QuietHook, Counts, complete_within, execute_tool_calls_quiet}

module _ {W : Type 0} (host : Host W) where
  log_all-world : (ms : List Message) (s : Session W) → (log_all host ms s).world ≡ s.world
  unfolding log_all log_conversation_message
  log_all-world [] s = refl
  log_all-world (m ∷ ms) s = log_all-world ms (log_conversation_message host m s)

  write_all-world :
      (es : List (String × String)) (s : Session W) → (write_all host es s).world ≡ s.world
  unfolding write_all
  write_all-world [] s = refl
  write_all-world ((kind, content) ∷ es) s = write_all-world es (write_entry host kind content s)

  log_display-world : (s : Session W) → (log_display host s).world ≡ s.world
  unfolding log_display
  log_display-world s = write_all-world (host.display s.world) s

module _ {W : Type 0} (host : Host W) (a : Agent) (sent : W → ℕ) (counts : Counts host sent) where
  abbrev pub Within : {A : Type 0} → ℕ → Step W A → Type 0
  Within b x = After (λ e g t. sent t.world ≤ b) (λ v g t. sent t.world ≤ b) x

  pub Within-bind :
      {A B : Type 0} (b : ℕ) (m : M W A) (k : A → M W B) (h : List Message) (s : Session W)
      → Within b (m h s)
      → ((v : A) (g : List Message) (t : Session W) → sent t.world ≤ b → Within b (k v g t))
      → Within b ((m >>= k) h s)
  Within-bind b m k h s =
      After-bind (λ e g t. sent t.world ≤ b) (λ v g t. sent t.world ≤ b) (λ v g t. sent t.world ≤ b)
        m k h s

  pub Within-if :
      {A : Type 0} (b : ℕ) (c : Bool) (x y : Step W A)
      → Within b x
      → Within b y
      → Within b (if c then x else y)
  Within-if b true x y p q = p
  Within-if b false x y p q = q

  pub log_all_within :
      (b : ℕ) (ms : List Message) (s : Session W)
      → sent s.world ≤ b
      → sent (log_all host ms s).world ≤ b
  log_all_within b ms s h = subst (λ w. sent w ≤ b) (sym (log_all-world host ms s)) h

  log_display_within :
      (b : ℕ) (s : Session W) → sent s.world ≤ b → sent (log_display host s).world ≤ b
  log_display_within b s h = subst (λ w. sent w ≤ b) (sym (log_display-world host s)) h

  run_hook-Within :
      (b : ℕ) (f : Failure) (hook : Option (List Message → W → Result String (List Message) × W))
      → QuietHook sent hook
      → (h : List Message) (s : Session W) → sent s.world ≤ b
      → Within b (run_hook host f hook h s)
  unfolding run_hook
  run_hook-Within b f none quiet h s le = le
  run_hook-Within b f (some hook) quiet h s le = by_result (hook h s.world) (quiet h s.world)
    where
      by_result :
          (r : Result String (List Message) × W)
          → sent r.1 ≤ sent s.world
          → Within b (hook_result host f r h s)
      by_result (ok messages, w) less = omega arith
      by_result (err e, w) less = omega arith

  pub run_tools-Within :
      (b : ℕ) (m : Message) (h : List Message) (s : Session W)
      → sent s.world ≤ b
      → Within b (run_tools host a.terminal_tools m h s)
  unfolding run_tools record_results
  run_tools-Within b m h s le = Within-if b made.0.1 _ _ logged logged
    where
      made : (List Message × Bool) × W
      made = execute_tool_calls host a.terminal_tools s.conversation_sequence m.tool_calls s.world

      logged :
          sent (log_all host made.0.0 (log_display host (record s { world = made.1 }))).world ≤ b
      logged = log_all_within b made.0.0 (log_display host (record s { world = made.1 })) (
          log_display_within b (record s { world = made.1 })
            (omega (
              arith,
              execute_tool_calls_quiet host sent counts a.terminal_tools s.conversation_sequence
                  m.tool_calls s.world,
            )))

  ask-Within :
      (b : ℕ) (effort : String) (h : List Message) (s : Session W)
      → sent s.world + suc a.max_retries ≤ b
      → Within b (ask host a effort h s)
  unfolding ask
  ask-Within b effort h s le =
      by_result (complete host a.max_retries a.retry_base_delay req (log_display host s).world) (
        complete_within host sent counts a.max_retries a.retry_base_delay req
          (log_display host s).world)
    where
      req : ChatRequest
      req = record { model = a.model; messages = prune_history h; reasoning_effort = effort }

      bound : sent (log_display host s).world + suc a.max_retries ≤ b
      bound = subst (λ w. sent w + suc a.max_retries ≤ b) (sym (log_display-world host s)) le

      by_result :
          (r : Result ClientError (List Message) × W)
          → sent r.1 ≤ sent (log_display host s).world + suc a.max_retries
          → Within b (reply_result host r h (log_display host s))
      by_result (err e, w) less = omega (arith, bound)
      by_result (ok [], w) less = log_display_within b _ (omega (arith, bound))
      by_result (ok (m ∷ rest), w) less = log_display_within b _ (omega (arith, bound))

  respond-Within :
      (b : ℕ) (requested : Option (W → Bool)) (m : Message) (calls : List ToolCall)
      (h : List Message) (s : Session W)
      → sent s.world ≤ b
      → Within b (respond host a.terminal_tools requested m calls h s)
  unfolding respond check_pause finish extend
  respond-Within b requested m [] h s le =
      Within-bind b (run_hook host interrupt_failed host.interrupt) (finish host m) h s
        (run_hook-Within b interrupt_failed host.interrupt counts.interruptions_quiet h s le)
        by_finish
    where
      by_finish :
          (v g : List Message) (t : Session W) → sent t.world ≤ b → Within b (finish host m v g t)
      by_finish [] g t p = p
      by_finish (i ∷ is) g t p = log_all_within b (i ∷ is) t p
  respond-Within b requested m (c ∷ calls) h s le =
      Within-bind b (check_pause host requested) (λ _. run_tools host a.terminal_tools m) h s
        (Within-if b (asks_pause requested s.world) _ _ le le)
        (λ u g t p. run_tools-Within b m g t p)

  -- A step with a small bound, before steps with a larger one.
  pub Within-then :
      {A B : Type 0} (c b : ℕ) (m : M W A) (k : A → M W B) (h : List Message) (s : Session W)
      → c ≤ b
      → Within c (m h s)
      → ((v : A) (g : List Message) (t : Session W) → sent t.world ≤ c → Within b (k v g t))
      → Within b ((m >>= k) h s)
  Within-then {A} c b m k h s le first rest =
      After-bind (λ e g t. sent t.world ≤ b) (λ v g t. sent t.world ≤ c) (λ v g t. sent t.world ≤ b)
        m k h s (by_step (m h s) first) rest
    where
      by_step :
          (x : Step W A)
          → Within c x
          → After (λ e g t. sent t.world ≤ b) (λ v g t. sent t.world ≤ c) x
      by_step (stop e g t) p = omega arith
      by_step (next v g t) p = p

  pub turn-Within :
      (c : ℕ) (effort : String) (requested : Option (W → Bool)) (h : List Message) (s : Session W)
      → sent s.world ≤ c
      → Within (c + suc a.max_retries) (turn host a effort requested h s)
  unfolding turn extend check_context
  turn-Within c effort requested h s le =
      let b = c + suc a.max_retries in
      let answer = λ (m : Message).
        extend host (m ∷ []) >>= λ _. respond host a.terminal_tools requested m m.tool_calls in
      let asked =
        λ (controls : List Message). extend host controls >>= λ _. ask host a effort >>= answer in
      let hooked = λ (u : Unit {0}). run_hook host hook_failed host.before_turn >>= asked in
      Within-then c b (check_context host) hooked h s (omega arith)
        (Within-if c (host.canceled s.world) _ _ le le)
        (λ u g t p.
          Within-then c b (run_hook host hook_failed host.before_turn) asked g t (omega arith)
            (run_hook-Within c hook_failed host.before_turn counts.controls_quiet g t p)
            (λ controls g t p.
              let logged = log_all_within c controls t p in
              Within-bind b (ask host a effort) answer (g ++ controls) (log_all host controls t)
                (ask-Within b effort (g ++ controls) (log_all host controls t) (omega arith))
                (λ m g t p.
                  respond-Within b requested m m.tool_calls (g ++ m ∷ []) (log_all host (m ∷ []) t)
                    (log_all_within b (m ∷ []) t p))))
