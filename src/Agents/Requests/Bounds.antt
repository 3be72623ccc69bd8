-- ===== src/Agents/Requests/Bounds.antt =====
-- The requests of a whole run.
use headcount.Prelude.{
  ℕ, zero, suc, ◌+◌, ◌*◌, ◌≤◌, ◌≡◌, refl, subst, String, Bool, Option, none, some, List, [], ◌∷◌,
  if◌then◌else◌, if_elim, str_eq, arith,
}
use headcount.Agents.{ToolCall, Message, Agent, Host, Session}
use headcount.Agents.Steps.{Ending, Step, stop, next, M, extend, log_all}
use headcount.Agents.Loop.{
  turn, turns, max_turns, last_message, replay_calls, replay, notice_message, add_notice,
  log_history, prepare, run_message_history,
}
use headcount.Agents.Requests.{Counts}
use headcount.Agents.Requests.Turns.{
  Within, Within-bind, Within-then, Within-if, log_all_within, run_tools-Within, turn-Within,
}

abbrev Stops : {W A : Type 0} → Step W A → Type 0
Stops (stop e h s) = Unit
Stops (next a h s) = ⊥

module _ {W : Type 0} (host : Host W) (a : Agent) (sent : W → ℕ) (counts : Counts host sent) where
  turns-Within :
      (n c : ℕ) (effort : String) (requested : Option (W → Bool)) (h : List Message) (s : Session W)
      → sent s.world ≤ c
      → Within host a sent counts (c + n * suc a.max_retries) (turns host n a effort requested h s)
  unfolding turns
  turns-Within zero c effort requested h s le = omega arith
  turns-Within (suc n) c effort requested h s le =
      let r = suc a.max_retries in
      let sum : c + r + n * r ≡ c + suc n * r = grind arith in
      subst (λ b. Within host a sent counts b (turns host (suc n) a effort requested h s)) sum
        (Within-then host a sent counts (c + r) (c + r + n * r) (turn host a effort requested)
          (λ _. turns host n a effort requested) h s (omega arith)
          (turn-Within host a sent counts c effort requested h s le)
          (λ u g t p. turns-Within n (c + r) effort requested g t p))

  turns-Stops :
      (n : ℕ) (effort : String) (requested : Option (W → Bool)) (h : List Message) (s : Session W)
      → Stops (turns host n a effort requested h s)
  unfolding turns
  turns-Stops zero effort requested h s = tt
  turns-Stops (suc n) effort requested h s =
      by_step (turn host a effort requested h s) (turns-Stops n effort requested)
    where
      by_step :
          (x : Step W (Unit {0}))
          → ((g : List Message) (t : Session W) → Stops (turns host n a effort requested g t))
          → Stops (elim x as (λ _. Step W (Unit {0})) [
            | stop e g t ↦ stop e g t
            | next u g t ↦ turns host n a effort requested g t
          ])
      by_step (stop e g t) rec = tt
      by_step (next u g t) rec = rec g t

  prepare-Within :
      (b : ℕ) (h : List Message) (s : Session W)
      → sent s.world ≤ b
      → Within host a sent counts b (prepare host a h s)
  unfolding prepare log_history replay replay_calls add_notice extend
  prepare-Within b h s le =
      Within-bind host a sent counts b replay_last (λ _. add_notice host a) h logged
        (by_last (last_message h))
        (λ u g t p.
          Within-if host a sent counts b (str_eq a.resume_notice "") _ _ p
            (log_all_within host a sent counts b (notice_message a.resume_notice ∷ []) t p))
    where
      replay_last : M W (Unit {0})
      replay_last h s = replay host a.terminal_tools (last_message h) h s

      logged : Session W
      logged = if a.history_already_logged then s else log_all host h s

      small : sent logged.world ≤ b
      small =
          if_elim (λ (t : Session W). sent t.world ≤ b) a.history_already_logged {x = s}
            {y = log_all host h s} (λ e. le) (λ e. log_all_within host a sent counts b h s le)

      by_calls :
          (m : Message) (calls : List ToolCall)
          → Within host a sent counts b (replay_calls host a.terminal_tools m calls h logged)
      by_calls m [] = small
      by_calls m (c ∷ calls) =
          Within-if host a sent counts b (str_eq m.role "assistant") _ _
            (run_tools-Within host a sent counts b m h logged small) small

      by_last :
          (o : Option Message)
          → Within host a sent counts b (replay host a.terminal_tools o h logged)
      by_last none = small
      by_last (some m) = by_calls m m.tool_calls

  -- Every run comes to an end, and it has sent at most 300 times as many requests as the client makes
  -- attempts, where `sent` counts the requests of the run.
  pub run_message_history-ends :
      (effort : String) (requested : Option (W → Bool)) (h : List Message) (s : Session W)
      → (e : Ending) × (g : List Message) × (t : Session W) × (run_message_history host a effort
            requested h s
          ≡ stop e g t)
        × (sent t.world ≤ sent s.world + 300 * suc a.max_retries)
  unfolding run_message_history
  run_message_history-ends effort requested h s =
      by_step (run_message_history host a effort requested h s) refl
        (Within-then host a sent counts (sent s.world) (sent s.world + 300 * suc a.max_retries)
          (prepare host a) (λ _. turns host max_turns a effort requested) h s (omega arith)
          (prepare-Within (sent s.world) h s (omega arith))
          (λ u g t p. turns-Within max_turns (sent s.world) effort requested g t p))
        (stops (prepare host a h s))
    where
      stops :
          (x : Step W (Unit {0}))
          → Stops (elim x as (λ _. Step W (Unit {0})) [
            | stop e g t ↦ stop e g t
            | next u g t ↦ turns host max_turns a effort requested g t
          ])
      stops (stop e g t) = tt
      stops (next u g t) = turns-Stops max_turns effort requested g t

      by_step :
          (x : Step W (Unit {0}))
          → run_message_history host a effort requested h s ≡ x
          → Within host a sent counts (sent s.world + 300 * suc a.max_retries) x
          → Stops x
          → (e : Ending) × (g : List Message) × (t : Session W) × (run_message_history host a effort
                requested h s
              ≡ stop e g t)
            × (sent t.world ≤ sent s.world + 300 * suc a.max_retries)
      by_step (stop e g t) same le ends = (e, g, t, same, le)
      by_step (next u g t) same le ends = absurd ends
