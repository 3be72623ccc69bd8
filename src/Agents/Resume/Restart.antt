-- ===== src/Agents/Resume/Restart.antt =====
-- A run that is stopped at a safe point and started again from its history.
use headcount.Prelude.{
  ℕ, zero, suc, ◌≤◌, ◌<◌, ◌≡◌, ◌≢◌, refl, sym, ap, ◌∙◌, String, Bool, true, Option, none, List,
  arith,
}
use headcount.Agents.{Message, ChatRequest, Agent, Host, Session}
use headcount.Agents.Replies.{IsPolite}
use headcount.Agents.Steps.{too_many_turns, Ending, final_answer, paused, failed, Step, stop, next}
use headcount.Agents.Loop.{
  ask, turn, turns, max_turns, prepare, last_message, replay, add_notice, log_history,
  run_message_history,
}
use headcount.Agents.Resume.{Any, Ensures, after_pause, turn-after_pause, prepare_goes}

abbrev pub ending_of : {W : Type 0} → Step W (Unit {0}) → Ending
ending_of (stop e h s) = e
ending_of (next u h s) = paused

-- The agent that continues a run: its history is in the log, and it has nothing to say about it.
abbrev pub restored : Agent → Agent
restored a = record a { resume_notice = ""; history_already_logged = true }

module _ {W : Type 0} (host : Host W) (a : Agent) (effort : String) where
  abbrev continue : ℕ → Step W (Unit {0}) → Step W (Unit {0})
  continue k x = elim x [ stop e h s ↦ stop e h s | next u h s ↦ turns host k a effort none h s ]

  -- With more turns a run that has ended stays as it is.
  turns_more :
      (k n : ℕ) (h : List Message) (s : Session W) (e : Ending) (g : List Message) (t : Session W)
      → k ≤ n
      → e ≢ failed too_many_turns
      → turns host k a effort none h s ≡ stop e g t
      → turns host n a effort none h s ≡ stop e g t
  unfolding turns
  turns_more zero n h s e g t le ends q = absurd (ends (sym (ap ending_of q)))
  turns_more (suc k) zero h s e g t le ends q = absurd (omega arith)
  turns_more (suc k) (suc n) h s e g t le ends q =
      by_step (turn host a effort none h s) q
        (λ i j r. turns_more k n i j e g t (omega arith) ends r)
    where
      by_step :
          (x : Step W (Unit {0}))
          → continue k x ≡ stop e g t
          → ((i : List Message) (j : Session W)
              → turns host k a effort none i j ≡ stop e g t
              → turns host n a effort none i j ≡ stop e g t)
          → continue n x ≡ stop e g t
      by_step (stop f i j) r rec = r
      by_step (next u i j) r rec = rec i j r

  turns-restored :
      (n : ℕ) (h : List Message) (s : Session W)
      → turns host n (restored a) effort none h s ≡ turns host n a effort none h s
  unfolding turns turn ask
  turns-restored zero h s = refl
  turns-restored (suc n) h s = by_step (turn host a effort none h s) (turns-restored n)
    where
      by_step :
          (x : Step W (Unit {0}))
          → ((i : List Message) (j : Session W)
              → turns host n (restored a) effort none i j ≡ turns host n a effort none i j)
          → ◌≡◌ {A = Step W (Unit {0})}
              (elim x [
                | stop f i j ↦ stop f i j
                | next u i j ↦ turns host n (restored a) effort none i j
              ])
              (continue n x)
      by_step (stop f i j) rec = refl
      by_step (next u i j) rec = rec i j

  prepare-restored :
      (h : List Message) (s : Session W)
      → prepare host (restored a) h s ≡ replay host a.terminal_tools (last_message h) h s
  unfolding prepare log_history add_notice
  prepare-restored h s = by_step (replay host a.terminal_tools (last_message h) h s)
    where
      by_step :
          (x : Step W (Unit {0}))
          → ◌≡◌ {A = Step W (Unit {0})}
              (elim x [ stop f i j ↦ stop f i j | next u i j ↦ add_notice host (restored a) i j ])
              x
      by_step (stop f i j) = refl
      by_step (next u i j) = refl

  -- A run that starts again goes on with all its turns.
  restart :
      (k : ℕ) (h : List Message) (s : Session W) (e : Ending) (g : List Message) (t : Session W)
      → k ≤ max_turns
      → e ≢ failed too_many_turns
      → continue k (replay host a.terminal_tools (last_message h) h s) ≡ stop e g t
      → run_message_history host (restored a) effort none h s ≡ stop e g t
  unfolding run_message_history
  restart k h s e g t le way q =
      ap
        (λ (x : Step W (Unit {0})). elim x [
          | stop f i j ↦ stop f i j
          | next u i j ↦ turns host max_turns (restored a) effort none i j
        ])
        (prepare-restored h s)
      ∙ by_step (replay host a.terminal_tools (last_message h) h s) q
    where
      by_step :
          (x : Step W (Unit {0}))
          → continue k x ≡ stop e g t
          → ◌≡◌ {A = Step W (Unit {0})}
              (elim x [
                | stop f i j ↦ stop f i j
                | next u i j ↦ turns host max_turns (restored a) effort none i j
              ])
              (stop e g t)
      by_step (stop f i j) r = r
      by_step (next u i j) r =
          turns-restored max_turns i j ∙ turns_more k max_turns i j e g t le way r

  module _ (polite : (req : ChatRequest) (w : W) → IsPolite (host.send req w).0) where
    -- The run that is not paused goes on where the paused one is replayed, with turns left.
    turns_after_pause :
        (requested : Option (W → Bool)) (n : ℕ) (h : List Message) (s : Session W)
        (h1 : List Message) (s1 : Session W)
        → turns host n a effort requested h s ≡ stop paused h1 s1
        → (k : ℕ) × (k < n)
          × (turns host n a effort none h s
              ≡ continue k (replay host a.terminal_tools (last_message h1) h1 s1))
    unfolding turns
    turns_after_pause requested zero h s h1 s1 q = cc
    turns_after_pause requested (suc n) h s h1 s1 q =
        by_step (turn host a effort requested h s)
          (turn-after_pause host a polite effort requested h s) q
          (λ g t r. turns_after_pause requested n g t h1 s1 r)
      where
        by_step :
            (x : Step W (Unit {0}))
            → turn host a effort none h s ≡ after_pause host a x
            → ◌≡◌ {A = Step W (Unit {0})}
                (elim x [
                  | stop e g t ↦ stop e g t
                  | next u g t ↦ turns host n a effort requested g t
                ])
                (stop paused h1 s1)
            → ((g : List Message) (t : Session W)
                → turns host n a effort requested g t ≡ stop paused h1 s1
                → (k : ℕ) × (k < n)
                  × (turns host n a effort none g t
                      ≡ continue k (replay host a.terminal_tools (last_message h1) h1 s1)))
            → (k : ℕ) × (k < suc n)
              × (continue n (turn host a effort none h s)
                  ≡ continue k (replay host a.terminal_tools (last_message h1) h1 s1))
        by_step (stop paused g t) same r rec =
            (n, omega arith, ap (continue n) (same ∙ ap (after_pause host a) r))
        by_step (stop (final_answer text) g t) same r rec = cc
        by_step (stop (failed f) g t) same r rec = cc
        by_step (next u g t) same r rec =
            let (k, lt, rest) = rec g t r in (k, omega arith, ap (continue n) same ∙ rest)

    -- A run that `requested` pauses, with the provider's messages marked as the assistant's: if the
    -- same run with no pause ends by another way than the limit of turns, then a run that starts
    -- again from the history and the session of the pause, with its history in the log and no
    -- notice, ends the same way, with the same history and the same session.
    pub run_message_history-resumes :
        (requested : Option (W → Bool)) (h : List Message) (s : Session W) (h1 : List Message)
        (s1 : Session W) (e : Ending) (g : List Message) (t : Session W)
        → run_message_history host a effort requested h s ≡ stop paused h1 s1
        → run_message_history host a effort none h s ≡ stop e g t
        → e ≢ failed too_many_turns
        → run_message_history host (restored a) effort none h1 s1 ≡ stop e g t
    unfolding run_message_history
    run_message_history-resumes requested h s h1 s1 e g t pauses ends way =
        by_step (prepare host a h s) (prepare_goes host a h s) pauses ends
      where
        by_step :
            (x : Step W (Unit {0}))
            → Ensures Any x
            → ◌≡◌ {A = Step W (Unit {0})}
                (elim x [
                  | stop f i j ↦ stop f i j
                  | next u i j ↦ turns host max_turns a effort requested i j
                ])
                (stop paused h1 s1)
            → continue max_turns x ≡ stop e g t
            → run_message_history host (restored a) effort none h1 s1 ≡ stop e g t
        by_step (stop paused i j) bad p q = absurd bad
        by_step (stop (final_answer text) i j) good p q = cc
        by_step (stop (failed f) i j) good p q = cc
        by_step (next u i j) good p q =
            let (k, lt, rest) = turns_after_pause requested max_turns i j h1 s1 p in
            restart k h1 s1 e g t (omega arith) way (sym rest ∙ q)
