-- ===== src/Agents/Trail/Checkpoints.antt =====
-- The checkpoint of a run: the log with the sequence of the last message gives the history back.
use headcount.Prelude.{
  ℕ, zero, suc, ◌≤◌, ◌<◌, ◌≡◌, ◌≢◌, refl, sym, subst, ◌∙◌, ◌⊎◌, inl, inr, String, Bool, true, false,
  Option, none, some, List, [], ◌∷◌, ◌++◌, append-nil, All, ok, if◌then◌else◌, str_eq, arith,
}
use headcount.Agents.{ToolCall, Message, Agent, Host, Session}
use headcount.Agents.Histories.{
  LogLine, load_line, load_lines, load_message, load_message_history,
  load_message_history_with_cursor,
}
use headcount.Agents.Steps.{Ending, stop, ◌>>=◌, M, log_all}
use headcount.Agents.Loop.{
  turn, turns, max_turns, last_message, replay_calls, replay, notice_message, add_notice,
  log_history, prepare, run_message_history,
}
use headcount.Agents.Trail.{IsFaithful, lines_of, Reads, Reads-append, IsTrail, log_all-IsTrail}
use headcount.Agents.Trail.Turns.{
  Keeps, Keeps-bind, Keeps-if, extend-Keeps, run_tools-Keeps, turn-Keeps,
}

module _ {W : Type 0} (decode : String → Option Message) (host : Host W) (a : Agent)
    (shown : (w : W) → All (λ e. e.0 ≢ "message") (host.display w)) where
  turns-Keeps :
      (n : ℕ) (effort : String) (requested : Option (W → Bool)) (h : List Message) (s : Session W)
      → IsTrail decode host h s
      → Keeps decode host a shown (turns host n a effort requested h s)
  unfolding turns
  turns-Keeps zero effort requested h s trail = trail
  turns-Keeps (suc n) effort requested h s trail =
      Keeps-bind decode host a shown (turn host a effort requested)
        (λ _. turns host n a effort requested) h s
        (turn-Keeps decode host a shown effort requested h s trail)
        (λ u. turns-Keeps n effort requested)

  replay-Keeps :
      (o : Option Message) (h : List Message) (s : Session W)
      → IsTrail decode host h s
      → Keeps decode host a shown (replay host a.terminal_tools o h s)
  unfolding replay replay_calls
  replay-Keeps none h s trail = trail
  replay-Keeps (some m) h s trail = by_calls m.tool_calls
    where
      by_calls :
          (calls : List ToolCall)
          → Keeps decode host a shown (replay_calls host a.terminal_tools m calls h s)
      by_calls [] = trail
      by_calls (c ∷ calls) =
          Keeps-if decode host a shown (str_eq m.role "assistant") _ _
            (run_tools-Keeps decode host a shown m h s trail) trail

  add_notice-Keeps :
      (h : List Message) (s : Session W)
      → IsTrail decode host h s
      → Keeps decode host a shown (add_notice host a h s)
  unfolding add_notice
  add_notice-Keeps h s trail =
      Keeps-if decode host a shown (str_eq a.resume_notice "") _ _ trail
        (extend-Keeps decode host a shown (notice_message a.resume_notice ∷ []) h s trail)

  -- The log reads back as the history, if that is logged already, or as no message, at every cursor from
  -- the session's on: it holds no message besides these.
  abbrev pub IsReady : List Message → Session W → Type 0
  IsReady h s = IsTrail decode host (if a.history_already_logged then h else []) s

  log_history-Keeps :
      (h : List Message) (s : Session W)
      → IsReady h s
      → Keeps decode host a shown (log_history host a h s)
  unfolding log_history
  log_history-Keeps h s ready = by_flag a.history_already_logged ready
    where
      by_flag :
          (logged : Bool)
          → IsTrail decode host (if logged then h else []) s
          → IsTrail decode host h (if logged then s else log_all host h s)
      by_flag true trail = trail
      by_flag false trail = log_all-IsTrail decode host shown h [] s trail

  run_message_history-Keeps :
      (effort : String) (requested : Option (W → Bool)) (h : List Message) (s : Session W)
      → IsReady h s
      → Keeps decode host a shown (run_message_history host a effort requested h s)
  unfolding run_message_history prepare
  run_message_history-Keeps effort requested h s ready =
      let replayed = λ (u : Unit {0}) (g : List Message) (t : Session W).
        (replay_last >>= λ _. add_notice host a) g t in
      Keeps-bind decode host a shown (log_history host a >>= replayed)
        (λ _. turns host max_turns a effort requested) h s
        (Keeps-bind decode host a shown (log_history host a) replayed h s
          (log_history-Keeps h s ready)
          (λ u g t p.
            Keeps-bind decode host a shown replay_last (λ _. add_notice host a) g t
              (replay-Keeps (last_message g) g t p) (λ u. add_notice-Keeps)))
        (λ u. turns-Keeps max_turns effort requested)
    where
      replay_last : M W (Unit {0})
      replay_last h s = replay host a.terminal_tools (last_message h) h s

  -- A line that a later attempt adds: no message, or one with a sequence above the checkpoint.
  abbrev pub IsLater : ℕ → Option LogLine → Type 0
  IsLater c none = ⊥
  IsLater c (some l) = (str_eq l.kind "message" ≡ false) ⊎ ((q : ℕ) × (l.seq ≡ some q) × (c < q))

  later-Reads :
      (c : ℕ) (later : List (Option LogLine))
      → 1 ≤ c
      → All (IsLater c) later
      → Reads decode c later []
  unfolding load_lines load_line load_message
  later-Reads c [] pos all n acc = (acc, refl, sym (append-nil acc.history))
  later-Reads c (none ∷ later) pos all n acc = absurd all.0
  later-Reads c (some l ∷ later) pos (inl other, all) n acc =
      let (r, reads, same) = later-Reads c later pos all (suc n) acc in (r, rw other reads, same)
  later-Reads c (some l ∷ later) pos (inr (q, is_q, above), all) n acc =
      let (r, reads, same) = later-Reads c later pos all (suc n) acc in
      (r, ground (arith, reads), same)

  load_from :
      (g : List Message) (t : Session W) (later : List (Option LogLine))
      → IsTrail decode host g t
      → g ≢ []
      → All (IsFaithful decode host) g
      → All (IsLater t.conversation_sequence) later
      → load_message_history decode (some (lines_of t.entries ++ later)) t.conversation_sequence
        ≡ ok g
  unfolding load_message_history load_message_history_with_cursor
  load_from [] t later trail some_message faithful all = absurd (some_message refl)
  load_from (m ∷ g) t later (below, inl none_logged, reads) some_message faithful all =
      absurd (some_message none_logged)
  load_from (m ∷ g) t later (below, inr pos, reads) some_message faithful all =
      let c = t.conversation_sequence in
      let (l, read, same) =
        Reads-append decode c (lines_of t.entries) later (m ∷ g) [] (reads faithful c (omega arith))
          (later-Reads c later pos all) 1 (record { history = []; highest = 0 }) in
      let whole : l.history ≡ m ∷ g = same ∙ append-nil (m ∷ g) in ground (arith, read, whole)

  -- Let every line reach the log, and none of the lines that are written for display have the type
  -- "message". Let the log at the start, up to the session's cursor or any later one, read back as the
  -- history, if that is marked as logged, and as no message at all otherwise, so that it holds no other
  -- line of a message. Then the run ends with a log from which `load_message_history`, at the sequence
  -- of the last message, returns exactly the history that the run ends with, if that has a message and
  -- its messages are read back as they were written. Lines that are added after the run do not matter,
  -- if they are no messages or have a higher sequence.
  pub load_message_history-run_message_history :
      (effort : String) (requested : Option (W → Bool)) (h : List Message) (s : Session W)
      (e : Ending) (g : List Message) (t : Session W) (later : List (Option LogLine))
      → IsReady h s
      → run_message_history host a effort requested h s ≡ stop e g t
      → g ≢ []
      → All (IsFaithful decode host) g
      → All (IsLater t.conversation_sequence) later
      → load_message_history decode (some (lines_of t.entries ++ later)) t.conversation_sequence
        ≡ ok g
  load_message_history-run_message_history effort requested h s e g t later ready ends some_message
        faithful all =
      load_from g t later
        (subst (Keeps decode host a shown) ends
          (run_message_history-Keeps effort requested h s ready))
        some_message faithful all
