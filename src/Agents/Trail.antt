-- ===== src/Agents/Trail.antt =====
-- The log of a run holds its conversation: what a step adds to the history it also logs.
pub mod Turns
pub mod Checkpoints
use headcount.Prelude.{
  ℕ, zero, suc, ◌+◌, ◌≤◌, ◌<◌, ◌≡◌, ◌≢◌, refl, sym, ap, subst, ◌∙◌, ◌⊎◌, inl, inr, String, Bool,
  true, false, Option, none, some, List, [], ◌∷◌, ◌++◌, append-nil, append_assoc, map, length, All,
  All-split, Result, ok, err, ◌>>=◌, if◌then◌else◌, if_elim, ltb, str_eq, str_eq-ne, arith,
}
use headcount.Agents.{Message, Host, LogEntry, Session}
use headcount.Agents.Histories.{LogLine, HistoryError, Loaded, load_message, load_line, load_lines}
use headcount.Agents.Steps.{log_conversation_message, log_all, write_entry, write_all, log_display}

abbrev pub line_of : LogEntry → Option LogLine
line_of e = some (record { kind = e.kind; seq = some e.seq; content = some e.content })

abbrev pub lines_of : List LogEntry → List (Option LogLine)
lines_of [] = []
lines_of (e ∷ es) = line_of e ∷ lines_of es

lines_of-append : (xs ys : List LogEntry) → lines_of (xs ++ ys) ≡ lines_of xs ++ lines_of ys
lines_of-append [] ys = refl
lines_of-append (x ∷ xs) ys = ap (λ l. line_of x ∷ l) (lines_of-append xs ys)

module _ (decode : String → Option Message) where
  -- From any state of the reader the lines add the messages.
  abbrev pub Reads : ℕ → List (Option LogLine) → List Message → Type 0
  Reads c ls h =
      (n : ℕ) (acc : Loaded)
      → (l : Loaded) × (load_lines decode n c ls acc ≡ ok l) × (l.history ≡ acc.history ++ h)

  load_lines-append :
      (c n : ℕ) (xs ys : List (Option LogLine)) (acc l : Loaded)
      → load_lines decode n c xs acc ≡ ok l
      → (k : ℕ) × (load_lines decode n c (xs ++ ys) acc ≡ load_lines decode k c ys l)
  unfolding load_lines
  load_lines-append c n [] ys acc l h =
      (n, ap (load_lines decode n c ys) (ap (λ r. elim r [ ok v ↦ v | err e ↦ acc ]) h))
  load_lines-append c n (x ∷ xs) ys acc l h =
      by_line (load_line decode n c x acc) h (λ v. load_lines-append c (suc n) xs ys v l)
    where
      by_line :
          (r : Result HistoryError Loaded)
          → (r >>= load_lines decode (suc n) c xs) ≡ ok l
          → ((v : Loaded)
              → load_lines decode (suc n) c xs v ≡ ok l
              → (k : ℕ) × (load_lines decode (suc n) c (xs ++ ys) v ≡ load_lines decode k c ys l))
          → (k : ℕ) × ((r >>= load_lines decode (suc n) c (xs ++ ys)) ≡ load_lines decode k c ys l)
      by_line (err e) bad rec = cc
      by_line (ok v) good rec = rec v good

  pub Reads-append :
      (c : ℕ) (xs ys : List (Option LogLine)) (g h : List Message)
      → Reads c xs g
      → Reads c ys h
      → Reads c (xs ++ ys) (g ++ h)
  Reads-append c xs ys g h reads_xs reads_ys n acc =
      let (l, first, is_l) = reads_xs n acc in
      let (k, same) = load_lines-append c n xs ys acc l first in
      let (l', second, is_l') = reads_ys k l in
      (
        l',
        same ∙ second,
        is_l' ∙ ap (λ (p : List Message). p ++ h) is_l ∙ append_assoc acc.history g h,
      )

  pub Reads-other : (c : ℕ) (e : LogEntry) → e.kind ≢ "message" → Reads c (line_of e ∷ []) []
  unfolding load_lines load_line
  Reads-other c e ne n acc =
      let other = str_eq-ne e.kind "message" ne in
      (acc, ground (arith, other), sym (append-nil acc.history))

  module _ (encode : Message → String) where
    pub Reads-message :
        (c seq : ℕ) (m : Message)
        → decode (encode m) ≡ some m
        → seq ≤ c
        → Reads c
            (line_of (record { kind = "message"; seq = seq; content = encode m }) ∷ [])
            (m ∷ [])
    unfolding load_lines load_line load_message
    Reads-message c seq m faithful le n acc = (
      record {
        history = acc.history ++ m ∷ [];
        highest = if ltb acc.highest seq then seq else acc.highest;
      },
      ground (arith, faithful),
      refl,
    )

-- The log reads back as the history, up to the last message or beyond.
module _ {W : Type 0} (decode : String → Option Message) (host : Host W) where
  -- The message is read back as it was written.
  abbrev pub IsFaithful : Message → Type 0
  IsFaithful m = decode (host.encode m) ≡ some m

  abbrev pub IsTrail : List Message → Session W → Type 0
  IsTrail h s =
      (s.conversation_sequence < s.next_seq)
      × ((h ≡ []) ⊎ (1 ≤ s.conversation_sequence))
      × (All IsFaithful h
          → (c : ℕ) → s.conversation_sequence ≤ c
          → Reads decode c (lines_of s.entries) h)

  module _ (shown : (w : W) → All (λ e. e.0 ≢ "message") (host.display w)) where
    log_conversation_message-IsTrail :
        (m : Message) (h : List Message) (s : Session W)
        → IsTrail h s
        → IsTrail (h ++ m ∷ []) (log_conversation_message host m s)
    unfolding log_conversation_message
    log_conversation_message-IsTrail m h s (below, some_logged, reads) = (
      omega arith,
      inr (omega arith),
      λ all c le.
          let (before, last) = All-split IsFaithful h (m ∷ []) all in
          rw (lines_of-append s.entries _) (
            Reads-append decode c (lines_of s.entries) _ h (m ∷ []) (reads before c (omega arith))
              (Reads-message decode host.encode c s.next_seq m last.0 le)),
    )

    pub log_all-IsTrail :
        (ms h : List Message) (s : Session W) → IsTrail h s → IsTrail (h ++ ms) (log_all host ms s)
    unfolding log_all
    log_all-IsTrail [] h s trail =
        subst (λ (g : List Message). IsTrail g s) (sym (append-nil h)) trail
    log_all-IsTrail (m ∷ ms) h s trail =
        subst
          (λ (g : List Message). IsTrail g (log_all host ms (log_conversation_message host m s)))
          (append_assoc h (m ∷ []) ms)
          (log_all-IsTrail ms (h ++ m ∷ []) (log_conversation_message host m s)
            (log_conversation_message-IsTrail m h s trail))

    write_entry-IsTrail :
        (kind content : String) (h : List Message) (s : Session W)
        → kind ≢ "message"
        → IsTrail h s
        → IsTrail h (write_entry host kind content s)
    write_entry-IsTrail kind content h s ne (below, some_logged, reads) = (
      omega arith,
      some_logged,
      λ all c le.
          let e : LogEntry = record { kind = kind; seq = s.next_seq; content = content } in
          subst (λ (g : List Message). Reads decode c (lines_of (s.entries ++ e ∷ [])) g)
            (append-nil h)
            (rw (lines_of-append s.entries (e ∷ [])) (
              Reads-append decode c (lines_of s.entries) (line_of e ∷ []) h [] (reads all c le)
                (Reads-other decode c e ne))),
    )

    write_all-IsTrail :
        (es : List (String × String)) (h : List Message) (s : Session W)
        → All (λ e. e.0 ≢ "message") es
        → IsTrail h s
        → IsTrail h (write_all host es s)
    unfolding write_all
    write_all-IsTrail [] h s others trail = trail
    write_all-IsTrail ((kind, content) ∷ es) h s (other, others) trail =
        write_all-IsTrail es h (write_entry host kind content s) others
          (write_entry-IsTrail kind content h s other trail)

    pub log_display-IsTrail :
        (h : List Message) (s : Session W) → IsTrail h s → IsTrail h (log_display host s)
    unfolding log_display
    log_display-IsTrail h s trail =
        write_all-IsTrail (host.display s.world) h s (shown s.world) trail
