-- ===== src/Agents/Histories/Forks.antt =====
-- The prefix of a conversation from which a session is forked.
use headcount.Prelude.{
  ℕ, suc, ◌≡◌, refl, sym, ap, subst, ◌∙◌, String, Bool, true, false, not, Option, none, some, List,
  [], ◌∷◌, ◌++◌, append-nil, append_assoc, Result, ok, err, ◌>>=◌, >>=-eq-ok, if◌then◌else◌,
  if_elim, ltb, ◌==◌, str_eq, arith,
}
use headcount.Agents.{Message}
use headcount.Agents.Histories.{
  LogLine, HistoryError, is_empty, require, message_of, Scan, scan_message, scan_line,
  scan_sequence, bad_content, bad_sequence, bad_request, no_boundary, scan_lines,
  load_safe_message_history,
}
use headcount.Agents.Histories.Scans.{IsBoundary, IsScan, scan_message-IsScan}

module _ (decode : String → Option Message) (requested : ℕ) where
  abbrev pub message_list : Option String → List Message
  message_list none = []
  message_list (some text) = elim (decode text) [ none ↦ [] | some m ↦ m ∷ [] ]

  abbrev pub upto : Option ℕ → Option String → List Message
  upto none content = []
  upto (some seq) content = if ltb requested seq then [] else message_list content

  -- The message of a line, if its sequence is at most the requested one.
  abbrev pub message_upto : Option LogLine → List Message
  message_upto none = []
  message_upto (some l) = if str_eq l.kind "message" then upto l.seq l.content else []

  abbrev pub messages_upto : List (Option LogLine) → List Message
  messages_upto [] = []
  messages_upto (l ∷ ls) = message_upto l ++ messages_upto ls

  -- From one state to the next, where the messages are added.
  abbrev Extends : Scan → Scan → List Message → Type 0
  Extends s s' ms = IsScan s' × (s'.history ≡ s.history ++ ms)

  stays :
      (s s' : Scan) → ◌≡◌ {A = Result HistoryError Scan} (ok s) (ok s') → IsScan s → Extends s s' []
  stays s s' passes good =
      let same : s ≡ s' =
        ap (λ (r : Result HistoryError Scan). elim r [ ok t ↦ t | err e ↦ s ]) passes in
      subst (λ t. Extends s t []) same (good, sym (append-nil s.history))

  scan_content :
      (n seq : ℕ) (content : Option String) (s s' : Scan)
      → (message_of decode n content >>= λ m. scan_message n seq m s) ≡ ok s'
      → IsScan s
      → Extends s s' (message_list content)
  scan_content n seq none s s' passes good = cc
  scan_content n seq (some text) s s' passes good = by_text (decode text) passes
    where
      by_text :
          (o : Option Message)
          → (require o (bad_content n) >>= λ m. scan_message n seq m s) ≡ ok s'
          → Extends s s' (elim o [ none ↦ [] | some m ↦ m ∷ [] ])
      by_text none h = cc
      by_text (some m) h = scan_message-IsScan n seq m s s' h good

  scan_sequence-Extends :
      (n : ℕ) (q : Option ℕ) (content : Option String) (s s' : Scan)
      → scan_sequence decode n requested q content s ≡ ok s'
      → IsScan s
      → Extends s s' (upto q content)
  unfolding scan_sequence
  scan_sequence-Extends n none content s s' passes good = cc
  scan_sequence-Extends n (some seq) content s s' passes good =
      if_elim
        (λ (r : Result HistoryError Scan).
          r ≡ ok s' → Extends s s' (if ltb requested seq then [] else message_list content))
        (seq == 0) {x = err (bad_sequence n)}
        {y = if ltb requested seq
          then ok s
          else message_of decode n content >>= λ m. scan_message n seq m s}
        (λ t h. cc) (λ t. by_request (ltb requested seq)) passes
    where
      by_request :
          (late : Bool)
          → (if late then ok s else message_of decode n content >>= λ m. scan_message n seq m s)
            ≡ ok s'
          → Extends s s' (if late then [] else message_list content)
      by_request true h = stays s s' h good
      by_request false h = scan_content n seq content s s' h good

  scan_line-Extends :
      (n : ℕ) (l : Option LogLine) (s s' : Scan)
      → scan_line decode n requested l s ≡ ok s'
      → IsScan s
      → Extends s s' (message_upto l)
  unfolding scan_line
  scan_line-Extends n none s s' passes good = cc
  scan_line-Extends n (some l) s s' passes good = by_kind (str_eq l.kind "message") passes
    where
      by_kind :
          (k : Bool)
          → (if not k then ok s else scan_sequence decode n requested l.seq l.content s) ≡ ok s'
          → Extends s s' (if k then upto l.seq l.content else [])
      by_kind true h = scan_sequence-Extends n l.seq l.content s s' h good
      by_kind false h = stays s s' h good

  scan_lines-Extends :
      (n : ℕ) (ls : List (Option LogLine)) (s s' : Scan)
      → scan_lines decode n requested ls s ≡ ok s'
      → IsScan s
      → Extends s s' (messages_upto ls)
  unfolding scan_lines
  scan_lines-Extends n [] s s' passes good = stays s s' passes good
  scan_lines-Extends n (l ∷ ls) s s' passes good =
      let (t, first_passes, others) = >>=-eq-ok (scan_line decode n requested l s) _ passes in
      let (good_t, parts) = scan_line-Extends n l s t first_passes good in
      let (good_s', more) = scan_lines-Extends (suc n) ls t s' others good_t in
      (
        good_s',
        more
            ∙ ap (λ (h : List Message). h ++ messages_upto ls) parts
            ∙ append_assoc s.history (message_upto l) (messages_upto ls),
      )

  abbrev start : Scan
  start = record { history = []; safe_history = []; safe_sequence = 0; pending = [] }

  start-IsScan : IsScan start
  start-IsScan = ((λ x. (refl, omega arith)), ([], refl, (λ x. refl), tt))

  -- A history that `load_safe_message_history` returns is a prefix of the messages of the file whose
  -- sequence is at most the requested one; in it each tool call id has as many results as calls, and
  -- in no longer prefix of those messages it does.
  pub load_safe_message_history-IsBoundary :
      (ls : List (Option LogLine)) (h : List Message) (seq : ℕ)
      → load_safe_message_history decode (some ls) requested ≡ ok (h, seq)
      → IsBoundary (messages_upto ls) h
  unfolding load_safe_message_history
  load_safe_message_history-IsBoundary ls h seq passes =
      if_elim (λ (r : Result HistoryError (List Message × ℕ)). r ≡ ok (h, seq) → Goal)
        (requested == 0) {x = err bad_request}
        {y = scan_lines decode 1 requested ls start >>= found} (λ t bad. cc) from_scan passes
    where
      Goal : Type 0
      Goal = IsBoundary (messages_upto ls) h

      found : Scan → Result HistoryError (List Message × ℕ)
      found s =
          if is_empty s.safe_history then err no_boundary else ok (s.safe_history, s.safe_sequence)

      from_found :
          (s : Scan) → IsBoundary (messages_upto ls) s.safe_history → found s ≡ ok (h, seq) → Goal
      from_found s b =
          if_elim (λ (r : Result HistoryError (List Message × ℕ)). r ≡ ok (h, seq) → Goal)
            (is_empty s.safe_history) {x = err no_boundary}
            {y = ok (s.safe_history, s.safe_sequence)} (λ t bad. cc)
            (λ t same.
              subst (IsBoundary (messages_upto ls))
                (ap
                  (λ (r : Result HistoryError (List Message × ℕ)). elim r [
                    | ok pair ↦ pair.0
                    | err e ↦ h
                  ])
                  same)
                b)

      from_scan :
          requested == 0 ≡ false
          → (scan_lines decode 1 requested ls start >>= found) ≡ ok (h, seq)
          → Goal
      from_scan t e =
          let (s, scanned, finds) = >>=-eq-ok (scan_lines decode 1 requested ls start) found e in
          let ((waits, b), parts) = scan_lines-Extends 1 ls start s scanned start-IsScan in
          from_found s (subst (λ (l : List Message). IsBoundary l s.safe_history) parts b) finds
