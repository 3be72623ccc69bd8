-- ===== src/Agents/Histories/Scans.antt =====
-- What holds of the messages read so far: the calls that wait, and the longest answered prefix.
use headcount.Prelude.{
  ℕ, ◌+◌, ◌≤◌, ◌≡◌, refl, sym, ap, subst, ◌∙◌, String, List, [], ◌∷◌, ◌++◌, append-nil,
  append_assoc, Result, ok, err, >>=-eq-ok, if◌then◌else◌, eq_refl, arith,
}
use headcount.Agents.{Message}
use headcount.Agents.Histories.{HistoryError, is_empty, Scan, pending_after, scan_message}
use headcount.Agents.Histories.Boundaries.{
  calls_in, results_in, calls_of, results_of, occurrences, IsAnswered, NoneLonger,
  NoneLonger-append, occurrences-append, calls_of-append, results_of-append,
  pending_after-occurrences,
}

abbrev Waiting : List Message → List String → Type 0
Waiting h pending =
    (x : String)
    → (occurrences x (calls_of h) ≡ occurrences x (results_of h) + occurrences x pending)
      × (occurrences x pending ≤ 1)

-- The prefix is answered, and no longer one is.
abbrev pub IsBoundary : List Message → List Message → Type 0
IsBoundary h safe =
    (rest : List Message) × (h ≡ safe ++ rest) × IsAnswered safe × NoneLonger safe rest

abbrev pub IsScan : Scan → Type 0
IsScan s = Waiting s.history s.pending × IsBoundary s.history s.safe_history

occurs_head : (x : String) (xs : List String) → 1 ≤ occurrences x (x ∷ xs)
occurs_head x xs = ground (arith, eq_refl x)

Waiting-append :
    (n : ℕ) (h : List Message) (m : Message) (p p' : List String)
    → pending_after n m p ≡ ok p'
    → Waiting h p
    → Waiting (h ++ m ∷ []) p'
Waiting-append n h m p p' passes waits x =
    let after = pending_after-occurrences n m p p' x passes (waits x).1 in
    let calls = ap (occurrences x) (calls_of-append h (m ∷ [])) in
    let results = ap (occurrences x) (results_of-append h (m ∷ [])) in
    let calls_sum = occurrences-append x (calls_of h) (calls_in m ++ []) in
    let results_sum = occurrences-append x (results_of h) (results_in m ++ []) in
    let calls_last = ap (occurrences x) (append-nil (calls_in m)) in
    let results_last = ap (occurrences x) (append-nil (results_in m)) in
    let before = (waits x).0 in (omega arith, after.1)

-- A prefix with a call that waits is not answered.
Waiting-open :
    (h : List Message) (x : String) (pending : List String)
    → Waiting h (x ∷ pending)
    → IsAnswered h
    → ⊥
Waiting-open h x pending waits answered =
    let more = occurs_head x pending in
    let sum = (waits x).0 in let same = answered x in omega arith

abbrev extended : ℕ → Message → Scan → List String → Scan
extended seq m s pending =
    let history = s.history ++ m ∷ [] in
    if is_empty pending
    then record {
      history = history;
      safe_history = history;
      safe_sequence = seq;
      pending = pending;
    }
    else record s { history = history; pending = pending }

extended-IsScan :
    (seq : ℕ) (m : Message) (s : Scan) (pending : List String)
    → Waiting (s.history ++ m ∷ []) pending
    → IsBoundary s.history s.safe_history
    → IsScan (extended seq m s pending)
extended-IsScan seq m s [] waits b = (
  waits,
  ([], sym (append-nil (s.history ++ m ∷ [])), (λ x. let sum = (waits x).0 in omega arith), tt),
)
extended-IsScan seq m s (x ∷ pending) waits (rest, parts, answered, none_longer) = (
  waits,
  (
    rest ++ m ∷ [],
    ap (λ (l : List Message). l ++ m ∷ []) parts ∙ append_assoc s.safe_history rest (m ∷ []),
    answered,
    NoneLonger-append s.safe_history rest m none_longer (
        subst (λ (l : List Message). IsAnswered (l ++ m ∷ []) → ⊥) parts
          (Waiting-open (s.history ++ m ∷ []) x pending waits)),
  ),
)

extended-history :
    (seq : ℕ) (m : Message) (s : Scan) (pending : List String)
    → (extended seq m s pending).history ≡ s.history ++ m ∷ []
extended-history seq m s [] = refl
extended-history seq m s (x ∷ pending) = refl

pub scan_message-IsScan :
    (n seq : ℕ) (m : Message) (s s' : Scan)
    → scan_message n seq m s ≡ ok s'
    → IsScan s
    → IsScan s' × (s'.history ≡ s.history ++ m ∷ [])
unfolding scan_message
scan_message-IsScan n seq m s s' passes (waits, b) =
    let (pending, waited, made) = >>=-eq-ok (pending_after n m s.pending) _ passes in
    let same : extended seq m s pending ≡ s' =
      ap (λ (r : Result HistoryError Scan). elim r [ ok t ↦ t | err e ↦ s ]) made in
    subst (λ (t : Scan). IsScan t × (t.history ≡ s.history ++ m ∷ [])) same
      (
        extended-IsScan seq m s pending
            (Waiting-append n s.history m s.pending pending waited waits) b,
        extended-history seq m s pending,
      )
