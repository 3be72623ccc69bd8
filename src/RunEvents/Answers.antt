-- ===== src/RunEvents/Answers.antt =====
-- A message is answered once: a repeated call returns the stored answer and changes nothing.
use headcount.Prelude.{
  ℕ, ◌≡◌, ◌≢◌, refl, ap, ◌∙◌, subst, String, Bool, true, false, ◌||◌, not, ◌&&◌, Option, none, some,
  some-injective, List, [], ◌∷◌, ◌++◌, first, first-append, first-update, first-holds, update,
  Result, ok, err, if◌then◌else◌, if_elim, Option-cases, All, All-first, is_some, is_num, ◌==◌,
  ==_refl, str_eq, arith,
}
use headcount.RunEvents.{
  RunEvent, EventError, Outcome, has_id, replies, key_taken, taken, existing_or, pending, consume,
  answer_to, store_answer, answer_request, with_request, answer_pending_message, not_addressed,
  not_session_message, already_consumed, create_failed, bad_message_id, one_of, consume_run_events,
}

module _ {A : Type 0} (p : A → Bool) where
  -- The row that is appended is the first one that fits.
  first-append_miss :
      (xs : List A) (y : A) → first p xs ≡ none → p y ≡ true → first p (xs ++ y ∷ []) ≡ some y
  first-append_miss [] y miss hit = rw hit refl
  first-append_miss (x ∷ xs) y miss hit =
      if_elim (λ o. o ≡ none → first p (x ∷ xs ++ y ∷ []) ≡ some y) (p x) (λ _ e. cc)
        (λ f e. rw f (first-append_miss xs y e hit)) miss

  first-update_other :
      (q : A → Bool) (f : A → A) (xs : List A) {x : A}
      → ((y : A) → p (f y) ≡ p y)
      → q x ≡ false
      → first p xs ≡ some x
      → first p (update q f xs) ≡ some x
  first-update_other q f [] same other h = cc
  first-update_other q f (y ∷ xs) {x} same other h =
      if_elim (λ o. o ≡ some x → first p (update q f (y ∷ xs)) ≡ some x) (p y)
        (λ t e.
          let is_x : y ≡ x = some-injective _ _ e in
          let q_y : q y ≡ false = ap q is_x ∙ other in rw (q_y, t) e)
        (λ miss e.
          let rest = first-update_other q f xs same other e in
          if_elim (λ z. (if p z then some z else first p (update q f xs)) ≡ some x) (q y)
            (λ _. rw (same y, miss) rest) (λ _. rw miss rest))
        h

-- A request that may be answered by the run.
abbrev IsOpenTo : ℕ → RunEvent → Type 0
IsOpenTo target request =
    (is_num request.target_run_id target ≡ true)
    × (str_eq request.event_type "session_message" ≡ true)

module _ (now id target message_id : ℕ) (payload key : String) where
  -- Where an answer is stored, the call returns it.
  store_answer-replied :
      (request a : RunEvent) (events : List RunEvent)
      → first (replies message_id) events ≡ some a
      → store_answer now message_id (answer_to now id target message_id payload key request) events
        ≡ (ok a, events)
  unfolding store_answer
  store_answer-replied request a events found = rw found (
      if_elim (λ (o : Outcome RunEvent). o ≡ (ok a, events)) (key_taken key events || true)
        (λ _. refl) (λ f. absurd (ground arith)))

  answer_request-replied :
      (request a : RunEvent) (events : List RunEvent)
      → IsOpenTo target request
      → first (replies message_id) events ≡ some a
      → answer_request now id target message_id payload key request events ≡ (ok a, events)
  unfolding answer_request
  answer_request-replied request a events (to, kind) found =
      rw (to, kind)
        (if_elim (λ (o : Outcome RunEvent). o ≡ (ok a, events)) (is_some request.consumed_at)
          (λ _. rw found refl) (λ _. store_answer-replied request a events found))

ok-injective : {b a : RunEvent} {o : Result EventError RunEvent} → o ≡ ok b → o ≡ ok a → b ≡ a
ok-injective is_b is_a = cc

existing_or-found :
    (failure : EventError) (o : Option RunEvent) (events : List RunEvent) {a : RunEvent}
    {after : List RunEvent}
    → existing_or failure o events ≡ (ok a, after)
    → (o ≡ some a) × (events ≡ after)
existing_or-found failure none events e = absurd (cc (ap (λ (r : Outcome RunEvent). r.0) e))
existing_or-found failure (some b) events {a} {after} e =
    let same = ok-injective refl (ap (λ (r : Outcome RunEvent). r.0) e) in
    (ap some same, ap (λ (r : Outcome RunEvent). r.1) e)

-- The message is there, allowed to the run, and the row is its stored answer.
abbrev IsAnswered : ℕ → ℕ → RunEvent → List RunEvent → Type 0
IsAnswered target message_id a events =
    (request : RunEvent) × (first (has_id message_id) events ≡ some request)
    × IsOpenTo target request
    × (first (replies message_id) events ≡ some a)

module _ (now id target message_id : ℕ) (payload key : String) (events after : List RunEvent)
    (a : RunEvent) where
  stored-IsAnswered :
      (request : RunEvent)
      → first (has_id message_id) events ≡ some request
      → IsOpenTo target request
      → request.id ≢ id
      → is_some request.consumed_at ≡ false
      → (let answer = answer_to now id target message_id payload key request in
          taken answer events ≡ false
          → IsAnswered target message_id answer
              (update (pending message_id) (consume now) (events ++ answer ∷ [])))
  stored-IsAnswered request found allowed new fresh free =
      let answer = answer_to now id target message_id payload key request in
      let is_it = first-holds (has_id message_id) events found in
      let waiting : pending message_id request ≡ true = ground arith in
      let other : pending message_id answer ≡ false = ground arith in
      let miss : first (replies message_id) events ≡ none =
        ground (arith, Option-cases (first (replies message_id) events)) in
      (
        consume now request,
        first-update (has_id message_id) (pending message_id) (consume now) (events ++ answer ∷ [])
            (λ e. refl) waiting (first-append (has_id message_id) events (answer ∷ []) found),
        allowed,
        first-update_other (replies message_id) (pending message_id) (consume now)
            (events ++ answer ∷ []) (λ e. refl) other
            (first-append_miss (replies message_id) events answer miss (==_refl message_id)),
      )

  store_answer-IsAnswered :
      (request : RunEvent)
      → first (has_id message_id) events ≡ some request
      → IsOpenTo target request
      → request.id ≢ id
      → is_some request.consumed_at ≡ false
      → store_answer now message_id (answer_to now id target message_id payload key request) events
        ≡ (ok a, after)
      → IsAnswered target message_id a after
  unfolding store_answer
  store_answer-IsAnswered request found allowed new fresh =
      let answer = answer_to now id target message_id payload key request in
      if_elim (λ (o : Outcome RunEvent). o ≡ (ok a, after) → IsAnswered target message_id a after)
        (taken answer events)
        (λ _ e.
          let (row, same) =
            existing_or-found create_failed (first (replies message_id) events) events e in
          subst (IsAnswered target message_id a) same (request, found, allowed, row))
        (λ free e.
          let is_a : answer ≡ a = ok-injective refl (ap (λ (r : Outcome RunEvent). r.0) e) in
          let stored = stored-IsAnswered request found allowed new fresh free in
          subst (λ b. IsAnswered target message_id b after) is_a
            (subst (IsAnswered target message_id answer) (ap (λ (r : Outcome RunEvent). r.1) e)
              stored))

  answer_request-IsAnswered :
      (request : RunEvent)
      → first (has_id message_id) events ≡ some request
      → request.id ≢ id
      → answer_request now id target message_id payload key request events ≡ (ok a, after)
      → IsAnswered target message_id a after
  unfolding answer_request
  answer_request-IsAnswered request found new =
      if_elim (λ (o : Outcome RunEvent). o ≡ (ok a, after) → IsAnswered target message_id a after)
        (not (is_num request.target_run_id target)) {x = (err not_addressed, events)}
        (λ _ e. absurd (cc (ap (λ (r : Outcome RunEvent). r.0) e)))
        (λ to.
          if_elim
            (λ (o : Outcome RunEvent). o ≡ (ok a, after) → IsAnswered target message_id a after)
            (not (str_eq request.event_type "session_message"))
            {x = (err not_session_message, events)}
            (λ _ e. absurd (cc (ap (λ (r : Outcome RunEvent). r.0) e)))
            (λ kind.
              let allowed : IsOpenTo target request = (ground arith, ground arith) in
              if_elim
                (λ (o : Outcome RunEvent). o ≡ (ok a, after) → IsAnswered target message_id a after)
                (is_some request.consumed_at)
                (λ _ e.
                  let (row, same) =
                    existing_or-found already_consumed (first (replies message_id) events) events
                      e in
                  subst (IsAnswered target message_id a) same (request, found, allowed, row))
                (λ fresh. store_answer-IsAnswered request found allowed new fresh)))

  answer_pending_message-IsAnswered :
      All (λ e. e.id ≢ id) events
      → answer_pending_message now id target message_id payload key events ≡ (ok a, after)
      → IsAnswered target message_id a after
  unfolding answer_pending_message
  answer_pending_message-IsAnswered new =
      if_elim (λ (o : Outcome RunEvent). o ≡ (ok a, after) → IsAnswered target message_id a after)
        (message_id == 0) {x = (err bad_message_id, events)}
        (λ _ e. absurd (cc (ap (λ (r : Outcome RunEvent). r.0) e)))
        (λ _. by_request (first (has_id message_id) events) refl)
    where
      by_request :
          (o : Option RunEvent)
          → first (has_id message_id) events ≡ o
          → with_request o
              (λ request. answer_request now id target message_id payload key request events)
              events
            ≡ (ok a, after)
          → IsAnswered target message_id a after
      by_request none found e = absurd (cc (ap (λ (r : Outcome RunEvent). r.0) e))
      by_request (some request) found e =
          answer_request-IsAnswered request found
            (All-first (λ e. e.id ≢ id) (has_id message_id) events new found) e

answer_pending_message-nonzero :
    (now id target message_id : ℕ) (payload key : String) (events after : List RunEvent)
    (a : RunEvent)
    → answer_pending_message now id target message_id payload key events ≡ (ok a, after)
    → (message_id == 0) ≡ false
unfolding answer_pending_message
answer_pending_message-nonzero now id target message_id payload key events after a =
    if_elim (λ (o : Outcome RunEvent). o ≡ (ok a, after) → (message_id == 0) ≡ false)
      (message_id == 0) {x = (err bad_message_id, events)}
      (λ _ e. absurd (cc (ap (λ (r : Outcome RunEvent). r.0) e))) (λ f e. f)

-- If the new row's id is not in use and an answer to a message succeeds, then any repeated answer
-- of the same run to that message, with whatever payload, returns the same stored answer and leaves
-- the table as it is.
pub answered_once :
    (now id target message_id : ℕ) (payload key : String) (events after : List RunEvent)
    (a : RunEvent) (later id' : ℕ) (payload' key' : String)
    → All (λ e. e.id ≢ id) events
    → answer_pending_message now id target message_id payload key events ≡ (ok a, after)
    → answer_pending_message later id' target message_id payload' key' after ≡ (ok a, after)
unfolding answer_pending_message
answered_once now id target message_id payload key events after a later id' payload' key' new e =
    let (request, found, allowed, row) =
      answer_pending_message-IsAnswered now id target message_id payload key events after a new e in
    let nonzero =
      answer_pending_message-nonzero now id target message_id payload key events after a e in
    rw (nonzero, found)
      (answer_request-replied later id' target message_id payload' key' request a after allowed row)

-- Consuming other rows leaves a row as it is.
pub first-consume_run_events :
    (now : ℕ) (ids : List ℕ) (id : ℕ) (events : List RunEvent) {e : RunEvent}
    → one_of ids id ≡ false
    → first (has_id id) events ≡ some e
    → first (has_id id) (consume_run_events now ids events) ≡ some e
unfolding consume_run_events
first-consume_run_events now ids id events {e} other found =
    let is_id = first-holds (has_id id) events found in
    let same : e.id ≡ id = ground arith in
    let free : one_of ids e.id ≡ false = ap (one_of ids) same ∙ other in
    first-update_other (has_id id) (λ x. one_of ids x.id && not (is_some x.consumed_at))
      (consume now) events (λ y. refl) (ground (arith, free)) found
