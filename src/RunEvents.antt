-- ===== src/RunEvents.antt =====
-- db/repository/run_event_repository.go: the messages between sessions. The unique indexes on
-- `dedupe_key` and `reply_to_event_id` are those of
-- db/migrations/sqlite/20260816000056_orchestrator_messaging_workers.up.sql. The database assigns
-- `id`, and `now` is the clock's reading.
pub mod Answers
mod Examples
use headcount.Prelude.{
  ℕ, zero, suc, String, Bool, true, false, ◌&&◌, ◌||◌, not, Option, none, some, List, [], ◌∷◌, ◌++◌,
  first, update, count, Result, ok, err, if◌then◌else◌, ltb, leb, ◌==◌, str_eq, is_some, is_num,
}

pub record RunEvent : Type 0 where
  pub id : ℕ
  pub task_id : ℕ
  pub run_id : ℕ
  pub source_run_id : Option ℕ
  pub target_run_id : Option ℕ
  pub reply_to_event_id : Option ℕ
  pub event_type : String
  pub payload : String
  pub dedupe_key : String
  pub created_at : ℕ
  pub consumed_at : Option ℕ

pub data EventError : Type 0 where
  bad_message_id message_missing not_addressed not_session_message already_consumed create_failed :
      EventError

abbrev pub Outcome : Type 0 → Type 0
Outcome A = Result EventError A × List RunEvent

abbrev pub has_id : ℕ → RunEvent → Bool
has_id id e = e.id == id

abbrev pub replies : ℕ → RunEvent → Bool
replies message_id e = is_num e.reply_to_event_id message_id

abbrev pub has_key : String → RunEvent → Bool
has_key key e = str_eq e.dedupe_key key

-- The two unique indexes: a row that breaks one of them is not inserted.
abbrev key_taken : String → List RunEvent → Bool
key_taken key events = not (str_eq key "") && is_some (first (has_key key) events)

abbrev reply_taken : Option ℕ → List RunEvent → Bool
reply_taken none events = false
reply_taken (some message_id) events = is_some (first (replies message_id) events)

abbrev pub taken : RunEvent → List RunEvent → Bool
taken e events = key_taken e.dedupe_key events || reply_taken e.reply_to_event_id events

-- A row that a lookup has found, or else an error.
abbrev pub existing_or : EventError → Option RunEvent → List RunEvent → Outcome RunEvent
existing_or failure none events = (err failure, events)
existing_or failure (some existing) events = (ok existing, events)

-- `HasRecentRunEvent`
pub has_recent_run_event : ℕ → String → ℕ → List RunEvent → Bool
has_recent_run_event run_id event_type since events = ltb 0 (
    count (λ e. e.run_id == run_id && str_eq e.event_type event_type && leb since e.created_at)
      events)

abbrev pub source_of : RunEvent → Option ℕ
source_of e =
    if not (is_some e.source_run_id) && not (e.run_id == 0) then some e.run_id else e.source_run_id

-- `Create(&event)` with what follows its failure.
pub create_event : RunEvent → List RunEvent → Outcome RunEvent
create_event e events =
    if taken e events
    then existing_or create_failed
        (if str_eq e.dedupe_key "" then none else first (has_key e.dedupe_key) events) events
    else (ok e, events ++ e ∷ [])

abbrev pub enqueue_unless : Option RunEvent → RunEvent → List RunEvent → Outcome RunEvent
enqueue_unless (some existing) e events = (ok existing, events)
enqueue_unless none e events = create_event e events

-- `EnqueueRunEventReturning`: the first lookup reads `seen`, and the insertion finds `events`.
pub enqueue_run_event_returning :
    ℕ → ℕ → RunEvent → List RunEvent → List RunEvent → Outcome RunEvent
enqueue_run_event_returning now id event seen events =
    let e : RunEvent = record event {
      id = id;
      source_run_id = source_of event;
      created_at = now;
    } in
    enqueue_unless (if str_eq e.dedupe_key "" then none else first (has_key e.dedupe_key) seen) e
      events

-- `EnqueueRoutedEvent`
pub enqueue_routed_event :
    ℕ → ℕ → ℕ → ℕ → ℕ → String → String → String → List RunEvent → List RunEvent → Outcome RunEvent
enqueue_routed_event now id task_id source target event_type payload key seen events =
    enqueue_run_event_returning now id
      (record {
        id = 0;
        task_id = task_id;
        run_id = source;
        source_run_id = some source;
        target_run_id = some target;
        reply_to_event_id = none;
        event_type = event_type;
        payload = payload;
        dedupe_key = key;
        created_at = 0;
        consumed_at = none;
      })
      seen events

abbrev pub pending : ℕ → RunEvent → Bool
pending message_id e = has_id message_id e && not (is_some e.consumed_at)

abbrev pub consume : ℕ → RunEvent → RunEvent
consume now e = record e { consumed_at = some now }

-- The answer that `AnswerPendingMessage` makes.
abbrev pub answer_to : ℕ → ℕ → ℕ → ℕ → String → String → RunEvent → RunEvent
answer_to now id target message_id payload key request = record {
  id = id;
  task_id = request.task_id;
  run_id = target;
  source_run_id = some target;
  target_run_id = request.source_run_id;
  reply_to_event_id = some message_id;
  event_type = "session_message_answer";
  payload = payload;
  dedupe_key = key;
  created_at = now;
  consumed_at = none;
}

pub store_answer : ℕ → ℕ → RunEvent → List RunEvent → Outcome RunEvent
store_answer now message_id answer events =
    if taken answer events
    then existing_or create_failed (first (replies message_id) events) events
    else (ok answer, update (pending message_id) (consume now) (events ++ answer ∷ []))

-- The transaction, once the request is found.
pub answer_request : ℕ → ℕ → ℕ → ℕ → String → String → RunEvent → List RunEvent → Outcome RunEvent
answer_request now id target message_id payload key request events =
    if not (is_num request.target_run_id target)
    then (err not_addressed, events)
    else if not (str_eq request.event_type "session_message")
    then (err not_session_message, events)
    else if is_some request.consumed_at
    then existing_or already_consumed (first (replies message_id) events) events
    else store_answer now message_id (answer_to now id target message_id payload key request) events

abbrev pub with_request :
    Option RunEvent → (RunEvent → Outcome RunEvent) → List RunEvent → Outcome RunEvent
with_request none body events = (err message_missing, events)
with_request (some request) body events = body request

-- `AnswerPendingMessage`
pub answer_pending_message : ℕ → ℕ → ℕ → ℕ → String → String → List RunEvent → Outcome RunEvent
answer_pending_message now id target message_id payload key events =
    if message_id == 0
    then (err bad_message_id, events)
    else with_request (first (has_id message_id) events)
        (λ request. answer_request now id target message_id payload key request events) events

-- `FindAnswerForMessage`
pub find_answer_for_message : ℕ → List RunEvent → Option RunEvent
find_answer_for_message message_id events =
    first (λ e. replies message_id e && str_eq e.event_type "session_message_answer") events

abbrev pub one_of : List ℕ → ℕ → Bool
one_of [] id = false
one_of (i ∷ ids) id = id == i || one_of ids id

-- `ConsumeRunEvents`
unfoldable pub consume_run_events : ℕ → List ℕ → List RunEvent → List RunEvent
consume_run_events now ids events =
    update (λ e. one_of ids e.id && not (is_some e.consumed_at)) (consume now) events
