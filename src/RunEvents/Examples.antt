-- ===== src/RunEvents/Examples.antt =====
-- A question to run 8 and its answer, sent twice.
use headcount.Prelude.{ℕ, ◌≡◌, ◌≢◌, refl, Option, none, some, [], ◌∷◌, All, ok, arith}
use headcount.RunEvents.{RunEvent, store_answer, answer_request, answer_pending_message}
use headcount.RunEvents.Answers.{answered_once}

abbrev question : Option ℕ → RunEvent
question consumed_at = record {
  id = 1;
  task_id = 3;
  run_id = 7;
  source_run_id = some 7;
  target_run_id = some 8;
  reply_to_event_id = none;
  event_type = "session_message";
  payload = "which branch?";
  dedupe_key = "";
  created_at = 10;
  consumed_at = consumed_at;
}

abbrev answer : RunEvent
answer = record {
  id = 2;
  task_id = 3;
  run_id = 8;
  source_run_id = some 8;
  target_run_id = some 7;
  reply_to_event_id = some 1;
  event_type = "session_message_answer";
  payload = "main";
  dedupe_key = "session-answer:1";
  created_at = 20;
  consumed_at = none;
}

first_answer :
    answer_pending_message 20 2 8 1 "main" "session-answer:1" (question none ∷ [])
    ≡ (ok answer, question (some 20) ∷ answer ∷ [])
unfolding answer_pending_message answer_request store_answer
first_answer = refl

answered_once_example :
    answer_pending_message 30 3 8 1 "develop" "session-answer:1" (question (some 20) ∷ answer ∷ [])
    ≡ (ok answer, question (some 20) ∷ answer ∷ [])
answered_once_example =
    answered_once 20 2 8 1 "main" "session-answer:1" (question none ∷ [])
      (question (some 20) ∷ answer ∷ []) answer 30 3 "develop" "session-answer:1" new_id
      first_answer
  where
    new_id : All (λ (e : RunEvent). e.id ≢ 2) (question none ∷ [])
    new_id = ((λ e. ground arith), tt)
