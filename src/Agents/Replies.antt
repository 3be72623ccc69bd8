-- ===== src/Agents/Replies.antt =====
-- What the client returns where the provider marks its messages as the assistant's.
use headcount.Prelude.{
  ℕ, zero, suc, ◌+◌, ◌≡◌, String, Bool, ◌&&◌, ◌||◌, Option, none, some, List, Result, ok, err,
  if◌then◌else◌, if_elim, All, ltb, leb, ◌==◌,
}
use headcount.Agents.{
  Message, ApiErr, ChatRequest, ChatResponse, Reply, network_failure, received, Host,
}
use headcount.Agents.Client.{
  ClientError, context_ended, bad_body, api_error, Attempt, answered, transient, rejected,
  default_retry_delay, retryable, judge_error, judge_body, judge, do_request, back_off, settle,
  attempts_from, complete,
}

-- The provider marks its messages as the assistant's, as the format says.
abbrev pub IsPolite : Reply → Type 0
IsPolite (network_failure e) = Unit
IsPolite (received status none) = Unit
IsPolite (received status (some r)) = All (λ m. m.role ≡ "assistant") r.choices

abbrev pub Marked : Result ClientError (List Message) → Type 0
Marked (err e) = Unit
Marked (ok choices) = All (λ m. m.role ≡ "assistant") choices

abbrev MarkedAttempt : Attempt → Type 0
MarkedAttempt (answered choices) = All (λ m. m.role ≡ "assistant") choices
MarkedAttempt transient = Unit
MarkedAttempt (rejected e) = Unit

module _ (lower : String → String) (contains : String → String → Bool) where
  judge_error-Marked :
      (r : ChatResponse) (e : Option ApiErr)
      → All (λ m. m.role ≡ "assistant") r.choices
      → MarkedAttempt (judge_error lower contains r e)
  unfolding judge_error
  judge_error-Marked r none h = h
  judge_error-Marked r (some e) h =
      if_elim MarkedAttempt (retryable lower contains e) {x = transient}
        {y = rejected (api_error e)} (λ t. tt) (λ t. tt)

  judge-Marked :
      (ended : Bool) (reply : Reply)
      → IsPolite reply
      → MarkedAttempt (judge lower contains ended reply)
  unfolding judge judge_body
  judge-Marked ended (network_failure e) h =
      if_elim MarkedAttempt ended {x = rejected context_ended} {y = transient} (λ t. tt) (λ t. tt)
  judge-Marked ended (received status none) h =
      if_elim MarkedAttempt (status == 429 || leb 500 status) {x = transient}
        {y = rejected (bad_body status)} (λ t. tt) (λ t. tt)
  judge-Marked ended (received status (some r)) h =
      if_elim MarkedAttempt (status == 429 || leb 500 status) {x = transient}
        {y = judge_error lower contains r r.error} (λ t. tt) (λ t. judge_error-Marked r r.error h)

module _ {W : Type 0} (host : Host W)
    (polite : (req : ChatRequest) (w : W) → IsPolite (host.send req w).0) where
  settle-Marked :
      (again : W → Result ClientError (List Message) × W) (o : Attempt × W)
      → MarkedAttempt o.0
      → ((w : W) → Marked (again w).0)
      → Marked (settle host again o).0
  unfolding settle
  settle-Marked again (answered choices, w) h rest = h
  settle-Marked again (transient, w) h rest = rest w
  settle-Marked again (rejected e, w) h rest = tt

  attempts_from-Marked :
      (left attempt base : ℕ) (req : ChatRequest) (w : W)
      → Marked (attempts_from host left attempt base req w).0
  unfolding attempts_from do_request
  attempts_from-Marked zero attempt base req w = tt
  attempts_from-Marked (suc left) attempt base req w =
      let w' = back_off host base attempt w in
      let again = λ (v : W). attempts_from host left (attempt + 1) base req v in
      if_elim (λ (r : Result ClientError (List Message) × W). Marked r.0)
        (ltb 0 attempt && host.canceled w') {x = (err context_ended, w')}
        {y = settle host again (do_request host req w')} (λ t. tt)
        (λ t.
          settle-Marked again (do_request host req w')
            (judge-Marked host.lower host.contains (host.canceled (host.send req w').1)
              (host.send req w').0 (polite req w'))
            (λ v. attempts_from-Marked left (attempt + 1) base req v))

  pub complete-Marked :
      (retries base : ℕ) (req : ChatRequest) (w : W) → Marked (complete host retries base req w).0
  unfolding complete
  complete-Marked retries base req w =
      attempts_from-Marked (suc retries) 0 (if base == 0 then default_retry_delay else base) req w
