-- ===== src/Agents/Client.antt =====
-- engine/aicli/client.go: `Complete`, which sends a request and tries again after a failure that may
-- pass. `left` counts the attempts that remain; the number of retries is not negative.
use headcount.Prelude.{
  ℕ, zero, suc, ◌+◌, ◌*◌, ◌%◌, ◌^◌, String, Bool, ◌&&◌, ◌||◌, Option, none, some, List, Result, ok,
  err, if◌then◌else◌, ltb, leb, ◌==◌, str_eq,
}
use headcount.Agents.{
  Message, ApiErr, ChatResponse, ChatRequest, Reply, network_failure, received, Host,
}

pub data ClientError : Type 0 where
  context_ended : ClientError
  bad_body : ℕ → ClientError
  api_error : ApiErr → ClientError
  retries_exhausted : ClientError

-- The outcome of one request: an answer, a failure that may pass, or one that will not.
pub data Attempt : Type 0 where
  answered : List Message → Attempt
  transient : Attempt
  rejected : ClientError → Attempt

abbrev pub default_retry_delay : ℕ
default_retry_delay = 1_000_000_000

module _ (lower : String → String) (contains : String → String → Bool) where
  unfoldable pub retryable : ApiErr → Bool
  retryable e =
      let t = lower e.kind in
      let c = lower e.code in
      contains t "rate_limit"
      || contains t "overloaded"
      || contains t "server_error"
      || contains t "internal_error"
      || str_eq c "429"
      || contains c "rate_limit"
      || contains c "overloaded"

  unfoldable pub judge_error : ChatResponse → Option ApiErr → Attempt
  judge_error r none = answered r.choices
  judge_error r (some e) = if retryable e then transient else rejected (api_error e)

  unfoldable pub judge_body : ℕ → Option ChatResponse → Attempt
  judge_body status none = rejected (bad_body status)
  judge_body status (some r) = judge_error r r.error

  -- The state of the context is read after the failure.
  unfoldable pub judge : Bool → Reply → Attempt
  judge ended (network_failure e) = if ended then rejected context_ended else transient
  judge ended (received status body) =
      if status == 429 || leb 500 status then transient else judge_body status body

module _ {W : Type 0} (host : Host W) where
  unfoldable pub do_request : ChatRequest → W → Attempt × W
  do_request req w =
      let (reply, w') = host.send req w in
      (judge host.lower host.contains (host.canceled w') reply, w')

  -- The wait before all attempts but the first: a 64-bit duration, negative from 2 ^ 63 on.
  unfoldable pub back_off : ℕ → ℕ → W → W
  back_off base zero w = w
  back_off base (suc n) w = host.sleep ((base * 2 ^ n) % 2 ^ 64) w

  unfoldable pub settle :
      (W → Result ClientError (List Message) × W)
      → Attempt × W
      → Result ClientError (List Message) × W
  settle again (answered choices, w) = (ok choices, w)
  settle again (transient, w) = again w
  settle again (rejected e, w) = (err e, w)

  unfoldable pub attempts_from : ℕ → ℕ → ℕ → ChatRequest → W → Result ClientError (List Message) × W
  attempts_from zero attempt base req w = (err retries_exhausted, w)
  attempts_from (suc left) attempt base req w =
      let w' = back_off base attempt w in
      if ltb 0 attempt && host.canceled w'
      then (err context_ended, w')
      else settle (λ v. attempts_from left (attempt + 1) base req v) (do_request req w')

  unfoldable pub complete : ℕ → ℕ → ChatRequest → W → Result ClientError (List Message) × W
  complete max_retries retry_base_delay req w =
      attempts_from (suc max_retries) 0
        (if retry_base_delay == 0 then default_retry_delay else retry_base_delay) req w
