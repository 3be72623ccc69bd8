-- ===== src/Agents/Requests.antt =====
-- A run ends, after a bounded number of requests.
pub mod Turns
pub mod Bounds
use headcount.Prelude.{
  ℕ, zero, suc, ◌+◌, ◌*◌, ◌%◌, ◌^◌, ◌≤◌, ◌≡◌, refl, sym, ap, subst, ◌∙◌, String, Bool, true, false,
  ◌&&◌, Option, none, some, List, [], ◌∷◌, Result, ok, err, if◌then◌else◌, if_elim, ltb, ◌==◌,
  arith,
}
use headcount.Workers.{Tool, get_tool}
use headcount.Agents.{ToolCall, Message, ChatRequest, Host}
use headcount.Agents.Client.{
  ClientError, context_ended, Attempt, answered, transient, rejected, default_retry_delay,
  do_request, back_off, settle, attempts_from, complete,
}
use headcount.Agents.Steps.{execute_tool, execute_tool_calls}

abbrev pub QuietHook :
    {W : Type 0} → (W → ℕ) → Option (List Message → W → Result String (List Message) × W) → Type 0
QuietHook sent none = Unit
QuietHook {W} sent (some hook) = (h : List Message) (w : W) → sent (hook h w).1 ≤ sent w

-- `sent` counts the requests of this run: one call of `send` adds at most one, and nothing else adds.
pub record Counts {W : Type 0} (host : Host W) (sent : W → ℕ) : Type 0 where
  pub one_each : (req : ChatRequest) (w : W) → sent (host.send req w).1 ≤ suc (sent w)
  pub sleep_quiet : (d : ℕ) (w : W) → sent (host.sleep d w) ≤ sent w
  pub execute_quiet :
      (tool : Tool) (limit : Option ℕ) (n : ℕ) (args : String) (w : W)
      → sent (host.execute tool limit n args w).1 ≤ sent w
  pub controls_quiet : QuietHook sent host.before_turn
  pub interruptions_quiet : QuietHook sent host.interrupt

module _ {W : Type 0} (host : Host W) (sent : W → ℕ) (counts : Counts host sent) where
  back_off_quiet : (base n : ℕ) (w : W) → sent (back_off host base n w) ≤ sent w
  unfolding back_off
  back_off_quiet base zero w = omega arith
  back_off_quiet base (suc n) w = counts.sleep_quiet ((base * 2 ^ n) % 2 ^ 64) w

  settle_within :
      (again : W → Result ClientError (List Message) × W) (o : Attempt × W) (b : ℕ)
      → sent o.1 ≤ b
      → sent (again o.1).1 ≤ b
      → sent (settle host again o).1 ≤ b
  unfolding settle
  settle_within again (answered choices, w) b h rest = h
  settle_within again (transient, w) b h rest = rest
  settle_within again (rejected e, w) b h rest = h

  attempts_from_within :
      (left attempt base : ℕ) (req : ChatRequest) (w : W)
      → sent (attempts_from host left attempt base req w).1 ≤ sent w + left
  unfolding attempts_from do_request
  attempts_from_within zero attempt base req w = omega arith
  attempts_from_within (suc left) attempt base req w =
      let w' = back_off host base attempt w in
      let again = λ (v : W). attempts_from host left (attempt + 1) base req v in
      let waited = back_off_quiet base attempt w in
      let one = counts.one_each req w' in
      let others = attempts_from_within left (attempt + 1) base req (host.send req w').1 in
      if_elim (λ (r : Result ClientError (List Message) × W). sent r.1 ≤ sent w + suc left)
        (ltb 0 attempt && host.canceled w') {x = (err context_ended, w')}
        {y = settle host again (do_request host req w')} (λ t. omega arith)
        (λ t.
          settle_within again (do_request host req w') (sent w + suc left) (omega arith)
            (omega arith))

  pub complete_within :
      (retries base : ℕ) (req : ChatRequest) (w : W)
      → sent (complete host retries base req w).1 ≤ sent w + suc retries
  unfolding complete
  complete_within retries base req w =
      attempts_from_within (suc retries) 0 (if base == 0 then default_retry_delay else base) req w

  execute_tool_quiet :
      (n : ℕ) (c : ToolCall) (o : Option Tool) (w : W) → sent (execute_tool host n c o w).1 ≤ sent w
  unfolding execute_tool
  execute_tool_quiet n c none w = omega arith
  execute_tool_quiet n c (some tool) w = counts.execute_quiet tool _ n c.arguments w

  pub execute_tool_calls_quiet :
      (terminal : List String) (n : ℕ) (calls : List ToolCall) (w : W)
      → sent (execute_tool_calls host terminal n calls w).1 ≤ sent w
  unfolding execute_tool_calls
  execute_tool_calls_quiet terminal n [] w = omega arith
  execute_tool_calls_quiet terminal n (c ∷ calls) w =
      let first = execute_tool_quiet n c (get_tool c.name (host.registry w)) w in
      let others =
        execute_tool_calls_quiet terminal n calls
          (execute_tool host n c (get_tool c.name (host.registry w)) w).1 in
      omega arith
