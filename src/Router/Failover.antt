-- ===== src/Router/Failover.antt =====
-- `serveGroupChatCompletions` of integration/group_router.go: the loop that fails over between the
-- members of a group. The answers of the providers, the clock, JSON and lower case are parameters;
-- logs and accounting, which follow the outcome and change nothing here, are left out.
pub mod Attempts
pub mod Groups
mod Examples
use headcount.Prelude.{
  ℕ, ◌+◌, String, Bool, true, false, not, ◌&&◌, ◌||◌, Option, none, some, List, [], ◌∷◌,
  if◌then◌else◌, leb, ◌==◌, str_eq, is_some, append, len,
}
use text.Mathlib.Text.{find?}
use headcount.Router.{
  LlmProvider, ModelGroupMember, ModelGroup, Outcome, success, rate_limited, failure, Gateway,
  Attempt, record_outcome, order_candidates, expand_model_group_members,
}

-- What `classifyResponse` decodes: the message and the code of an error object, and whether there are
-- choices.
pub record Probe : Type 0 where
  pub error : Option (String × String)
  pub has_choices : Bool

abbrev pub text_contains : String → String → Bool
text_contains s t = is_some (find? s t)

-- `probe` is none where the body does not decode, and `error_text` is then "".
module _ (lower trim : String → String) (decimal : ℕ → String) (probe : String → Option Probe)
    (error_text : String → String) where
  -- `looksRateLimited`
  pub looks_rate_limited : String → Bool
  looks_rate_limited msg =
      let m = lower msg in
      text_contains m "rate limit"
      || text_contains m "rate-limit"
      || text_contains m "too many requests"
      || text_contains m "quota"
      || text_contains m "overloaded"

  abbrev pub shown_body : String → String → String
  shown_body s fallback =
      if (not (str_eq s "") && leb (len s) 300) && not (text_contains (lower s) "<html")
      then append fallback (append ": " s)
      else fallback

  -- `extractErrorMessage`
  pub extract_error_message : String → String → String
  extract_error_message body fallback =
      if str_eq (error_text body) "" then shown_body (trim body) fallback else error_text body

  abbrev pub limited_if : Bool → Outcome
  limited_if limited = if limited then rate_limited else failure

  abbrev pub with_default : String → String
  with_default msg = if str_eq msg "" then "provider returned an error body" else msg

  abbrev pub classify_error : Bool → Option (String × String) → Outcome × String
  classify_error has_choices none = (success, "")
  classify_error true (some (msg, code)) = (success, "")
  classify_error false (some (msg, code)) =
      (limited_if (str_eq code "429" || looks_rate_limited (with_default msg)), with_default msg)

  abbrev pub classify_embedded : Option Probe → Outcome × String
  classify_embedded none = (success, "")
  classify_embedded (some p) = classify_error p.has_choices p.error

  -- `classifyResponse`
  pub classify_response : ℕ → String → Outcome × String
  classify_response status body =
      let msg = extract_error_message body (append "provider returned HTTP " (decimal status)) in
      if status == 429
      then (rate_limited, extract_error_message body "rate limit exceeded (429)")
      else if leb 400 status
      then (limited_if (looks_rate_limited msg), msg)
      else classify_embedded (probe body)

-- The result of `sendProviderRequest`: an error, or a status with a body.
pub data Upstream : Type 0 where
  no_response : String → Upstream
  response : ℕ → String → Upstream

-- The result of relaying a stream: the tokens, or an error in the middle.
pub data Relay : Type 0 where
  relayed : ℕ → ℕ → Relay
  broken : String → Relay

pub record Request : Type 0 where
  pub readable : Bool
  pub is_json : Bool
  pub stream : Bool
  pub can_flush : Bool

pub data Reply : Type 0 where
  refused : ℕ → String → Reply
  passed_on : ModelGroupMember → ℕ → String → Reply
  streamed : ModelGroupMember → ℕ → Reply
  stream_broken : ModelGroupMember → String → Reply
  exhausted : ℕ → String → Reply

-- An attempt answers the client, or leaves `lastErrMsg` and `lastStatus`.
pub data Step : Type 0 where
  answered : Reply → Gateway → Step
  failed : String → ℕ → Gateway → Step

abbrev pub is_foreign : ℕ → Option ℕ → Bool
is_foreign user none = false
is_foreign user (some owner) = not (owner == user)

-- The check of the members against the owner of the group.
pub has_foreign : Option ℕ → List ModelGroupMember → Bool
has_foreign none members = false
has_foreign (some user) [] = false
has_foreign (some user) (m ∷ members) =
    is_foreign user m.provider.user_id || has_foreign (some user) members

-- The number of the attempt selects the answer, the duration and the instant of the attempt.
module _ (speed : ℕ → ℕ → ℕ) (classify : ℕ → String → Outcome × String)
    (upstream : ℕ → ModelGroupMember → Upstream) (relay : ℕ → ModelGroupMember → Relay)
    (usage : String → ℕ × ℕ) (took clock : ℕ → ℕ) (group_id : ℕ) (req : Request) where
  abbrev pub record_at : ℕ → ModelGroupMember → Outcome → ℕ → ℕ × ℕ → String → Gateway → Gateway
  record_at i m outcome status (prompt, completion) msg g =
      record_outcome speed (clock i) group_id m outcome
        (record {
          status = status;
          duration = took i;
          prompt_tokens = prompt;
          completion_tokens = completion;
          err_msg = msg;
        })
        g

  abbrev pub not_success : Outcome → Outcome
  not_success success = failure
  not_success rate_limited = rate_limited
  not_success failure = failure

  -- `handleAttemptError`
  abbrev pub attempt_error : ℕ → ModelGroupMember → Gateway → ℕ → Outcome × String → Step
  attempt_error i m g status (outcome, msg) =
      failed msg status (record_at i m (not_success outcome) status (0, 0) msg g)

  abbrev pub buffered : ℕ → ModelGroupMember → Gateway → ℕ → String → Outcome × String → Step
  buffered i m g status body (success, msg) =
      answered (passed_on m status body) (record_at i m success status (usage body) "" g)
  buffered i m g status body (rate_limited, msg) =
      failed msg status (record_at i m rate_limited status (0, 0) msg g)
  buffered i m g status body (failure, msg) =
      failed msg status (record_at i m failure status (0, 0) msg g)

  abbrev pub streaming : ℕ → ModelGroupMember → Gateway → ℕ → Relay → Step
  streaming i m g status (relayed prompt completion) =
      answered (streamed m status) (record_at i m success status (prompt, completion) "" g)
  streaming i m g status (broken e) =
      answered (stream_broken m e) (record_at i m failure status (0, 0) e g)

  abbrev pub attempt_with : ℕ → ModelGroupMember → Gateway → Upstream → Step
  attempt_with i m g (no_response e) = failed e 502 (record_at i m failure 0 (0, 0) e g)
  attempt_with i m g (response status body) =
      if leb 400 status
      then attempt_error i m g status (classify status body)
      else if not req.stream
      then buffered i m g status body (classify status body)
      else if not req.can_flush
      then answered (refused 500 "Streaming unsupported") g
      else streaming i m g status (relay i m)

  -- One pass of the loop.
  pub attempt : ℕ → ModelGroupMember → Gateway → Step
  attempt i m g = attempt_with i m g (upstream i m)

  pub try_members : ℕ → List ModelGroupMember → String → ℕ → Gateway → Reply × Gateway
  try_members i [] last_err_msg last_status g =
      (exhausted (if last_status == 0 then 502 else last_status) last_err_msg, g)
  try_members i (m ∷ ms) last_err_msg last_status g = elim (attempt i m g) [
    | answered reply g' ↦ (reply, g')
    | failed msg status g' ↦ try_members (i + 1) ms msg status g'
  ]

  pub serve_members : ℕ → Option ℕ → List ModelGroupMember → Gateway → Reply × Gateway
  serve_members now owner [] g = (refused 502 "Model group has no members", g)
  serve_members now owner (m ∷ ms) g =
      if has_foreign owner (m ∷ ms)
      then (refused 403 "Model group references a provider owned by another user", g)
      else if not req.readable
      then (refused 400 "Failed to read body", g)
      else if not req.is_json
      then (refused 400 "Invalid JSON body", g)
      else try_members 0 (order_candidates g.health now (m ∷ ms)) "" 0 g

  -- `serveGroupChatCompletions`
  pub serve_group : (String → List String) → ℕ → ModelGroup → Gateway → Reply × Gateway
  serve_group names now group g =
      serve_members now group.user_id (expand_model_group_members names group.members) g
