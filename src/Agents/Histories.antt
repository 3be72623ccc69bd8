-- ===== src/Agents/Histories.antt =====
-- engine/aicli/history_log.go: reading a conversation back from the JSONL log of a run. A file is the
-- list of its lines; a line that does not parse is `none`, and so is a sequence or a content of
-- another JSON type. A negative sequence, which the code treats like zero, is zero. Lines above the
-- scanner's limit of 16 MB are not modelled.
pub mod Boundaries
pub mod Scans
pub mod Forks
use headcount.Prelude.{
  ℕ, suc, ◌+◌, String, Bool, true, false, ◌&&◌, ◌||◌, not, Option, none, some, List, [], ◌∷◌, ◌++◌,
  Result, ok, err, ◌>>=◌, if◌then◌else◌, ltb, ◌==◌, str_eq,
}
use headcount.Agents.{ToolCall, Message}

pub record LogLine : Type 0 where
  pub kind : String
  pub seq : Option ℕ
  pub content : Option String

-- The errors that name a line carry its number.
pub data HistoryError : Type 0 where
  cannot_open no_messages bad_request no_boundary : HistoryError
  bad_line bad_sequence bad_content no_call_id repeated_call no_result_id unmatched_result :
      ℕ → HistoryError

abbrev pub is_empty {ℓ} : {A : Type ℓ} → List A → Bool
is_empty [] = true
is_empty (x ∷ xs) = false

-- What is collected: the history and the highest sequence in it.
pub record Loaded : Type 0 where
  pub history : List Message
  pub highest : ℕ

abbrev pub require {ℓ} : {A : Type ℓ} → Option A → HistoryError → Result HistoryError A
require none e = err e
require (some a) e = ok a

module _ (decode : String → Option Message) where
  abbrev pub message_of : ℕ → Option String → Result HistoryError Message
  message_of n content =
      require content (bad_content n) >>= λ text. require (decode text) (bad_content n)

  unfoldable pub load_message : ℕ → ℕ → Option String → ℕ → Loaded → Result HistoryError Loaded
  load_message n max_sequence content seq acc =
      if ltb 0 max_sequence && ltb max_sequence seq
      then ok acc
      else message_of n content >>= λ m. ok (record {
        history = acc.history ++ m ∷ [];
        highest = if ltb acc.highest seq then seq else acc.highest;
      })

  unfoldable pub load_line : ℕ → ℕ → Option LogLine → Loaded → Result HistoryError Loaded
  load_line n max_sequence none acc = err (bad_line n)
  load_line n max_sequence (some l) acc =
      if not (str_eq l.kind "message")
      then ok acc
      else require l.seq (bad_sequence n) >>= λ seq. load_message n max_sequence l.content seq acc

  unfoldable pub load_lines : ℕ → ℕ → List (Option LogLine) → Loaded → Result HistoryError Loaded
  load_lines n max_sequence [] acc = ok acc
  load_lines n max_sequence (l ∷ ls) acc =
      load_line n max_sequence l acc >>= load_lines (suc n) max_sequence ls

  unfoldable pub load_message_history_with_cursor :
      Option (List (Option LogLine)) → ℕ → Result HistoryError Loaded
  load_message_history_with_cursor none max_sequence = err cannot_open
  load_message_history_with_cursor (some ls) max_sequence =
      load_lines 1 max_sequence ls (record { history = []; highest = 0 }) >>= λ l.
      if is_empty l.history then err no_messages else ok l

  unfoldable pub load_message_history :
      Option (List (Option LogLine)) → ℕ → Result HistoryError (List Message)
  load_message_history file max_sequence =
      load_message_history_with_cursor file max_sequence >>= λ l. ok l.history

-- The state of the search for a boundary: the messages so far, those up to the last boundary with its
-- sequence, and the calls that wait for their results.
pub record Scan : Type 0 where
  pub history : List Message
  pub safe_history : List Message
  pub safe_sequence : ℕ
  pub pending : List String

abbrev pub has : String → List String → Bool
has x [] = false
has x (y ∷ ys) = str_eq y x || has x ys

unfoldable pub remove : String → List String → List String
remove x [] = []
remove x (y ∷ ys) = let rest = remove x ys in if str_eq y x then rest else (y ∷ rest)

unfoldable pub add_calls : ℕ → List ToolCall → List String → Result HistoryError (List String)
add_calls n [] pending = ok pending
add_calls n (c ∷ calls) pending =
    if str_eq c.id ""
    then err (no_call_id n)
    else if has c.id pending
    then err (repeated_call n)
    else add_calls n calls (c.id ∷ pending)

-- The calls that wait after the message.
unfoldable pub pending_after : ℕ → Message → List String → Result HistoryError (List String)
pending_after n m pending =
    if str_eq m.role "assistant" && not (is_empty m.tool_calls)
    then add_calls n m.tool_calls pending
    else if str_eq m.role "tool"
    then (if str_eq m.tool_call_id ""
        then err (no_result_id n)
        else if has m.tool_call_id pending
        then ok (remove m.tool_call_id pending)
        else err (unmatched_result n))
    else ok pending

unfoldable pub scan_message : ℕ → ℕ → Message → Scan → Result HistoryError Scan
scan_message n seq m s = pending_after n m s.pending >>= λ pending.
    let history = s.history ++ m ∷ [] in
    ok (
      if is_empty pending
      then record {
        history = history;
        safe_history = history;
        safe_sequence = seq;
        pending = pending;
      }
      else record s { history = history; pending = pending })

module _ (decode : String → Option Message) where
  unfoldable pub scan_sequence : ℕ → ℕ → Option ℕ → Option String → Scan → Result HistoryError Scan
  scan_sequence n requested none content s = err (bad_sequence n)
  scan_sequence n requested (some seq) content s =
      if seq == 0
      then err (bad_sequence n)
      else if ltb requested seq
      then ok s
      else message_of decode n content >>= λ m. scan_message n seq m s

  unfoldable pub scan_line : ℕ → ℕ → Option LogLine → Scan → Result HistoryError Scan
  scan_line n requested none s = err (bad_line n)
  scan_line n requested (some l) s =
      if not (str_eq l.kind "message") then ok s else scan_sequence n requested l.seq l.content s

  unfoldable pub scan_lines : ℕ → ℕ → List (Option LogLine) → Scan → Result HistoryError Scan
  scan_lines n requested [] s = ok s
  scan_lines n requested (l ∷ ls) s = scan_line n requested l s >>= scan_lines (suc n) requested ls

  -- `LoadSafeMessageHistoryAtOrBefore`
  unfoldable pub load_safe_message_history :
      Option (List (Option LogLine)) → ℕ → Result HistoryError (List Message × ℕ)
  load_safe_message_history file requested =
      if requested == 0
      then err bad_request
      else require file cannot_open >>= λ ls.
          scan_lines 1 requested ls
            (record { history = []; safe_history = []; safe_sequence = 0; pending = [] })
          >>= λ s.
              if is_empty s.safe_history
              then err no_boundary
              else ok (s.safe_history, s.safe_sequence)
