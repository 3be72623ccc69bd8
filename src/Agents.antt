-- ===== src/Agents.antt =====
-- engine/aicli: the loop that runs an agent against a model provider. A run is stopped at a safe
-- point and continued later from the log of its messages. `Host W` holds what is not this code: the
-- provider's answers, the tools, the clock, the hooks that the engine passes in, and functions of
-- Go's library; `W` is the state of all these.
pub mod Client
pub mod Pruning
pub mod Steps
pub mod Rules
pub mod Loop
pub mod Histories
pub mod Replies
pub mod Resume
pub mod Trail
pub mod Answered
pub mod Requests
mod Examples
use headcount.Prelude.{ℕ, String, Bool, Option, List, Result}
use headcount.Workers.{Tool, Registry}

-- The type field of a call is always "function" and is left out.
pub record ToolCall : Type 0 where
  pub id : String
  pub name : String
  pub arguments : String

pub record Message : Type 0 where
  pub role : String
  pub content : String
  pub tool_calls : List ToolCall
  pub tool_call_id : String
  pub name : String

pub record ApiErr : Type 0 where
  pub kind : String
  pub code : String

-- The messages of the choices, and the error that some providers put in the body.
pub record ChatResponse : Type 0 where
  pub choices : List Message
  pub error : Option ApiErr

pub record ChatRequest : Type 0 where
  pub model : String
  pub messages : List Message
  pub reasoning_effort : String

-- What the provider's server sends: nothing, or a status with a body that may not decode.
pub data Reply : Type 0 where
  network_failure : String → Reply
  received : ℕ → Option ChatResponse → Reply

pub data Mode : Type 0 where
  message_history : Mode
  compact_thinking : Mode
  plan_10k : Mode

pub record Agent : Type 0 where
  pub model : String
  pub max_retries : ℕ
  pub retry_base_delay : ℕ
  pub mode : Mode
  pub reasoning_level : String
  pub resume_notice : String
  pub history_already_logged : Bool
  pub terminal_tools : List String

-- An `execute` gets the limit of its time, if it has one, and the sequence of the message that asks.
-- `display` is what the logger writes for display at some point, each with its type.
pub record Host (W : Type 0) : Type 0 where
  pub canceled : W → Bool
  pub send : ChatRequest → W → Reply × W
  pub sleep : ℕ → W → W
  pub registry : W → Registry
  pub execute : Tool → Option ℕ → ℕ → String → W → Result String String × W
  pub before_turn : Option (List Message → W → Result String (List Message) × W)
  pub interrupt : Option (List Message → W → Result String (List Message) × W)
  pub pause_requested : Option (W → Bool)
  pub display : W → List (String × String)
  pub encode : Message → String
  pub trim : String → String
  pub lower : String → String
  pub contains : String → String → Bool

-- A line of the JSONL file.
pub record LogEntry : Type 0 where
  pub kind : String
  pub seq : ℕ
  pub content : String

-- The run as it goes: the world, the log with the next number of it, and the sequence of the last
-- message that was logged.
pub record Session (W : Type 0) : Type 0 where
  pub world : W
  pub entries : List LogEntry
  pub next_seq : ℕ
  pub conversation_sequence : ℕ
