-- ===== src/EventHub.antt =====
-- eventhub/hub.go: delivery of events to WebSocket clients and in-process subscribers. The set of
-- clients is a function from connection numbers, `written` is the frames that a client's write
-- pump has put on the wire, and JSON encoding (`marshal`) is a parameter.
pub mod Clients
pub mod Streams
mod Examples
use headcount.Prelude.{
  ℕ, String, Bool, true, false, ◌||◌, Option, none, some, List, [], ◌∷◌, ◌++◌, map, length, delete,
  if◌then◌else◌, ltb, ◌==◌, str_eq,
}

abbrev pub send_buffer_size : ℕ
send_buffer_size = 1024

pub record Client : Type 0 where
  pub user_id : ℕ
  pub send : List String
  pub written : List String

-- `company_recipients` is `none` when no resolver is installed.
pub record Hub : Type 0 where
  pub clients : ℕ → Option Client
  pub subscribers : List String
  pub company_recipients : Option (ℕ → Option (List ℕ))

abbrev pub new_hub : Hub
new_hub = record { clients = λ c. none; subscribers = []; company_recipients = none }

-- `Subscribe` replaces the callback of the same id.
abbrev pub unsubscribe : String → Hub → Hub
unsubscribe id h = record h { subscribers = delete (λ s. str_eq s id) h.subscribers }

abbrev pub subscribe : String → Hub → Hub
subscribe id h = record h { subscribers = delete (λ s. str_eq s id) h.subscribers ++ id ∷ [] }

abbrev pub set_company_recipients_resolver : (ℕ → Option (List ℕ)) → Hub → Hub
set_company_recipients_resolver fn h = record h { company_recipients = some fn }

abbrev pub set_client : ℕ → Option Client → Hub → Hub
set_client c v h = record h { clients = λ k. if c == k then v else h.clients k }

-- `Serve`
pub serve : ℕ → ℕ → Hub → Hub
serve c user h = set_client c (some (record { user_id = user; send = []; written = [] })) h

-- `close` of a client
pub close_client : ℕ → Hub → Hub
close_client c h = set_client c none h

-- `Close` of the hub
pub close_hub : Hub → Hub
close_hub h = record h { clients = λ c. none }

abbrev pub elem : ℕ → List ℕ → Bool
elem n [] = false
elem n (m ∷ ms) = m == n || elem n ms

-- One iteration of `deliver`: a client whose queue is full is disconnected.
pub send_to : String → Client → Option Client
send_to msg c =
    if ltb (length c.send) send_buffer_size
    then some (record c { send = c.send ++ msg ∷ [] })
    else none

abbrev pub deliver_to : (Client → Bool) → String → Option Client → Option Client
deliver_to to msg none = none
deliver_to to msg (some c) = if to c then send_to msg c else some c

-- `deliver` to the registered clients that `to` selects.
pub deliver : (Client → Bool) → String → Hub → Hub
deliver to msg h = record h { clients = λ k. deliver_to to msg (h.clients k) }

-- `broadcastRaw` and `sendAll`
pub send_all : String → Hub → Hub
send_all msg h = deliver (λ c. true) msg h

-- `broadcastRawToUsers`
pub broadcast_raw_to_users : List ℕ → String → Hub → Hub
broadcast_raw_to_users [] msg h = h
broadcast_raw_to_users (u ∷ us) msg h = deliver (λ c. elem c.user_id (u ∷ us)) msg h

module _ {Payload : Type 0} (marshal : String → Payload → Option String) where
  abbrev pub Calls : Type 0
  Calls = List (String × String × Payload)

  -- `notifySubscribers`: the calls of the callbacks, which recover from panics.
  pub notify_subscribers : String → Payload → Hub → Calls
  notify_subscribers event_type payload h = map (λ s. (s, event_type, payload)) h.subscribers

  abbrev pub send_marshaled : Option String → (String → Hub → Hub) → Hub → Hub
  send_marshaled none send h = h
  send_marshaled (some msg) send h = send msg h

  -- `BroadcastEvent`
  pub broadcast_event : String → Payload → Hub → Calls × Hub
  broadcast_event event_type payload h = (
    notify_subscribers event_type payload h,
    send_marshaled (marshal event_type payload) send_all h,
  )

  abbrev pub known : Option (List ℕ) → List ℕ
  known none = []
  known (some recipients) = recipients

  -- The body of `BroadcastEventForCompany`, by the resolver that it has read.
  pub broadcast_by : Option (ℕ → Option (List ℕ)) → ℕ → String → Payload → Hub → Calls × Hub
  broadcast_by none company event_type payload h = broadcast_event event_type payload h
  broadcast_by (some resolve) company event_type payload h = (
    notify_subscribers event_type payload h,
    send_marshaled (marshal event_type payload) (broadcast_raw_to_users (known (resolve company)))
        h,
  )

  -- `BroadcastEventForCompany`
  pub broadcast_event_for_company : ℕ → String → Payload → Hub → Calls × Hub
  broadcast_event_for_company company event_type payload h =
      broadcast_by h.company_recipients company event_type payload h

abbrev pub pump_queue : Client → List String → Client
pump_queue c [] = c
pump_queue c (msg ∷ rest) = record c { send = rest; written = c.written ++ msg ∷ [] }

abbrev pub pump_one : Option Client → Option Client
pump_one none = none
pump_one (some c) = some (pump_queue c c.send)

-- `writePump` takes the next message and writes it; a failed write closes the client.
pub write_pump : ℕ → Bool → Hub → Hub
write_pump c true h = set_client c (pump_one (h.clients c)) h
write_pump c false h = close_client c h
