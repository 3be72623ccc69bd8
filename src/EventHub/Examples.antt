-- ===== src/EventHub/Examples.antt =====
-- A hub with one company of users 5 and 6, and a client of user 5.
use headcount.Prelude.{
  ℕ, ◌≡◌, refl, String, true, Option, none, some, List, [], ◌∷◌, ◌++◌, if◌then◌else◌, ◌==◌,
}
use headcount.EventHub.{
  Client, Hub, new_hub, broadcast_event_for_company, broadcast_by, broadcast_event, send_all,
  deliver, send_to, broadcast_raw_to_users, write_pump,
}
use headcount.EventHub.Clients.{seen}
use headcount.EventHub.Streams.{Step, for_all, for_company, pumped, step, steps, addressed, no_gap}

abbrev resolve : ℕ → Option (List ℕ)
resolve company = if company == 1 then some (5 ∷ 6 ∷ []) else none

abbrev json : String → String → Option String
json event_type payload = some payload

abbrev client : List String → Client
client written = record { user_id = 5; send = []; written = written }

abbrev hub : Hub
hub = record new_hub {
  clients = λ k. if k == 3 then some (client []) else none;
  company_recipients = some resolve;
}

-- Company 2 has no owner, so nobody sees its event.
abbrev traffic : List (Step json)
traffic =
    for_company 1 "run_log" "a"
    ∷ for_company 2 "run_log" "b"
    ∷ pumped 3 true
    ∷ for_all "ping" "c"
    ∷ pumped 3 true
    ∷ []

after_traffic : (steps json traffic hub).clients 3 ≡ some (client ("a" ∷ "c" ∷ []))
unfolding steps step broadcast_event_for_company broadcast_by broadcast_event send_all deliver
    send_to broadcast_raw_to_users write_pump
after_traffic = refl

no_gap_example :
    ((client ("a" ∷ "c" ∷ [])).user_id ≡ 5)
    × (seen (client ("a" ∷ "c" ∷ [])) ≡ seen (client []) ++ addressed json (some resolve) 5 traffic)
no_gap_example =
    no_gap json traffic hub 3 (client []) (client ("a" ∷ "c" ∷ [])) (tt, (tt, (tt, (tt, (tt, tt)))))
      refl after_traffic
