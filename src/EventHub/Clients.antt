-- ===== src/EventHub/Clients.antt =====
-- What one send or one turn of the write pump does to a client.
use headcount.Prelude.{
  ◌≡◌, ◌⊎◌, refl, sym, ap, append-nil, append_assoc, ◌∙◌, inl, inr, String, Bool, Option, none,
  some, List, [], ◌∷◌, ◌++◌, length, if◌then◌else◌, if_elim, Bool-cases, ltb,
}
use headcount.EventHub.{Client, send_buffer_size, send_to, deliver_to, pump_one, pump_queue}

abbrev pub seen : Client → List String
seen c = c.written ++ c.send

-- A client is gone, or it has seen or will see these further messages.
unfoldable pub Moved : Client → List String → Option Client → Type 0
Moved c msgs o =
    (o ≡ none)
    ⊎ ((c' : Client) × (o ≡ some c') × (c'.user_id ≡ c.user_id) × (seen c' ≡ seen c ++ msgs))

pub stays : (c : Client) → Moved c [] (some c)
unfolding Moved
stays c = inr (c, refl, refl, sym (append-nil (seen c)))

send_to-Moved : (msg : String) (c : Client) → Moved c (msg ∷ []) (send_to msg c)
unfolding Moved send_to
send_to-Moved msg c =
    if_elim (Moved c (msg ∷ [])) (ltb (length c.send) send_buffer_size)
      (λ _. inr (
        record c { send = c.send ++ msg ∷ [] },
        refl,
        refl,
        sym (append_assoc c.written c.send (msg ∷ [])),
      ))
      (λ _. inl refl)

pump_queue-seen : (c : Client) (q : List String) → c.send ≡ q → seen (pump_queue c q) ≡ seen c
pump_queue-seen c [] e = refl
pump_queue-seen c (msg ∷ rest) e =
    append_assoc c.written (msg ∷ []) rest ∙ ap (λ q. c.written ++ q) (sym e)

pump_queue-user : (c : Client) (q : List String) → (pump_queue c q).user_id ≡ c.user_id
pump_queue-user c [] = refl
pump_queue-user c (msg ∷ rest) = refl

pub pump_one-Moved : (c : Client) → Moved c [] (pump_one (some c))
unfolding Moved
pump_one-Moved c = inr (
  pump_queue c c.send,
  refl,
  pump_queue-user c c.send,
  pump_queue-seen c c.send refl ∙ sym (append-nil (seen c)),
)

pub deliver_to-Moved :
    (to : Client → Bool) (msg : String) (c : Client)
    → Moved c (if to c then msg ∷ [] else []) (deliver_to to msg (some c))
deliver_to-Moved to msg c = elim (Bool-cases (to c)) [
  | inl t ↦ rw t (send_to-Moved msg c)
  | inr f ↦ rw f (stays c)
]
