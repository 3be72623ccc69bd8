-- ===== src/EventHub/Streams.antt =====
-- What a client sees: a stream without gaps, of the events that are addressed to its user.
use headcount.Prelude.{
  ℕ, ◌≡◌, ◌≢◌, refl, sym, ap, subst, append-nil, append_assoc, ◌∙◌, inl, inr, String, Bool, true,
  false, Option, none, some, some-injective, All, List, [], ◌∷◌, ◌++◌, if◌then◌else◌, if_elim, ◌==◌,
  ==_iff,
}
use headcount.EventHub.{
  Client, Hub, set_client, serve, close_client, elem, deliver, send_all, broadcast_raw_to_users,
  broadcast_event, broadcast_by, broadcast_event_for_company, known, pump_one, write_pump,
  send_marshaled,
}
use headcount.EventHub.Clients.{seen, Moved, stays, pump_one-Moved, deliver_to-Moved}

module _ {Payload : Type 0} (marshal : String → Payload → Option String) where
  -- What happens to a hub: events for all or for a company, a turn of a client's write pump (and
  -- whether the write works), a new connection, and a connection that ends.
  pub data Step : Type 0 where
    for_all : (event_type : String) (payload : Payload) → Step
    for_company : (company : ℕ) (event_type : String) (payload : Payload) → Step
    pumped : (client : ℕ) (works : Bool) → Step
    joined : (client user : ℕ) → Step
    left : (client : ℕ) → Step

  unfoldable pub step : Step → Hub → Hub
  step (for_all event_type payload) h = (broadcast_event marshal event_type payload h).1
  step (for_company company event_type payload) h =
      (broadcast_event_for_company marshal company event_type payload h).1
  step (pumped c works) h = write_pump c works h
  step (joined c user) h = serve c user h
  step (left c) h = close_client c h

  unfoldable pub steps : List Step → Hub → Hub
  steps [] h = h
  steps (s ∷ ss) h = steps ss (step s h)

  -- The independent description: whether the resolver lets a user see a company's events.
  abbrev pub audience : Option (ℕ → Option (List ℕ)) → ℕ → ℕ → Bool
  audience none company user = true
  audience (some resolve) company user = elem user (known marshal (resolve company))

  abbrev pub frame : Option String → List String
  frame none = []
  frame (some msg) = msg ∷ []

  abbrev pub to_user : Option (ℕ → Option (List ℕ)) → ℕ → Step → List String
  to_user rec user (for_all event_type payload) = frame (marshal event_type payload)
  to_user rec user (for_company company event_type payload) =
      if audience rec company user then frame (marshal event_type payload) else []
  to_user rec user (pumped c works) = []
  to_user rec user (joined c u) = []
  to_user rec user (left c) = []

  abbrev pub addressed : Option (ℕ → Option (List ℕ)) → ℕ → List Step → List String
  addressed rec user [] = []
  addressed rec user (s ∷ ss) = to_user rec user s ++ addressed rec user ss

  -- The step does not reuse a connection number.
  abbrev pub IsOther : ℕ → Step → Type 0
  IsOther k (joined c user) = c ≢ k
  IsOther k (for_all event_type payload) = Unit
  IsOther k (for_company company event_type payload) = Unit
  IsOther k (pumped c works) = Unit
  IsOther k (left c) = Unit

  module _ (h : Hub) (k : ℕ) (c : Client) (at_k : h.clients k ≡ some c) where
    unmoved : Moved c [] (h.clients k)
    unmoved = rw at_k (stays c)

    set_client-Moved :
        (d : ℕ) (v : Option Client)
        → (d ≡ k → Moved c [] v)
        → Moved c [] ((set_client d v h).clients k)
    set_client-Moved d v hit =
        if_elim (Moved c []) (d == k) (λ t. hit ((==_iff d k).0 t)) (λ _. unmoved)

    gone : (d : ℕ) → Moved c [] ((set_client d none h).clients k)
    unfolding Moved
    gone d = set_client-Moved d none (λ _. inl refl)

    deliver-Moved :
        (to : Client → Bool) (m : Option String)
        → Moved c
            (if to c then frame m else [])
            ((send_marshaled marshal m (deliver to) h).clients k)
    unfolding deliver
    deliver-Moved to none =
        if_elim (λ msgs. Moved c msgs (h.clients k)) (to c) (λ _. unmoved) (λ _. unmoved)
    deliver-Moved to (some msg) = rw at_k (deliver_to-Moved to msg c)

    users-Moved :
        (us : List ℕ) (m : Option String)
        → Moved c
            (if elem c.user_id us then frame m else [])
            ((send_marshaled marshal m (broadcast_raw_to_users us) h).clients k)
    unfolding broadcast_raw_to_users
    users-Moved [] none = rw at_k (stays c)
    users-Moved [] (some msg) = rw at_k (stays c)
    users-Moved (u ∷ us) m = deliver-Moved (λ x. elem x.user_id (u ∷ us)) m

    company-Moved :
        (rec : Option (ℕ → Option (List ℕ))) (company : ℕ) (event_type : String) (payload : Payload)
        → Moved c
            (to_user rec c.user_id (for_company company event_type payload))
            ((broadcast_by marshal rec company event_type payload h).1.clients k)
    unfolding broadcast_by broadcast_event send_all
    company-Moved none company event_type payload =
        deliver-Moved (λ x. true) (marshal event_type payload)
    company-Moved (some resolve) company event_type payload =
        users-Moved (known marshal (resolve company)) (marshal event_type payload)

    step-Moved :
        (s : Step)
        → IsOther k s
        → Moved c (to_user h.company_recipients c.user_id s) ((step s h).clients k)
    unfolding step
    step-Moved (for_all event_type payload) other =
        unfold broadcast_event send_all in deliver-Moved (λ x. true) (marshal event_type payload)
    step-Moved (for_company company event_type payload) other =
        unfold broadcast_event_for_company in
        company-Moved h.company_recipients company event_type payload
    step-Moved (pumped d true) other =
        unfold write_pump in
        set_client-Moved d (pump_one (h.clients d)) (λ same.
          subst (λ o. Moved c [] (pump_one o)) (sym (ap h.clients same ∙ at_k)) (pump_one-Moved c))
    step-Moved (pumped d false) other = unfold write_pump close_client in gone d
    step-Moved (joined d user) other =
        unfold serve in set_client-Moved d _ (λ same. absurd (other same))
    step-Moved (left d) other = unfold close_client in gone d

  -- The resolver stays, and a client that is gone stays gone.
  abbrev Stable : ℕ → Hub → Hub → Type 0
  Stable k h h' =
      (h'.company_recipients ≡ h.company_recipients) × (h.clients k ≡ none → h'.clients k ≡ none)

  module _ (h : Hub) (k : ℕ) where
    set_client-Stable :
        (d : ℕ) (v : Option Client)
        → (d ≡ k → h.clients k ≡ none → v ≡ none)
        → Stable k h (set_client d v h)
    set_client-Stable d v hit =
        (refl, λ e. if_elim (λ o. o ≡ none) (d == k) (λ t. hit ((==_iff d k).0 t) e) (λ _. e))

    deliver-Stable :
        (to : Client → Bool) (m : Option String)
        → Stable k h (send_marshaled marshal m (deliver to) h)
    unfolding deliver
    deliver-Stable to none = (refl, λ e. e)
    deliver-Stable to (some msg) = (refl, λ e. rw e refl)

    users-Stable :
        (us : List ℕ) (m : Option String)
        → Stable k h (send_marshaled marshal m (broadcast_raw_to_users us) h)
    unfolding broadcast_raw_to_users
    users-Stable [] none = (refl, λ e. e)
    users-Stable [] (some msg) = (refl, λ e. e)
    users-Stable (u ∷ us) m = deliver-Stable (λ x. elem x.user_id (u ∷ us)) m

    company-Stable :
        (rec : Option (ℕ → Option (List ℕ))) (company : ℕ) (event_type : String) (payload : Payload)
        → Stable k h (broadcast_by marshal rec company event_type payload h).1
    unfolding broadcast_by broadcast_event send_all
    company-Stable none company event_type payload =
        deliver-Stable (λ x. true) (marshal event_type payload)
    company-Stable (some resolve) company event_type payload =
        users-Stable (known marshal (resolve company)) (marshal event_type payload)

    step-Stable : (s : Step) → IsOther k s → Stable k h (step s h)
    unfolding step
    step-Stable (for_all event_type payload) other =
        unfold broadcast_event send_all in deliver-Stable (λ x. true) (marshal event_type payload)
    step-Stable (for_company company event_type payload) other =
        unfold broadcast_event_for_company in
        company-Stable h.company_recipients company event_type payload
    step-Stable (pumped d true) other =
        unfold write_pump in
        set_client-Stable d (pump_one (h.clients d)) (λ same e. ap pump_one (ap h.clients same ∙ e))
    step-Stable (pumped d false) other =
        unfold write_pump close_client in set_client-Stable d none (λ _ _. refl)
    step-Stable (joined d user) other =
        unfold serve in set_client-Stable d _ (λ same e. absurd (other same))
    step-Stable (left d) other = unfold close_client in set_client-Stable d none (λ _ _. refl)

  steps-none :
      (ss : List Step) (h : Hub) (k : ℕ)
      → All (IsOther k) ss
      → h.clients k ≡ none
      → (steps ss h).clients k ≡ none
  unfolding steps
  steps-none [] h k others e = e
  steps-none (s ∷ ss) h k others e =
      steps-none ss (step s h) k others.1 ((step-Stable h k s others.0).1 e)

  -- If a client is connected, and after some steps, none of which opens a connection of its number,
  -- it is still connected, then it belongs to the same user, and what it was sent and still holds
  -- is what it had before, and after it exactly the messages addressed to its user, in order.
  pub no_gap :
      (ss : List Step) (h : Hub) (k : ℕ) (c c' : Client)
      → All (IsOther k) ss
      → h.clients k ≡ some c
      → (steps ss h).clients k ≡ some c'
      → (c'.user_id ≡ c.user_id) × (seen c' ≡ seen c ++ addressed h.company_recipients c.user_id ss)
  unfolding steps Moved
  no_gap [] h k c c' others at_k later =
      let same : c ≡ c' = some-injective _ _ (sym at_k ∙ later) in
      (ap (λ (x : Client). x.user_id) (sym same), ap seen (sym same) ∙ sym (append-nil (seen c)))
  no_gap (s ∷ ss) h k c c' others at_k later = elim (step-Moved h k c at_k s others.0) [
    | inl off ↦ absurd (cc (steps-none ss (step s h) k others.1 off, later))
    | inr (d, at_d, user, seen_d) ↦
        let (user', seen') = no_gap ss (step s h) k d c' others.1 at_d later in
        let kept = (step-Stable h k s others.0).0 in
        (
          user' ∙ user,
          seen'
              ∙ ap (λ r. seen d ++ addressed r d.user_id ss) kept
              ∙ ap (λ u. seen d ++ addressed h.company_recipients u ss) user
              ∙ ap (λ l. l ++ addressed h.company_recipients c.user_id ss) seen_d
              ∙ append_assoc (seen c) _ _,
        )
  ]
