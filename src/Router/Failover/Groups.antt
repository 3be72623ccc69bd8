-- ===== src/Router/Failover/Groups.antt =====
-- What a request to a group of models obtains.
use headcount.Prelude.{
  ℕ, ◌≡◌, ◌≢◌, refl, ap, subst, ◌∙◌, String, true, false, Option, none, some, List, [], ◌∷◌, ◌==◌,
  arith, ◌<◌, ◌⊎◌, Memᴰ,
}
use headcount.Router.{ModelGroupMember, ModelGroup, Outcome, Gateway, expand_model_group_members}
use headcount.Router.Failover.{
  Upstream, Relay, Request, Reply, passed_on, refused, has_foreign, serve_members, serve_group,
  Probe, classify_response,
}
use headcount.Router.Failover.Attempts.{good}

has_foreign_mem :
    (user owner : ℕ) (members : List ModelGroupMember) (m : ModelGroupMember)
    → Memᴰ m members
    → m.provider.user_id ≡ some owner
    → owner ≢ user
    → has_foreign (some user) members ≡ true
unfolding has_foreign
has_foreign_mem user owner [] m h owned other = elim h [ ]
has_foreign_mem user owner (x ∷ members) m (Memᴰ.head e) owned other =
    let own : x.provider.user_id ≡ some owner =
      subst (λ z. z.provider.user_id ≡ some owner) e owned in
    let differs : (owner == user) ≡ false = ground arith in rw (own, differs) refl
has_foreign_mem user owner (x ∷ members) m (Memᴰ.tail h) owned other =
    let rest = has_foreign_mem user owner members m h owned other in ground arith

module _ (speed : ℕ → ℕ → ℕ) (classify : ℕ → String → Outcome × String)
    (upstream : ℕ → ModelGroupMember → Upstream) (relay : ℕ → ModelGroupMember → Relay)
    (usage : String → ℕ × ℕ) (took clock : ℕ → ℕ) (group_id : ℕ) (req : Request)
    (names : String → List String) where
  foreign_refused :
      (now : ℕ) (owner : Option ℕ) (members : List ModelGroupMember) (g : Gateway)
      → has_foreign owner members ≡ true
      → serve_members speed classify upstream relay usage took clock group_id req now owner members
          g
        ≡ (refused 403 "Model group references a provider owned by another user", g)
  unfolding serve_members has_foreign
  foreign_refused now none [] g foreign = cc
  foreign_refused now (some user) [] g foreign = cc
  foreign_refused now owner (m ∷ members) g foreign = rw foreign refl

  -- If a group of a user has, once its members are expanded to the models that can be tried, a member
  -- whose provider another user owns, then a request to the group is refused with 403, and no member is
  -- tried: neither the health nor the statistics change.
  pub serve_group-refuses_foreign :
      (now : ℕ) (group : ModelGroup) (g : Gateway) (m : ModelGroupMember) (user owner : ℕ)
      → group.user_id ≡ some user
      → Memᴰ m (expand_model_group_members names group.members)
      → m.provider.user_id ≡ some owner
      → owner ≢ user
      → serve_group speed classify upstream relay usage took clock group_id req names now group g
        ≡ (refused 403 "Model group references a provider owned by another user", g)
  unfolding serve_group serve_members
  serve_group-refuses_foreign now group g m user owner grouped h owned other =
      let members = expand_model_group_members names group.members in
      foreign_refused now group.user_id members g (
        ap (λ o. has_foreign o members) grouped
        ∙ has_foreign_mem user owner members m h owned other)

  abbrev pub Served : List ModelGroupMember → Reply → Type 0
  Served members reply =
      (k : ℕ) × (chosen : ModelGroupMember) × (answer : ℕ × String) × (reply
        ≡ passed_on chosen answer.0 answer.1)
      × Memᴰ chosen members
      × (good classify (upstream k chosen) ≡ some answer)

-- The body holds no error object, or holds choices, or does not decode.
abbrev pub NoErrorIn : Option Probe → Type 0
NoErrorIn none = Unit
NoErrorIn (some p) = (p.error ≡ none) ⊎ (p.has_choices ≡ true)

module _ (lower trim : String → String) (decimal : ℕ → String) (probe : String → Option Probe)
    (error_text : String → String) where
  abbrev pub classified : ℕ → String → Outcome × String
  classified = classify_response lower trim decimal probe error_text

  -- The reply is the answer of a member of the group, which is no error.
  abbrev pub Answered : List ModelGroupMember → Reply → Type 0
  Answered members reply =
      (chosen : ModelGroupMember) × (status : ℕ) × (body : String) × Memᴰ chosen members
      × (reply ≡ passed_on chosen status body)
      × (status < 400)
      × NoErrorIn (probe body)
