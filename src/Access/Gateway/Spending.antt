-- ===== src/Access/Gateway/Spending.antt =====
-- Whose keys a request to the gateway can spend.
use headcount.Prelude.{
  ℕ, ◌≡◌, ◌≢◌, refl, ap, subst, ◌∙◌, ◌⊎◌, inl, inr, String, Bool, true, false, not, ◌&&◌, Option,
  none, some, if◌then◌else◌, if_elim, ◌==◌, is_num, is_some, str_eq, eq_iff, arith, Bool-cases,
}
use headcount.Router.{LlmProvider}
use headcount.Access.{int32, Company, Tables}
use headcount.Access.Tenancy.{Grants, company_grants_user-Grants}
use headcount.Access.Gateway.{
  GatewayPrincipal, Admission, admitted, GatewayRequest, company_of_run, granted, user_may_use_run,
  as_run, as_user, session_of, require_gateway_auth, run_may_use, user_owned_resource_allowed,
  may_use_provider,
}

module _ (db : Tables) where
  -- The company of the run is one of the user's tenants.
  abbrev pub RunOf : ℕ → ℕ → Type 0
  RunOf run user = (c : Company) × (company_of_run db run ≡ some c) × Grants db user c

  granted_by :
      (o : Option Company) (user : ℕ)
      → granted db o user ≡ true
      → (c : Company) × (o ≡ some c) × Grants db user c
  granted_by none user h = cc
  granted_by (some c) user h = (c, refl, company_grants_user-Grants db user c h)

  -- Who a request acts for: the run of its token, and then the run that it names is that one; or the user
  -- of its session, and then the run that it names is of one of the user's tenants.
  abbrev pub ActsFor :
      (String → Option ℕ) → (String → Option ℕ) → GatewayRequest → GatewayPrincipal → Type 0
  ActsFor validate session_user r p =
      ((validate r.token ≡ some p.run_id)
        × (p.user_id ≡ 0)
        × ((r.claimed ≡ 0) ⊎ (int32 r.claimed ≡ p.run_id)))
      ⊎ ((session_of session_user r.cookie ≡ some p.user_id)
          × (p.run_id ≡ 0)
          × ((r.claimed ≡ 0) ⊎ RunOf (int32 r.claimed) p.user_id))

  as_run-admitted :
      (claimed : ℕ) (o : Option ℕ) (p : GatewayPrincipal)
      → as_run claimed o ≡ admitted p
      → (o ≡ some p.run_id) × (p.user_id ≡ 0) × ((claimed ≡ 0) ⊎ (int32 claimed ≡ p.run_id))
  as_run-admitted claimed none p h = cc
  as_run-admitted claimed (some run) p h =
      let Q = λ (z : GatewayPrincipal).
        (◌≡◌ {A = Option ℕ} (some run) (some z.run_id))
        × (z.user_id ≡ 0)
        × ((claimed ≡ 0) ⊎ (int32 claimed ≡ z.run_id)) in
      if_elim (λ (a : Admission). a ≡ admitted p → Q p)
        (not (claimed == 0) && not (int32 claimed == run)) (λ _ e. cc)
        (λ fits e.
          let same : record { run_id = run; user_id = 0 } ≡ p = cc in
          let named : (claimed ≡ 0) ⊎ (int32 claimed ≡ run) = ground arith in
          subst Q same (refl, refl, named))
        h

  named_run :
      (claimed user : ℕ)
      → (not (claimed == 0) && not (user_may_use_run db user (int32 claimed))) ≡ false
      → (claimed ≡ 0) ⊎ RunOf (int32 claimed) user
  unfolding user_may_use_run
  named_run claimed user fits = elim (Bool-cases (user_may_use_run db user (int32 claimed))) [
    | inl t ↦ inr (granted_by (company_of_run db (int32 claimed)) user t)
    | inr f ↦ inl (ground arith)
  ]

  as_user-admitted :
      (claimed : ℕ) (o : Option ℕ) (p : GatewayPrincipal)
      → as_user db claimed o ≡ admitted p
      → (o ≡ some p.user_id) × (p.run_id ≡ 0) × ((claimed ≡ 0) ⊎ RunOf (int32 claimed) p.user_id)
  as_user-admitted claimed none p h = cc
  as_user-admitted claimed (some user) p h =
      let Q = λ (z : GatewayPrincipal).
        (◌≡◌ {A = Option ℕ} (some user) (some z.user_id))
        × (z.run_id ≡ 0)
        × ((claimed ≡ 0) ⊎ RunOf (int32 claimed) z.user_id) in
      if_elim (λ (a : Admission). a ≡ admitted p → Q p)
        (not (claimed == 0) && not (user_may_use_run db user (int32 claimed))) (λ _ e. cc)
        (λ fits e.
          let same : record { run_id = 0; user_id = user } ≡ p = cc in
          subst Q same (refl, refl, named_run claimed user fits))
        h

  require_gateway_auth-ActsFor :
      (validate session_user : String → Option ℕ) (r : GatewayRequest) (p : GatewayPrincipal)
      → require_gateway_auth (some validate) session_user db r ≡ admitted p
      → ActsFor validate session_user r p
  unfolding require_gateway_auth
  require_gateway_auth-ActsFor validate session_user r p h =
      if_elim (λ (a : Admission). a ≡ admitted p → ActsFor validate session_user r p)
        (not (str_eq r.token "")) (λ _ e. inl (as_run-admitted r.claimed (validate r.token) p e))
        (λ _ e. inr (as_user-admitted r.claimed (session_of session_user r.cookie) p e)) h

  -- A provider that a request may spend: the user's own; for a run, one whose owner the run's company is
  -- open to, or one without an owner that is of the catalog or has no key.
  abbrev pub MaySpend : GatewayPrincipal → LlmProvider → Type 0
  MaySpend p provider =
      (provider.user_id ≡ some p.user_id)
      ⊎ (((owner : ℕ) × (provider.user_id ≡ some owner) × RunOf p.run_id owner)
          ⊎ ((provider.user_id ≡ none)
              × ((provider.builtin ≡ true) ⊎ (provider.api_key_encrypted ≡ ""))))

  num_is : (o : Option ℕ) (n : ℕ) → is_num o n ≡ true → o ≡ some n
  num_is none n h = cc
  num_is (some m) n h = ap some (ground arith)

  user_spends :
      (p : GatewayPrincipal) (provider : LlmProvider)
      → p.user_id ≢ 0
      → may_use_provider db p provider ≡ true
      → MaySpend p provider
  unfolding may_use_provider user_owned_resource_allowed
  user_spends p provider user h =
      let own : is_num provider.user_id p.user_id ≡ true = ground arith in
      inl (num_is provider.user_id p.user_id own)

  run_owner :
      (p : GatewayPrincipal) (o : Option ℕ) (builtin : Bool) (key : String)
      → p.user_id ≡ 0
      → p.run_id ≢ 0
      → (if ((not (p.run_id == 0) && not (is_some o)) && not builtin) && not (str_eq key "")
          then false
          else if not (p.user_id == 0)
          then is_num o p.user_id
          else if not (p.run_id == 0)
          then run_may_use db p.run_id o
          else true)
        ≡ true
      → ((owner : ℕ) × (o ≡ some owner) × RunOf p.run_id owner)
        ⊎ ((o ≡ none) × ((builtin ≡ true) ⊎ (key ≡ "")))
  run_owner p none builtin key user run h = inr (refl, ground (arith, eq_iff key ""))
  run_owner p (some owner) builtin key user run h =
      let given : granted db (company_of_run db p.run_id) owner ≡ true = ground arith in
      inl (owner, refl, granted_by (company_of_run db p.run_id) owner given)

  run_spends :
      (p : GatewayPrincipal) (provider : LlmProvider)
      → p.user_id ≡ 0
      → p.run_id ≢ 0
      → may_use_provider db p provider ≡ true
      → MaySpend p provider
  unfolding may_use_provider user_owned_resource_allowed
  run_spends p provider user run h =
      inr (run_owner p provider.user_id provider.builtin provider.api_key_encrypted user run h)

-- Let the gateway check run tokens, and let no token name the run 0 and no session the user 0. If a
-- request is admitted and may use a provider, then it acts for the run of its token or the user of its
-- session, a run that it names in its header is that run or of one of the user's tenants, and the
-- provider is the user's own, or its owner is in the tenant of the run, or it has no owner and is of the
-- catalog or has no key.
pub may_use_provider-MaySpend :
    (db : Tables) (validate session_user : String → Option ℕ) (r : GatewayRequest)
    (p : GatewayPrincipal) (provider : LlmProvider)
    → validate r.token ≢ some 0
    → session_of session_user r.cookie ≢ some 0
    → require_gateway_auth (some validate) session_user db r ≡ admitted p
    → may_use_provider db p provider ≡ true
    → ActsFor db validate session_user r p × MaySpend db p provider
may_use_provider-MaySpend db validate session_user r p provider no_run no_user admission use_it =
    let acts = require_gateway_auth-ActsFor db validate session_user r p admission in
    (
      acts,
      elim acts [
        | inl (token, user, named) ↦
            run_spends db p provider user (λ e. no_run (token ∙ ap some e)) use_it
        | inr (session, run, named) ↦
            user_spends db p provider (λ e. no_user (session ∙ ap some e)) use_it
      ],
    )
