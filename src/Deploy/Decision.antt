-- ===== src/Deploy/Decision.antt =====
-- Which events a server applies.
use headcount.Prelude.{
  ◌≡◌, ◌↔◌, ◌⊎◌, inl, inr, String, true, if◌then◌else◌, str_eq, eq_iff, arith, Bool-cases,
}
use headcount.Deploy.{DeployWebhookPayload, Settings, effective_deploy_source, deploy_decision}

-- The kind of event that a server of the environment applies.
abbrev pub wanted : String → Settings → String
wanted env s =
    if str_eq env "staging"
    then "branch"
    else if str_eq s.deploy_source "main"
    then "main"
    else "release"

-- A server applies an event exactly if the event names no other environment, automatic deploys are on,
-- and its kind is the one that the server's environment and source want: branches for staging, and for
-- production main pushes or releases, by the configured source.
deploy_decision_iff :
    (p : DeployWebhookPayload) (env : String) (s : Settings)
    → ((deploy_decision p env s).0 ≡ true) ↔ (
        ((p.target ≡ "") ⊎ (p.target ≡ env))
        × (s.auto_deploy ≡ true)
        × (p.event_type ≡ wanted env s))
unfolding deploy_decision effective_deploy_source
deploy_decision_iff p env s = elim (Bool-cases (str_eq env "staging")) [
  | inl staging ↦
      rw staging
        (ground (arith, eq_iff p.target "", eq_iff p.target env, eq_iff p.event_type "branch"))
  | inr production ↦ elim (Bool-cases (str_eq s.deploy_source "main")) [
    | inl main ↦
        rw (production, main)
          (ground (arith, eq_iff p.target "", eq_iff p.target env, eq_iff p.event_type "main"))
    | inr releases ↦
        rw (production, releases)
          (ground (arith, eq_iff p.target "", eq_iff p.target env, eq_iff p.event_type "release"))
  ]
]
