-- ===== src/Deploy.antt =====
-- server/controllers/deploy.go: the webhook by which CI starts a deploy. The check of the URL, the
-- signature and the updater's own work are parameters, and the store of variables can be written. A
-- reply is its status and its main text.
pub mod Gate
pub mod Decision
mod Examples
use headcount.Prelude.{
  ℕ, String, Bool, true, false, not, ◌&&◌, Option, none, some, List, [], ◌∷◌, ◌++◌, Result, ok, err,
  reject_if, ◌>>◌, ◌>>=◌, if◌then◌else◌, ltb, str_eq, append, length,
}
use headcount.EnvStore.{Env, Store, persist_delivered_env}

pub record VersionInfo : Type 0 where
  pub version : String
  pub branch : String
  pub commit_hash : String
  pub build_date : String

pub record DeployWebhookPayload : Type 0 where
  pub event_type : String
  pub ref : String
  pub commit : String
  pub build_date : String
  pub version : String
  pub download_url : String
  pub sha256 : String
  pub signature : String
  pub target : String
  pub env : Option Env
  pub env_secret_keys : List String

pub record Settings : Type 0 where
  pub deploy_source : String
  pub auto_deploy : Bool

-- `EffectiveDeploySource`
pub effective_deploy_source : Settings → String
effective_deploy_source s = if str_eq s.deploy_source "main" then "main" else "releases"

-- `deployDecision`
pub deploy_decision : DeployWebhookPayload → String → Settings → Bool × String
deploy_decision p env settings =
    if not (str_eq p.target "") && not (str_eq p.target env)
    then (false, append "event targets " (append p.target (append ", this server is " env)))
    else if not settings.auto_deploy
    then (false, "auto-deploy is disabled on this server")
    else if str_eq env "staging"
    then if str_eq p.event_type "branch"
      then (true, append "staging deploys branch " p.ref)
      else (false, "staging only auto-deploys branch/PR events")
    else if str_eq (effective_deploy_source settings) "main"
    then if str_eq p.event_type "main"
      then (true, "production tracking main: deploying main push")
      else (false, append "production tracks main; ignoring " (append p.event_type " event"))
    else if str_eq p.event_type "release"
    then (true, append "production tracking releases: deploying release " p.ref)
    else (false, append "production tracks releases; ignoring " (append p.event_type " event"))

-- What the webhook asks of the updater.
pub data Call : Type 0 where
  deploy : String → String → VersionInfo → Call
  restart_in_place : String → Call

-- The server: its store of variables, its updater's current version (none without an updater), and the
-- calls of the updater so far.
pub record Server : Type 0 where
  pub store : Store
  pub current : Option VersionInfo
  pub calls : List Call

pub record Config : Type 0 where
  pub deploy_key : String
  pub public_key : String
  pub env : String
  pub settings : Settings

pub data UpdateError : Type 0 where
  in_progress : UpdateError
  update_failed : String → UpdateError

abbrev pub Response : Type 0
Response = ℕ × String

pub target_of : DeployWebhookPayload → VersionInfo
target_of p = record {
  version = p.version;
  branch = p.ref;
  commit_hash = p.commit;
  build_date = p.build_date;
}

-- `IsCurrent`
pub is_current : VersionInfo → VersionInfo → Bool
is_current target current =
    not (str_eq target.commit_hash "") && str_eq target.commit_hash current.commit_hash

abbrev pub bad_url : Result String (Unit {0}) → Result Response (Unit {0})
bad_url (err e) = err (400, e)
bad_url (ok tt) = ok tt

abbrev pub decoded : Option DeployWebhookPayload → Result Response DeployWebhookPayload
decoded none = err (400, "invalid payload")
decoded (some p) = ok p

abbrev pub too_many : Option Env → Bool
too_many none = false
too_many (some env) = ltb 200 (length env)

abbrev pub bad_signature : Result String (Unit {0}) → Result Response (Unit {0})
bad_signature (err e) = err (400, e)
bad_signature (ok tt) = ok tt

abbrev pub call : Call → Server → Server
call k s = record s { calls = s.calls ++ k ∷ [] }

abbrev pub restarted : Result String (Unit {0}) → Response
restarted (err e) = (500, e)
restarted (ok tt) = (202, "restarting")

abbrev pub deployed : Result UpdateError (Unit {0}) → Response
deployed (err in_progress) = (409, "a deploy is in progress")
deployed (err (update_failed e)) = (500, e)
deployed (ok tt) = (202, "deploying")

module _ (trim : String → String) (validate_download_url : String → Result String (Unit {0})) where
  -- The checks of the key and the payload, in the source's order.
  pub admit : Config → String → Option DeployWebhookPayload → Result Response DeployWebhookPayload
  admit c presented body =
      reject_if (str_eq c.deploy_key "") (404, "not found")
      >> reject_if (not (str_eq presented c.deploy_key)) (401, "invalid deploy key")
      >> (decoded body >>= λ p.
          bad_url (validate_download_url p.download_url)
          >> reject_if (str_eq (trim p.sha256) "") (400, "sha256 is required")
          >> reject_if (too_many p.env) (400, "too many env vars")
          >> ok p)

module _ (trim : String → String)
    (verify_artifact_signature : String
      → String
      → VersionInfo
      → String
      → String
      → Result String (Unit {0})) where
  -- The check of the signature, where a public key is configured.
  pub check_signature : Config → DeployWebhookPayload → Result Response (Unit {0})
  check_signature c p =
      if str_eq (trim c.public_key) ""
      then ok tt
      else reject_if (str_eq p.signature "") (400, "signed update envelope is required")
        >> bad_signature (
            verify_artifact_signature p.download_url p.sha256 (target_of p) p.signature
              (trim c.public_key))

module _ (run_deploy : String → String → VersionInfo → Result UpdateError (Unit {0}))
    (run_restart : String → Result String (Unit {0})) where
  -- What follows the check of the signature.
  pub update : Bool → DeployWebhookPayload → VersionInfo → Server → Response × Server
  update env_changed p current s =
      let reason : String = "delivered configuration changed" in
      if is_current (target_of p) current
      then if env_changed
        then (restarted (run_restart reason), call (restart_in_place reason) s)
        else ((200, "already running this commit"), s)
      else (
        deployed (run_deploy p.download_url p.sha256 (target_of p)),
        call (deploy p.download_url p.sha256 (target_of p)) s,
      )

  abbrev pub signed_update :
      Bool
      → DeployWebhookPayload
      → VersionInfo
      → Server
      → Result Response (Unit {0})
      → Response × Server
  signed_update env_changed p current s (err response) = (response, s)
  signed_update env_changed p current s (ok tt) = update env_changed p current s

module _ (trim : String → String) (validate_download_url : String → Result String (Unit {0}))
    (verify_artifact_signature : String
      → String
      → VersionInfo
      → String
      → String
      → Result String (Unit {0}))
    (run_deploy : String → String → VersionInfo → Result UpdateError (Unit {0}))
    (run_restart : String → Result String (Unit {0})) (decimal : ℕ → String)
    (hash : Env → List String → String) where
  abbrev pub with_updater :
      Config → Bool → DeployWebhookPayload → Server → Option VersionInfo → Response × Server
  with_updater c env_changed p s none = ((503, "updater not available"), s)
  with_updater c env_changed p s (some current) =
      signed_update run_deploy run_restart env_changed p current s
        (check_signature trim verify_artifact_signature c p)

  -- What follows a decision to act: the variables are stored first.
  pub act : Config → DeployWebhookPayload → Server → Response × Server
  act c p s =
      let (env_changed, (skipped, store)) =
        persist_delivered_env decimal hash p.env p.env_secret_keys s.store in
      with_updater c env_changed p (record s { store = store }) s.current

  abbrev pub decide : Config → Server → Result Response DeployWebhookPayload → Response × Server
  decide c s (err response) = (response, s)
  decide c s (ok p) =
      if (deploy_decision p c.env c.settings).0
      then act c p s
      else ((200, (deploy_decision p c.env c.settings).1), s)

  -- `DeployWebhook`
  pub deploy_webhook : Config → String → Option DeployWebhookPayload → Server → Response × Server
  deploy_webhook c presented body s = decide c s (admit trim validate_download_url c presented body)
