-- ===== src/Deploy/Examples.antt =====
-- A branch event for a staging server that wants signatures.
use headcount.Prelude.{ℕ, ◌≡◌, ◌⊎◌, String, true, some, List, [], ◌∷◌, Result, ok, err}
use headcount.EnvStore.{Env}
use headcount.Deploy.{
  VersionInfo, DeployWebhookPayload, Settings, Config, Server, UpdateError, deploy_decision,
  deploy_webhook,
}
use headcount.Deploy.Gate.{Admitted, Acted, deploy_webhook-gated}

abbrev payload : DeployWebhookPayload
payload = record {
  event_type = "branch";
  ref = "feature";
  commit = "c2";
  build_date = "";
  version = "2";
  download_url = "https://github.com/x";
  sha256 = "ab";
  signature = "";
  target = "staging";
  env = some (("A", "1") ∷ []);
  env_secret_keys = [];
}

abbrev settings : Settings
settings = record { deploy_source = "main"; auto_deploy = true }

abbrev config : Config
config = record { deploy_key = "key"; public_key = "pk"; env = "staging"; settings = settings }

abbrev running : VersionInfo
running = record { version = "1"; branch = "main"; commit_hash = "c1"; build_date = "" }

abbrev server : Server
server = record {
  store = record { values = []; secret_keys = []; removed_keys = [] };
  current = some running;
  calls = [];
}

abbrev trim : String → String
trim s = s

abbrev any_url : String → Result String (Unit {0})
any_url url = ok tt

abbrev unsigned : String → String → VersionInfo → String → String → Result String (Unit {0})
unsigned url digest target signature key = err "update artifact signature verification failed"

abbrev deploys : String → String → VersionInfo → Result UpdateError (Unit {0})
deploys url digest target = ok tt

abbrev restarts : String → Result String (Unit {0})
restarts reason = ok tt

abbrev decimal : ℕ → String
decimal n = "?"

abbrev hash : Env → List String → String
hash [] secret = ""
hash (e ∷ env) secret = e.1

deploy_webhook-gated_example :
    let after =
      (deploy_webhook trim any_url unsigned deploys restarts decimal hash config "key"
        (some payload)
        server).1 in
    ((after.store ≡ server.store) × (after.calls ≡ []))
    ⊎ ((p : DeployWebhookPayload) × (some payload ≡ some p)
        × Admitted trim any_url config "key" p
        × ((deploy_decision p config.env config.settings).0 ≡ true)
        × Acted trim any_url unsigned deploys restarts decimal hash config p server after)
deploy_webhook-gated_example =
    deploy_webhook-gated trim any_url unsigned deploys restarts decimal hash config "key"
      (some payload) server
