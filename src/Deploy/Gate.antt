-- ===== src/Deploy/Gate.antt =====
-- What a caller of the webhook must present before anything changes.
use headcount.Prelude.{
  ℕ, ◌≡◌, ◌≢◌, refl, subst, ◌⊎◌, inl, inr, String, Bool, true, false, not, Option, none, some, List,
  [], ◌∷◌, ◌++◌, Result, ok, err, reject_if, reject_if-eq-ok, >>-eq-ok, >>=-eq-ok, ◌>>◌,
  Result-cases, if_elim, str_eq, eq_iff, arith, Bool-cases,
}
use headcount.EnvStore.{Env, persist_delivered_env}
use headcount.Deploy.{
  VersionInfo, DeployWebhookPayload, Config, Server, Call, deploy, restart_in_place, UpdateError,
  Response, target_of, is_current, deploy_decision, admit, decoded, bad_url, too_many,
  bad_signature, check_signature, update, signed_update, with_updater, act, deploy_webhook,
}

passed_url : (r : Result String (Unit {0})) → bad_url r ≡ ok tt → r ≡ ok tt
passed_url (err e) h = cc
passed_url (ok tt) h = refl

passed_signature : (r : Result String (Unit {0})) → bad_signature r ≡ ok tt → r ≡ ok tt
passed_signature (err e) h = cc
passed_signature (ok tt) h = refl

not_empty : (t : String) → str_eq t "" ≡ false → t ≢ ""
not_empty t h e = let same : str_eq t "" ≡ true = (eq_iff t "").1 e in cc

module _ (trim : String → String) (validate_download_url : String → Result String (Unit {0})) where
  -- The caller knows the key, and the payload names an allowed URL and a digest, and not too many
  -- variables.
  abbrev pub Admitted : Config → String → DeployWebhookPayload → Type 0
  Admitted c presented p =
      (c.deploy_key ≢ "")
      × (presented ≡ c.deploy_key)
      × (validate_download_url p.download_url ≡ ok tt)
      × (trim p.sha256 ≢ "")
      × (too_many p.env ≡ false)

  payload_admitted :
      (q p : DeployWebhookPayload)
      → (bad_url (validate_download_url q.download_url)
          >> reject_if (str_eq (trim q.sha256) "") (400, "sha256 is required")
          >> reject_if (too_many q.env) (400, "too many env vars")
          >> ok q)
        ≡ ok p
      → (q ≡ p)
        × (validate_download_url q.download_url ≡ ok tt)
        × (trim q.sha256 ≢ "")
        × (too_many q.env ≡ false)
  payload_admitted q p h =
      let (checks, same) = >>-eq-ok _ (ok q) h in
      let (earlier, few) =
        >>-eq-ok _ (reject_if (too_many q.env) (400, "too many env vars")) checks in
      let (url, digest) =
        >>-eq-ok (bad_url (validate_download_url q.download_url))
          (reject_if (str_eq (trim q.sha256) "") (400, "sha256 is required")) earlier in
      (cc, passed_url _ url, not_empty _ (reject_if-eq-ok _ _ digest), reject_if-eq-ok _ _ few)

  decoded-some :
      (body : Option DeployWebhookPayload) (q : DeployWebhookPayload)
      → decoded body ≡ ok q
      → body ≡ some q
  decoded-some none q h = cc
  decoded-some (some p) q h = cc

  pub admit-Admitted :
      (c : Config) (presented : String) (body : Option DeployWebhookPayload)
      (p : DeployWebhookPayload)
      → admit trim validate_download_url c presented body ≡ ok p
      → (body ≡ some p) × Admitted c presented p
  unfolding admit
  admit-Admitted c presented body p h =
      let (keys, rest) =
        >>-eq-ok
          (reject_if (str_eq c.deploy_key "") (404, "not found")
            >> reject_if (not (str_eq presented c.deploy_key)) (401, "invalid deploy key"))
          _ h in
      let (closed, key) = >>-eq-ok (reject_if (str_eq c.deploy_key "") (404, "not found")) _ keys in
      let (q, given, later) = >>=-eq-ok (decoded body) _ rest in
      let (same, url, digest, few) = payload_admitted q p later in
      let known : str_eq presented c.deploy_key ≡ true =
        let wrong : not (str_eq presented c.deploy_key) ≡ false = reject_if-eq-ok _ _ key in
        ground arith in
      subst (λ z. (body ≡ some z) × Admitted c presented z) same
        (
          decoded-some body q given,
          (
            not_empty c.deploy_key (reject_if-eq-ok _ _ closed),
            (eq_iff presented c.deploy_key).0 known,
            url,
            digest,
            few,
          ),
        )

module _ (trim : String → String)
    (verify_artifact_signature : String
      → String
      → VersionInfo
      → String
      → String
      → Result String (Unit {0})) where
  -- The payload is signed, or no public key is configured.
  abbrev pub Signed : Config → DeployWebhookPayload → Type 0
  Signed c p =
      (trim c.public_key ≡ "")
      ⊎ (verify_artifact_signature p.download_url p.sha256 (target_of p) p.signature
            (trim c.public_key)
          ≡ ok tt)

  check_signature-Signed :
      (c : Config) (p : DeployWebhookPayload)
      → check_signature trim verify_artifact_signature c p ≡ ok tt
      → Signed c p
  unfolding check_signature
  check_signature-Signed c p h =
      if_elim (λ (r : Result Response (Unit {0})). r ≡ ok tt → Signed c p)
        (str_eq (trim c.public_key) "")
        (λ open_server _. inl ((eq_iff (trim c.public_key) "").0 open_server))
        (λ _ e. inr (
          passed_signature _
            (>>-eq-ok
              (reject_if (str_eq p.signature "") (400, "signed update envelope is required")) _
              e).1))
        h

-- A call of the updater that a payload may cause.
abbrev pub Asks : DeployWebhookPayload → Call → Type 0
Asks p k =
    (k ≡ deploy p.download_url p.sha256 (target_of p))
    ⊎ (k ≡ restart_in_place "delivered configuration changed")

module _ (run_deploy : String → String → VersionInfo → Result UpdateError (Unit {0}))
    (run_restart : String → Result String (Unit {0})) where
  -- At most one call was made, for this payload, and the store is the given one.
  abbrev pub Called : DeployWebhookPayload → Server → Server → Type 0
  Called p before after =
      (after.store ≡ before.store)
      × ((after.calls ≡ before.calls)
          ⊎ ((k : Call) × Asks p k × (after.calls ≡ before.calls ++ k ∷ [])))

  update-Called :
      (env_changed : Bool) (p : DeployWebhookPayload) (current : VersionInfo) (s : Server)
      → Called p s (update run_deploy run_restart env_changed p current s).1
  unfolding update
  update-Called env_changed p current s =
      let P = λ (r : Response × Server). Called p s r.1 in
      if_elim P (is_current (target_of p) current)
        (λ _. if_elim P env_changed (λ _. (refl, inr (_, inr refl, refl))) (λ _. (refl, inl refl)))
        (λ _. (refl, inr (_, inl refl, refl)))

module _ (trim : String → String) (validate_download_url : String → Result String (Unit {0}))
    (verify_artifact_signature : String
      → String
      → VersionInfo
      → String
      → String
      → Result String (Unit {0}))
    (run_deploy : String → String → VersionInfo → Result UpdateError (Unit {0}))
    (run_restart : String → Result String (Unit {0})) (decimal : ℕ → String)
    (hash : Env → List String → String) where
  abbrev pub Acted : Config → DeployWebhookPayload → Server → Server → Type 0
  Acted c p before after =
      (after.store ≡ (persist_delivered_env decimal hash p.env p.env_secret_keys before.store).1.1)
      × ((after.calls ≡ before.calls)
          ⊎ (Signed trim verify_artifact_signature c p
              × ((k : Call) × Asks p k × (after.calls ≡ before.calls ++ k ∷ []))))

  -- The state after the variables are stored.
  abbrev with_store : DeployWebhookPayload → Server → Server
  with_store p s = record s {
    store = (persist_delivered_env decimal hash p.env p.env_secret_keys s.store).1.1;
  }

  Called-Acted :
      (c : Config) (p : DeployWebhookPayload) (s after : Server)
      → Signed trim verify_artifact_signature c p
      → Called run_deploy run_restart p (with_store p s) after
      → Acted c p s after
  Called-Acted c p s after signed (store, inl none_made) = (store, inl none_made)
  Called-Acted c p s after signed (store, inr made) = (store, inr (signed, made))

  signed_update-Acted :
      (c : Config) (env_changed : Bool) (p : DeployWebhookPayload) (s : Server)
      (current : VersionInfo) (r : Result Response (Unit {0}))
      → check_signature trim verify_artifact_signature c p ≡ r
      → Acted c p s
          (signed_update run_deploy run_restart env_changed p current (with_store p s) r).1
  signed_update-Acted c env_changed p s current (err response) h = (refl, inl refl)
  signed_update-Acted c env_changed p s current (ok tt) h =
      Called-Acted c p s (update run_deploy run_restart env_changed p current (with_store p s)).1
        (check_signature-Signed trim verify_artifact_signature c p h)
        (update-Called run_deploy run_restart env_changed p current (with_store p s))

  with_updater-Acted :
      (c : Config) (env_changed : Bool) (p : DeployWebhookPayload) (s : Server)
      (o : Option VersionInfo)
      → Acted c p s
          (with_updater trim validate_download_url verify_artifact_signature run_deploy run_restart
            decimal hash c env_changed p
            (with_store p s)
            o).1
  with_updater-Acted c env_changed p s none = (refl, inl refl)
  with_updater-Acted c env_changed p s (some current) =
      signed_update-Acted c env_changed p s current _ refl

  abbrev run : Config → String → Option DeployWebhookPayload → Server → Response × Server
  run c presented body s =
      deploy_webhook trim validate_download_url verify_artifact_signature run_deploy run_restart
        decimal hash c presented body s

  -- A call of the webhook that changes the stored variables or asks anything of the updater presented
  -- the configured key and a decodable payload with an allowed URL, a digest and at most 200 variables,
  -- and the event is one that this server applies. The store then holds what the delivery makes of it.
  -- The updater is asked at most once, for this payload's artifact or a restart, and only if the payload
  -- is signed or no public key is configured; the store changes also where the signature is refused.
  pub deploy_webhook-gated :
      (c : Config) (presented : String) (body : Option DeployWebhookPayload) (s : Server)
      → let after = (run c presented body s).1 in
        ((after.store ≡ s.store) × (after.calls ≡ s.calls))
        ⊎ ((p : DeployWebhookPayload) × (body ≡ some p)
            × Admitted trim validate_download_url c presented p
            × ((deploy_decision p c.env c.settings).0 ≡ true)
            × Acted c p s after)
  unfolding deploy_webhook act
  deploy_webhook-gated c presented body s =
      elim (Result-cases (admit trim validate_download_url c presented body)) [
        | inr (response, refused) ↦ rw refused (inl (refl, refl))
        | inl (p, admitted) ↦
            let (given, known) =
              admit-Admitted trim validate_download_url c presented body p admitted in
            elim (Bool-cases (deploy_decision p c.env c.settings).0) [
              | inr ignored ↦ rw (admitted, ignored) (inl (refl, refl))
              | inl applied ↦
                  rw (admitted, applied)
                    (inr (
                      p,
                      given,
                      known,
                      applied,
                      with_updater-Acted c
                          (persist_delivered_env decimal hash p.env p.env_secret_keys s.store).0 p s
                          s.current,
                    ))
            ]
      ]
