-- ===== src/EnvStore.antt =====
-- pkg/envstore/envstore.go: the environment variables that deploys deliver. A map is a list of pairs, a
-- process environment is a function from names, and reading and writing the file always succeeds; the
-- SHA-256 over the length-prefixed entries is the parameter `hash` over the sorted entries.
pub mod Partition
pub mod Effects
pub mod Environments
pub mod Deliveries
mod Examples
use headcount.Prelude.{
  ℕ, zero, suc, String, Bool, true, false, ◌&&◌, ◌||◌, Option, none, some, List, [], ◌∷◌, ◌++◌, map,
  Result, ok, err, reject_if, ◌>>◌, if◌then◌else◌, ltb, leb, ◌==◌, str_eq, starts_with, first,
  is_some, append, len, sort, has_nul, text_before,
}
use Prim.Native.Char.{Char, code}

abbrev pub max_value_bytes : ℕ
max_value_bytes = 65536

abbrev is_upper : Char → Bool
is_upper c = leb 65 (code c) && leb (code c) 90

abbrev is_name_char : Char → Bool
is_name_char c = is_upper c || (leb 48 (code c) && leb (code c) 57) || code c == 95

-- At most `n` characters, each of `[A-Z0-9_]`.
pub name_tail : ℕ → String → Bool
name_tail n String.[] = true
name_tail zero (String.◌∷◌ c s) = false
name_tail (suc n) (String.◌∷◌ c s) = is_name_char c && name_tail n s

-- `keyPattern`
pub matches_key : String → Bool
matches_key String.[] = false
matches_key (String.◌∷◌ c s) = is_upper c && name_tail 126 s

-- A prefix or a name, with the reason why it is refused.
abbrev pub Denial : Type 0
Denial = String × String

abbrev pub denied_prefixes : List Denial
denied_prefixes =
    ("LD_", "the dynamic loader runs code from LD_PRELOAD/LD_AUDIT")
    ∷ ("DYLD_", "the macOS dynamic loader runs code from DYLD_INSERT_LIBRARIES")
    ∷ ("GIT_", "git runs commands from GIT_SSH_COMMAND/GIT_EXTERNAL_DIFF/GIT_PAGER")
    ∷ (
      "HEADCOUNT1_DEPLOY_",
      "deploy configuration is what constrains a deploy; it stays on the server",
    )
    ∷ ("HEADCOUNT1_SANDBOX_", "server-local sandbox switch")
    ∷ []

abbrev pub denied_keys : List Denial
denied_keys =
    ("PATH", "changes which binaries the server and agent shells execute")
    ∷ ("HOME", "moves the data root, including this store")
    ∷ ("SHELL", "changes the interpreter agent shell commands run under")
    ∷ ("IFS", "changes shell word splitting")
    ∷ ("ENV", "sourced by shells at startup")
    ∷ ("BASH_ENV", "sourced by bash at startup")
    ∷ ("CDPATH", "changes what `cd` resolves to in agent shells")
    ∷ (
      "NODE_OPTIONS",
      "node runs code from --require/--import, and the app spawns MCP servers via npx",
    )
    ∷ ("PYTHONPATH", "changes which python modules are imported")
    ∷ ("PYTHONSTARTUP", "python executes it on startup")
    ∷ ("PYTHONHOME", "relocates the python runtime")
    ∷ ("PERL5OPT", "perl runs code from it")
    ∷ ("RUBYOPT", "ruby runs code from it")
    ∷ ("HTTP_PROXY", "redirects the server's outbound traffic")
    ∷ ("HTTPS_PROXY", "redirects the server's outbound traffic")
    ∷ ("ALL_PROXY", "redirects the server's outbound traffic")
    ∷ ("NO_PROXY", "redirects the server's outbound traffic")
    ∷ ("SSL_CERT_FILE", "replaces the TLS trust store")
    ∷ ("SSL_CERT_DIR", "replaces the TLS trust store")
    ∷ ("SSH_AUTH_SOCK", "points ssh at another agent socket")
    ∷ ("SSH_AGENT_PID", "points ssh at another agent")
    ∷ ("HEADCOUNT1_ENV", "this server's own identity decides which deploy events it accepts")
    ∷ ("HEADCOUNT1_ENABLE_GLOBAL_ADMIN_API", "server-local security switch")
    ∷ ("HEADCOUNT1_GIT_STRICT_HOST_KEY_CHECKING", "server-local security switch")
    ∷ ("E2E_MODE", "test-mode switch")
    ∷ ("E2E_HEADCOUNT1_HOME", "decides where this store itself lives")
    ∷ ("RECORD", "test-mode switch")
    ∷ []

abbrev pub refuse_denied : Option Denial → Result String (Unit {0})
refuse_denied none = ok tt
refuse_denied (some (name, reason)) = err (append "refused: " reason)

-- `Validate`
pub validate : String → Result String (Unit {0})
validate key =
    reject_if (if matches_key key then false else true)
      "not a valid environment variable name (expected UPPER_SNAKE_CASE)"
    >> refuse_denied (first (λ d. str_eq d.0 key) denied_keys)
    >> refuse_denied (first (λ d. starts_with key d.0) denied_prefixes)

abbrev pub Env : Type 0
Env = List (String × String)

-- What `Partition` does with one variable: the reason why it is skipped, or none.
pub skip_reason : (ℕ → String) → String → String → Option String
skip_reason decimal key val = elim (validate key) [
  | err reason ↦ some reason
  | ok _ ↦
      if ltb max_value_bytes (len val)
      then some (append "value is " (append (decimal (len val)) " bytes (max 65536)"))
      else none
]

abbrev pub put_with : String → String → Option String → Env × Env → Env × Env
put_with key val none (accepted, skipped) = ((key, val) ∷ accepted, skipped)
put_with key val (some reason) (accepted, skipped) = (accepted, (key, reason) ∷ skipped)

-- `Partition`
pub partition : (ℕ → String) → Env → Env × Env
partition decimal [] = ([], [])
partition decimal ((key, val) ∷ values) =
    put_with key val (skip_reason decimal key val) (partition decimal values)

pub record Store : Type 0 where
  pub values : Env
  pub secret_keys : List String
  pub removed_keys : List String

abbrev pub key_before : String × String → String × String → Bool
key_before a b = text_before a.0 b.0

-- `Digest`
pub digest : (Env → List String → String) → Store → String
digest hash s = hash (sort key_before s.values) (sort text_before s.secret_keys)

-- `Save`, with what it stores.
pub save : Store → Store
save s = record s {
  secret_keys = sort text_before s.secret_keys;
  removed_keys = sort text_before s.removed_keys;
}

abbrev pub ProcessEnv : Type 0
ProcessEnv = String → Option String

abbrev pub set_var : String → Option String → ProcessEnv → ProcessEnv
set_var key val p = λ k. if str_eq k key then val else p k

-- The loop of `Apply` over the values: the names applied, the error, the environment. `os.Setenv`
-- refuses a value with a zero byte.
pub apply_values : Env → List String → ProcessEnv → List String × (Option String × ProcessEnv)
apply_values [] applied p = (applied, (none, p))
apply_values ((key, val) ∷ values) applied p = elim (validate key) [
  | err e ↦
      (applied, (some (append "stored key " (append key (append " is not applicable: " e))), p))
  | ok _ ↦
      let rest = apply_values values (applied ++ key ∷ []) (set_var key (some val) p) in
      if has_nul val then (applied, (some (append "set " key), p)) else rest
]

-- The loop over the removed keys.
pub apply_removed : List String → ProcessEnv → Option String × ProcessEnv
apply_removed [] p = (none, p)
apply_removed (key ∷ removed) p = elim (validate key) [
  | err e ↦ (some (append "stored removed key " (append key (append " is not applicable: " e))), p)
  | ok _ ↦ apply_removed removed (set_var key none p)
]

abbrev pub then_remove :
    List String
    → List String × (Option String × ProcessEnv)
    → List String × (Option String × ProcessEnv)
then_remove removed (applied, (some e, p)) = (applied, (some e, p))
then_remove removed (applied, (none, p)) = (applied, apply_removed removed p)

-- `Apply`
pub apply : Store → ProcessEnv → List String × (Option String × ProcessEnv)
apply s p = then_remove s.removed_keys (apply_values (sort key_before s.values) [] p)

abbrev pub holds_key : String → Env → Bool
holds_key key values = is_some (first (λ v. str_eq v.0 key) values)

-- The keys of the values that are not accepted again.
pub removed_from : Env → Env → List String
removed_from accepted [] = []
removed_from accepted ((key, val) ∷ values) =
    let rest = removed_from accepted values in if holds_key key accepted then rest else key ∷ rest

pub keep_accepted : Env → List String → List String
keep_accepted accepted [] = []
keep_accepted accepted (key ∷ keys) =
    let rest = keep_accepted accepted keys in if holds_key key accepted then key ∷ rest else rest

-- `persistDeliveredEnv` of server/controllers/deploy.go: whether the store changed, the variables that
-- were skipped, and the store.
pub persist_delivered_env :
    (ℕ → String)
    → (Env → List String → String)
    → Option Env
    → List String
    → Store
    → Bool × (Env × Store)
persist_delivered_env decimal hash none secret current = (false, ([], current))
persist_delivered_env decimal hash (some env) secret current =
    let (accepted, skipped) = partition decimal env in
    let incoming : Store = record {
      values = accepted;
      secret_keys = keep_accepted accepted secret;
      removed_keys = removed_from accepted current.values;
    } in
    if str_eq (digest hash incoming) (digest hash current)
    then (false, (skipped, current))
    else (true, (skipped, save incoming))
