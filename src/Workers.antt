-- ===== src/Workers.antt =====
-- engine/aicli/tools.go and engine/worker_policy.go: the registry of an agent's tools and what a worker
-- may use of its parent's. A registry is a map that `register` alone writes, under the tool's own name,
-- so it is the list of its tools here. `trim` and `equal_fold` stand for `strings.TrimSpace` and
-- `strings.EqualFold`, and the decoders for `json.Unmarshal`: no value is an error, and no mode an
-- absent field.
pub mod Roles
pub mod Registries
pub mod Policy
mod Examples
use headcount.Prelude.{
  ℕ, String, Bool, true, false, not, Option, none, some, List, [], ◌∷◌, ◌++◌, if◌then◌else◌, ltb,
  leb, ◌-◌, ◌&&◌, ◌||◌, str_eq, slice, len, first,
}

pub record Tool : Type 0 where
  pub name : String
  pub description : String

pub record Registry : Type 0 where
  pub tools : List Tool

abbrev pub new_registry : Registry
new_registry = record { tools = [] }

unfoldable pub drop_named : String → List Tool → List Tool
drop_named name [] = []
drop_named name (t ∷ ts) =
    let rest = drop_named name ts in if str_eq t.name name then rest else (t ∷ rest)

unfoldable pub register : Tool → Registry → Registry
register t r = record { tools = t ∷ drop_named t.name r.tools }

unfoldable pub unregister : String → Registry → Registry
unregister name r = record { tools = drop_named name r.tools }

abbrev pub named : String → Tool → Bool
named name t = str_eq t.name name

unfoldable pub get_tool : String → Registry → Option Tool
get_tool name r = first (named name) r.tools

-- An entry that ends in a star matches by prefix.
unfoldable pub entry_matches : String → String → Bool
entry_matches name a =
    str_eq a name
    || (ltb 0 (len a)
        && str_eq (slice a (len a - 1) (len a)) "*"
        && leb (len a - 1) (len name)
        && str_eq (slice name 0 (len a - 1)) (slice a 0 (len a - 1)))

unfoldable pub name_matches_filter : String → List String → Bool
name_matches_filter name [] = false
name_matches_filter name (a ∷ rest) = entry_matches name a || name_matches_filter name rest

-- The loop of `Filter` and `Exclude`: the tools that pass are registered one after another.
unfoldable pub register_passing : (String → Bool) → List Tool → Registry → Registry
register_passing passes [] r = r
register_passing passes (t ∷ ts) r =
    register_passing passes ts (if passes t.name then register t r else r)

unfoldable pub has_star : List String → Bool
has_star [] = false
has_star (a ∷ rest) = str_eq a "*" || has_star rest

unfoldable pub filter_tools : List String → Registry → Registry
filter_tools [] r = r
filter_tools (a ∷ rest) r =
    if has_star (a ∷ rest)
    then r
    else register_passing (λ name. name_matches_filter name (a ∷ rest)) r.tools new_registry

unfoldable pub exclude_tools : List String → Registry → Registry
exclude_tools [] r = r
exclude_tools (d ∷ rest) r =
    register_passing (λ name. not (name_matches_filter name (d ∷ rest))) r.tools new_registry

pub record DecodedPolicy : Type 0 where
  pub mode : Option String
  pub denied : List String
  pub allowed : List String

pub data Mode : Type 0 where
  inherit : Mode
  deny : Mode
  custom : Mode

pub record WorkerPolicy : Type 0 where
  pub mode : Mode
  pub denied : List String
  pub allowed : List String

abbrev pub nothing_allowed : WorkerPolicy
nothing_allowed = record { mode = custom; denied = []; allowed = [] }

abbrev pub of_mode : DecodedPolicy → Mode → WorkerPolicy
of_mode d m = record { mode = m; denied = d.denied; allowed = d.allowed }

unfoldable pub decoded_policy : DecodedPolicy → Option String → WorkerPolicy
decoded_policy d none = of_mode d inherit
decoded_policy d (some mode) =
    if str_eq mode "deny"
    then of_mode d deny
    else if str_eq mode "custom"
    then of_mode d custom
    else if str_eq mode "inherit"
    then of_mode d inherit
    else nothing_allowed

unfoldable pub policy_or_none : Option DecodedPolicy → WorkerPolicy
policy_or_none none = nothing_allowed
policy_or_none (some d) = decoded_policy d d.mode

abbrev pub lifecycle_tools : List String
lifecycle_tools = "finish_task" ∷ "finish_work" ∷ "report_status" ∷ []

unfoldable pub apply_mode : WorkerPolicy → Mode → Registry → Registry
apply_mode p deny r = exclude_tools p.denied r
apply_mode p custom r = filter_tools (p.allowed ++ lifecycle_tools) r
apply_mode p inherit r = r

module _ (trim : String → String) (equal_fold : String → String → Bool) where
  unfoldable pub denied_entries : List (String × String) → List String
  denied_entries [] = []
  denied_entries ((name, value) ∷ rest) =
      let more = denied_entries rest in
      if equal_fold (trim value) "deny" then (name ∷ more) else more

  unfoldable pub denied_or_none : Option (List (String × String)) → List String
  denied_or_none none = []
  denied_or_none (some permissions) = denied_entries permissions

  unfoldable pub contains_fold : List String → String → Bool
  contains_fold [] wanted = false
  contains_fold (v ∷ rest) wanted = equal_fold (trim v) (trim wanted) || contains_fold rest wanted

  unfoldable pub mode_allows : WorkerPolicy → Mode → String → Bool
  mode_allows p deny name = not (contains_fold p.denied name)
  mode_allows p custom name = contains_fold p.allowed name
  mode_allows p inherit name = true

  unfoldable pub parent_allows : Option (List String) → String → Bool
  parent_allows none name = true
  parent_allows (some names) name = contains_fold names name

module _ (trim : String → String) (decode : String → Option DecodedPolicy) where
  unfoldable pub parse_worker_policy : String → WorkerPolicy
  parse_worker_policy raw =
      if str_eq (trim raw) ""
      then record { mode = inherit; denied = []; allowed = [] }
      else policy_or_none (decode raw)

module _ (trim : String → String) (equal_fold : String → String → Bool)
    (decode_map : String → Option (List (String × String))) where
  unfoldable pub denied_from_permissions : String → List String
  denied_from_permissions raw =
      if str_eq (trim raw) "" then [] else denied_or_none trim equal_fold (decode_map raw)

-- A list of names that is `null` and one that cannot be read are both no list.
module _ (trim : String → String) (decode_names : String → Option (List String)) where
  unfoldable pub decode_agent_names : String → Option (List String)
  decode_agent_names raw = if str_eq (trim raw) "" then none else decode_names raw

module _ (trim : String → String) (equal_fold : String → String → Bool)
    (decode : String → Option DecodedPolicy)
    (decode_map : String → Option (List (String × String))) where
  unfoldable pub apply_worker_tool_policy : Registry → String → String → Registry
  apply_worker_tool_policy r parent worker =
      let policy = parse_worker_policy trim decode worker in
      apply_mode policy policy.mode
        (exclude_tools (denied_from_permissions trim equal_fold decode_map parent) r)

module _ (trim : String → String) (equal_fold : String → String → Bool)
    (decode : String → Option DecodedPolicy) (decode_names : String → Option (List String)) where
  unfoldable pub worker_mcp_allowed : String → String → String → Bool
  worker_mcp_allowed name parent worker =
      let policy = parse_worker_policy trim decode worker in
      parent_allows trim equal_fold (decode_agent_names trim decode_names parent) name
      && mode_allows trim equal_fold policy policy.mode name
