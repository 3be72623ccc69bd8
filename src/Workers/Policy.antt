-- ===== src/Workers/Policy.antt =====
-- What the tools of a worker are, for each mode of its policy and below its parent's permissions.
use headcount.Prelude.{
  ◌≡◌, refl, ap, ◌∙◌, String, Bool, true, not, ◌&&◌, Option, List, [], ◌∷◌, ◌++◌, arith,
}
use headcount.Workers.{
  Tool, Registry, get_tool, name_matches_filter, exclude_tools, filter_tools, DecodedPolicy, Mode,
  inherit, deny, custom, WorkerPolicy, lifecycle_tools, apply_mode, denied_from_permissions,
  parse_worker_policy, apply_worker_tool_policy,
}
use headcount.Workers.Registries.{
  IsWellFormed, passed, get_tool-exclude_tools, exclude_tools-IsWellFormed, get_tool-filter_tools,
  filter_tools-IsWellFormed,
}

-- The mode gives a worker the tool.
abbrev pub mode_gives : WorkerPolicy → Mode → String → Bool
mode_gives p inherit name = true
mode_gives p deny name = not (name_matches_filter name p.denied)
mode_gives p custom name = name_matches_filter name (p.allowed ++ lifecycle_tools)

passed-true : (o : Option Tool) → o ≡ passed true o
passed-true o = refl

passed-passed : (a b : Bool) (o : Option Tool) → passed a (passed b o) ≡ passed (b && a) o
passed-passed a b o = ground arith

get_tool-filter_lifecycle :
    (name : String) (allowed : List String) (r : Registry)
    → IsWellFormed r
    → get_tool name (filter_tools (allowed ++ lifecycle_tools) r)
      ≡ passed (name_matches_filter name (allowed ++ lifecycle_tools)) (get_tool name r)
get_tool-filter_lifecycle name [] r d =
    get_tool-filter_tools name "finish_task" ("finish_work" ∷ "report_status" ∷ []) r d
get_tool-filter_lifecycle name (a ∷ rest) r d =
    get_tool-filter_tools name a (rest ++ lifecycle_tools) r d

get_tool-apply_mode :
    (p : WorkerPolicy) (m : Mode) (name : String) (r : Registry)
    → IsWellFormed r
    → get_tool name (apply_mode p m r) ≡ passed (mode_gives p m name) (get_tool name r)
unfolding apply_mode
get_tool-apply_mode p inherit name r d = refl
get_tool-apply_mode p deny name r d = get_tool-exclude_tools name p.denied r d
get_tool-apply_mode p custom name r d = get_tool-filter_lifecycle name p.allowed r d

apply_mode-IsWellFormed :
    (p : WorkerPolicy) (m : Mode) (r : Registry) → IsWellFormed r → IsWellFormed (apply_mode p m r)
unfolding apply_mode
apply_mode-IsWellFormed p inherit r d = d
apply_mode-IsWellFormed p deny r d = exclude_tools-IsWellFormed p.denied r d
apply_mode-IsWellFormed p custom r d = filter_tools-IsWellFormed (p.allowed ++ lifecycle_tools) r d

module _ (trim : String → String) (equal_fold : String → String → Bool)
    (decode : String → Option DecodedPolicy)
    (decode_map : String → Option (List (String × String))) where
  -- A worker's tool is one of its parent's that the parent's permissions do not deny and that the
  -- worker's mode gives.
  abbrev pub worker_may_use : String → String → String → Bool
  worker_may_use parent worker name =
      let policy = parse_worker_policy trim decode worker in
      not (name_matches_filter name (denied_from_permissions trim equal_fold decode_map parent))
      && mode_gives policy policy.mode name

  -- In a registry with one tool per name, `apply_worker_tool_policy` leaves under each name exactly
  -- the parent's tool of that name if no entry that the parent's permissions deny matches the name and
  -- the worker's mode gives it, and nothing otherwise; the result has one tool per name again. The
  -- mode inherit gives every tool, deny those that no denied entry matches, custom those that an
  -- allowed entry or one of the lifecycle tools matches, where a list with a star gives every tool.
  pub get_tool-apply_worker_tool_policy :
      (r : Registry) (parent worker : String)
      → IsWellFormed r
      → IsWellFormed (apply_worker_tool_policy trim equal_fold decode decode_map r parent worker)
        × ((name : String)
            → get_tool name
                (apply_worker_tool_policy trim equal_fold decode decode_map r parent worker)
              ≡ passed (worker_may_use parent worker name) (get_tool name r))
  unfolding apply_worker_tool_policy
  get_tool-apply_worker_tool_policy r parent worker d =
      let denied = denied_from_permissions trim equal_fold decode_map parent in
      let policy = parse_worker_policy trim decode worker in
      let below = exclude_tools-IsWellFormed denied r d in
      (
        apply_mode-IsWellFormed policy policy.mode (exclude_tools denied r) below,
        λ name.
            get_tool-apply_mode policy policy.mode name (exclude_tools denied r) below
            ∙ ap (passed (mode_gives policy policy.mode name))
                (get_tool-exclude_tools name denied r d)
            ∙ passed-passed (mode_gives policy policy.mode name)
                (not (name_matches_filter name denied)) (get_tool name r),
      )
