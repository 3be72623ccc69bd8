-- ===== src/Updater.antt =====
-- pkg/updater/state.go: the phases of a deployment, the list of its successful releases, and the
-- binaries that are kept. The state file is `Disk`; a write to it that fails is not modelled, nor
-- the status that the updater keeps in memory for display.
pub mod Releases
pub mod Phases
mod Examples
use headcount.Prelude.{
  ℕ, ◌-◌, String, Bool, true, false, ◌&&◌, ◌||◌, not, Option, none, some, List, [], ◌∷◌, ◌++◌,
  length, drop, first, delete, is_some, Result, ok, err, if◌then◌else◌, ltb, str_eq,
}

abbrev pub successful_release_retention : ℕ
successful_release_retention = 12

pub data DeployPhase : Type 0 where
  staged migrating starting promoted failed needs_manual_recovery : DeployPhase

-- Of `VersionInfo` the code reads the commit's hash, which stands for it.
pub record ReleaseRecord : Type 0 where
  pub id : String
  pub target : String
  pub path : String
  pub artifact_sha256 : String
  pub promoted_at : ℕ

-- The fields that the calls below read or write.
pub record DeploymentState : Type 0 where
  pub id : String
  pub phase : DeployPhase
  pub target : String
  pub candidate_path : String
  pub previous_path : String
  pub artifact_sha256 : String
  pub database_snapshot : String
  pub updated_at : ℕ
  pub last_error : String
  pub successful_releases : List ReleaseRecord

-- The state file: it does not exist, it cannot be read or decoded, or it holds a state.
pub data Disk : Type 0 where
  missing unreadable : Disk
  holds : (state : DeploymentState) → Disk

-- `SaveState`
abbrev pub save_state : ℕ → DeploymentState → Disk
save_state now state = holds (record state { updated_at = now })

abbrev pub has_release : String → ReleaseRecord → Bool
has_release id r = str_eq r.id id

-- The loop of `appendSuccessfulRelease`: the first record of that id is replaced.
pub replace_release : ReleaseRecord → List ReleaseRecord → List ReleaseRecord
replace_release r [] = []
replace_release r (x ∷ xs) =
    let rest = replace_release r xs in if has_release r.id x then r ∷ xs else x ∷ rest

-- The last records, as many as are retained.
abbrev pub retain : List ReleaseRecord → List ReleaseRecord
retain rs =
    if ltb successful_release_retention (length rs)
    then drop (length rs - successful_release_retention) rs
    else rs

-- `appendSuccessfulRelease`
pub append_successful_release : ReleaseRecord → List ReleaseRecord → List ReleaseRecord
append_successful_release r releases =
    if str_eq r.id "" || str_eq r.path ""
    then releases
    else if is_some (first (has_release r.id) releases)
    then retain (replace_release r releases)
    else retain (releases ++ r ∷ [])

-- The phases in which a deployment is under way.
abbrev pub in_flight : DeployPhase → Bool
in_flight staged = true
in_flight migrating = true
in_flight starting = true
in_flight promoted = false
in_flight failed = false
in_flight needs_manual_recovery = false

abbrev pub is_promoted : DeployPhase → Bool
is_promoted staged = false
is_promoted migrating = false
is_promoted starting = false
is_promoted promoted = true
is_promoted failed = false
is_promoted needs_manual_recovery = false

abbrev pub is_failed : DeployPhase → Bool
is_failed staged = false
is_failed migrating = false
is_failed starting = false
is_failed promoted = false
is_failed failed = true
is_failed needs_manual_recovery = true

-- A directory entry of the release folder, and whether it holds the binary.
pub record Entry : Type 0 where
  pub name : String
  pub is_dir : Bool
  pub has_binary : Bool

abbrev pub names : Option String → String → Bool
names none name = false
names (some id) name = str_eq id name

module _ (release_id_for_path : String → Option String) where
  abbrev pub kept_by : List ReleaseRecord → String → Bool
  kept_by [] name = false
  kept_by (r ∷ rs) name = names (release_id_for_path r.path) name || kept_by rs name

  -- The set `keep` of `pruneReleases`.
  pub keep : DeploymentState → String → Bool
  keep state name =
      kept_by state.successful_releases name
      || ((in_flight state.phase || is_promoted state.phase)
          && names (release_id_for_path state.candidate_path) name)
      || names (release_id_for_path state.previous_path) name

  abbrev pub removable : DeploymentState → Entry → Bool
  removable state e = e.is_dir && e.has_binary && not (keep state e.name)

  -- `pruneReleases`: the entries that it leaves.
  pub prune_releases : DeploymentState → List Entry → List Entry
  prune_releases state entries = delete (removable state) entries

  module _ (current : String) where
    -- `activeCandidate`
    abbrev pub active_candidate : DeploymentState → Bool
    active_candidate state =
        not (str_eq state.candidate_path "") && str_eq state.target current && in_flight state.phase

    abbrev pub set_phase : ℕ → DeployPhase → DeploymentState → Disk
    set_phase now phase state =
        if active_candidate state
        then save_state now (record state { phase = phase })
        else holds state

    -- `MarkMigrating`; an unreadable file is an error that leaves it as it is.
    pub mark_migrating : ℕ → Disk → Disk
    mark_migrating now missing = missing
    mark_migrating now unreadable = unreadable
    mark_migrating now (holds state) = set_phase now migrating state

    -- `MarkStarting`
    pub mark_starting : ℕ → Disk → Disk
    mark_starting now missing = missing
    mark_starting now unreadable = unreadable
    mark_starting now (holds state) = set_phase now starting state

    abbrev pub promote : ℕ → DeploymentState → DeploymentState
    promote now state = record state {
      phase = promoted;
      last_error = "";
      successful_releases =
          append_successful_release
            (record {
              id = state.id;
              target = state.target;
              path = state.candidate_path;
              artifact_sha256 = state.artifact_sha256;
              promoted_at = now;
            })
            state.successful_releases;
    }

    -- `MarkPromoted`, with the release folder that it prunes.
    pub mark_promoted : ℕ → Disk → List Entry → Disk × List Entry
    mark_promoted now missing entries = (missing, entries)
    mark_promoted now unreadable entries = (unreadable, entries)
    mark_promoted now (holds state) entries =
        if active_candidate state
        then (save_state now (promote now state), prune_releases (promote now state) entries)
        else (holds state, entries)

    -- `AttachSQLiteSnapshot`
    pub attach_sqlite_snapshot : ℕ → String → Disk → Disk
    attach_sqlite_snapshot now path missing = missing
    attach_sqlite_snapshot now path unreadable = unreadable
    attach_sqlite_snapshot now path (holds state) =
        if str_eq path ""
        then holds state
        else save_state now (record state { database_snapshot = path })

    abbrev pub fail_with : ℕ → DeployPhase → String → DeploymentState → Disk
    fail_with now phase cause state =
        if not (str_eq state.target current) || str_eq state.candidate_path ""
        then holds state
        else save_state now (record state { phase = phase; last_error = cause })

    -- `RecordStartupFailure`, and the path of the binary to fall back to.
    pub record_startup_failure : ℕ → String → Disk → String × Disk
    record_startup_failure now cause missing = ("", missing)
    record_startup_failure now cause unreadable = ("", unreadable)
    record_startup_failure now cause (holds state) = (
      if not (str_eq state.target current) || str_eq state.candidate_path ""
          then ""
          else state.previous_path,
      fail_with now failed cause state,
    )

    -- `MarkNeedsManualRecovery`
    pub mark_needs_manual_recovery : ℕ → String → Disk → Disk
    mark_needs_manual_recovery now cause missing = missing
    mark_needs_manual_recovery now cause unreadable = unreadable
    mark_needs_manual_recovery now cause (holds state) =
        fail_with now needs_manual_recovery cause state
