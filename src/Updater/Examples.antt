-- ===== src/Updater/Examples.antt =====
-- A deployment that is promoted, and one that has failed.
use headcount.Prelude.{
  ◌≡◌, ◌≢◌, refl, inl, String, true, false, Option, none, some, [], ◌∷◌, Memᴰ, str_eq,
  if◌then◌else◌, arith, eq_iff,
}
use headcount.Updater.{
  ReleaseRecord, DeployPhase, DeploymentState, holds, Entry, starting, mark_promoted,
}
use headcount.Updater.Releases.{mark_promoted-keeps}

abbrev id_of : String → Option String
id_of path = if str_eq path "/releases/b/agent-orchestrator" then some "b" else none

abbrev release : String → ReleaseRecord
release id = record { id = id; target = "c1"; path = "/p"; artifact_sha256 = ""; promoted_at = 5 }

abbrev deployment : DeployPhase → DeploymentState
deployment phase = record {
  id = "b";
  phase = phase;
  target = "c2";
  candidate_path = "/releases/b/agent-orchestrator";
  previous_path = "/old";
  artifact_sha256 = "";
  database_snapshot = "";
  updated_at = 1;
  last_error = "";
  successful_releases = release "a" ∷ [];
}

abbrev entry : String → Entry
entry name = record { name = name; is_dir = true; has_binary = true }

different : (s t : String) → str_eq s t ≡ false → s ≢ t
different s t h = ground (arith, eq_iff s t)

mark_promoted-keeps_example :
    Memᴰ
      (entry "b")
      (mark_promoted id_of "c2" 9 (holds (deployment starting)) (entry "x" ∷ entry "b" ∷ [])).1
mark_promoted-keeps_example =
    mark_promoted-keeps id_of "c2" 9 (deployment starting) (entry "x" ∷ entry "b" ∷ []) (entry "b")
      refl (inl refl) (Memᴰ.tail (Memᴰ.head refl))
