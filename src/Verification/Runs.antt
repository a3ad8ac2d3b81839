-- ===== src/Verification/Runs.antt =====
-- The runs and snapshots of src/codememory/verification/store.py: `ensure_snapshot`, `start_run`,
-- `set_run_snapshots`, `recover_stale_runs`, `finish_run`.
use code_sementic_memory.Common.{
  ℕ, ◌-◌, max, String, Bool, true, false, ◌&&◌, ◌||◌, Option, none, some, List, [], ◌∷◌, ◌++◌, ◌==◌,
  if◌then◌else◌, ltb, elem, clip, coalesce, count_where, update_where, upsert,
}
use code_sementic_memory.Consolidation.Scores.{sorted, text_lt, unique}
use code_sementic_memory.Consolidation.Actions.{nonempty}
use code_sementic_memory.Verification.Manifests.{Manifest, SnapshotStatus}
use code_sementic_memory.Verification.Evaluation.{Status}

pub data Mode : Type 0 where
  dry_run write : Mode

pub data RunState : Type 0 where
  running succeeded failed not_applicable : RunState

-- The counters of `record_results`, with one for each status
pub record Counts : Type 0 where
  pub applied : ℕ
  pub skipped : ℕ
  pub verified : ℕ
  pub missing : ℕ
  pub renamed : ℕ
  pub stale : ℕ
  pub unverified : ℕ
  pub rejected : ℕ

-- A manifest in the counts of a run
pub record ProviderCounts : Type 0 where
  pub provider : String
  pub status : SnapshotStatus
  pub files : ℕ
  pub symbols : ℕ

-- The counts of a run: the number of bindings, the `Counter` of the statuses, the counters of `record_results`
-- beside them, and one entry for each provider
pub record RunCounts : Type 0 where
  pub bindings : ℕ
  pub by_status : Status → ℕ
  pub persisted : Counts
  pub providers : List ProviderCounts

-- `none` as counts is the empty object.
pub record Run : Type 0 where
  pub run_id : String
  pub logical_project_id : String
  pub mode : Mode
  pub input_hash : String
  pub provider_names : List String
  pub snapshot_ids : List String
  pub status : RunState
  pub counts : Option RunCounts
  pub error : Option String
  pub started_at : ℕ
  pub finished_at : Option ℕ

-- `none` as manifest is the empty object that migrated rows hold.
pub record Snapshot : Type 0 where
  pub snapshot_id : String
  pub logical_project_id : String
  pub captured : Manifest
  pub manifest : Option Manifest

abbrev pub is_running : RunState → Bool
is_running running = true
is_running _ = false

unfoldable pub has_run : String → Run → Bool
has_run id r = r.run_id == id

unfoldable pub has_snapshot : String → Snapshot → Bool
has_snapshot id s = s.snapshot_id == id

-- ON CONFLICT(snapshot_id) DO UPDATE
unfoldable pub keep_manifest : Manifest → Snapshot → Snapshot
keep_manifest m s = record s { manifest = coalesce s.manifest (some m) }

-- `ensure_snapshot`, under the id that is the hash of the project, the provider and the manifest's hash
unfoldable pub ensure_snapshot : String → String → Manifest → List Snapshot → List Snapshot
ensure_snapshot id project m snapshots =
    upsert (has_snapshot id) (keep_manifest m)
      (record { snapshot_id = id; logical_project_id = project; captured = m; manifest = some m })
      snapshots

-- `status='running' AND started_at<cutoff`, at the cutoff of a number of seconds before now
unfoldable pub is_stale_run : ℕ → ℕ → Run → Bool
is_stale_run now age r = is_running r.status && ltb r.started_at (now - max 1 age)

unfoldable pub interrupted : ℕ → String → Run → Run
interrupted now message r = record r {
  status = failed;
  error = coalesce r.error (some message);
  finished_at = some now;
}

-- `recover_stale_runs`; its result is the number of the runs that it fails.
unfoldable pub recover_stale_runs : ℕ → ℕ → String → List Run → ℕ × List Run
recover_stale_runs now age message runs = (
  count_where (is_stale_run now age) runs,
  update_where (is_stale_run now age) (interrupted now message) runs,
)

-- `list(dict.fromkeys(...))`, after the texts in `seen`
unfoldable pub in_order : List String → List String → List String
in_order seen [] = []
in_order seen (x ∷ xs) =
    let rest = in_order (x ∷ seen) xs in if x == "" || elem x seen then rest else x ∷ rest

-- The arguments of `start_run`, with the fresh id of the run
pub record RunRequest : Type 0 where
  pub run_id : String
  pub logical_project_id : String
  pub input_hash : String
  pub mode : Mode
  pub provider_names : List String
  pub snapshot_ids : List String

unfoldable pub new_run : ℕ → RunRequest → Run
new_run now q = record {
  run_id = q.run_id;
  logical_project_id = q.logical_project_id;
  mode = q.mode;
  input_hash = q.input_hash;
  provider_names = sorted text_lt (unique (nonempty q.provider_names));
  snapshot_ids = in_order [] q.snapshot_ids;
  status = running;
  counts = none;
  error = none;
  started_at = now;
  finished_at = none;
}

-- `start_run`
unfoldable pub start_run : ℕ → String → RunRequest → List Run → List Run
start_run now message q runs = (recover_stale_runs now 300 message runs).1 ++ new_run now q ∷ []

unfoldable pub with_snapshots : List String → Run → Run
with_snapshots ids r = record r { snapshot_ids = in_order [] ids }

-- `set_run_snapshots`
unfoldable pub set_run_snapshots : String → List String → List Run → List Run
set_run_snapshots id ids runs = update_where (has_run id) (with_snapshots ids) runs

-- `error[:4000] if error else None`
abbrev pub clipped_error : Option String → Option String
clipped_error none = none
clipped_error (some s) = if s == "" then none else some (clip 4000 s)

unfoldable pub finished : ℕ → RunState → Option RunCounts → Option String → Run → Run
finished now status counts error r = record r {
  status = status;
  counts = counts;
  error = clipped_error error;
  finished_at = some now;
}

-- `finish_run`; `none` is the ValueError for a status that does not end a run.
unfoldable pub finish_run :
    ℕ → String → RunState → Option RunCounts → Option String → List Run → Option (List Run)
finish_run now id running counts error runs = none
finish_run now id status counts error runs =
    some (update_where (has_run id) (finished now status counts error) runs)
