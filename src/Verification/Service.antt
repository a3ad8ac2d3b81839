-- ===== src/Verification/Service.antt =====
-- `_providers`, `_is_project_j` and `verify` of src/codememory/verification/service.py, with
-- `list_current_bindings` of store.py. Manifests are parsed already and the logical project is read already. Of what
-- the `try` of `verify` does, only the evaluation raises in the model: an error of the database between the
-- batches of `record_results` is left out.
mod Requests
use code_sementic_memory.Common.{
  ℕ, max, min, String, Bool, true, false, ◌&&◌, ◌||◌, not, Option, none, some, List, [], ◌∷◌, ◌++◌,
  map, length, count_where, ◌==◌, if◌then◌else◌, eqb, ltb, elem, take, filter_where, find_where,
  is_some,
}
use code_sementic_memory.Cards.Status.{Card, has_card}
use code_sementic_memory.Cards.Rows.{Binding, CardDb, has_version}
use code_sementic_memory.Consolidation.Scores.{is_empty, sorted, text_lt}
use code_sementic_memory.Consolidation.Matches.{is_active}
use code_sementic_memory.Consolidation.Actions.{nonempty}
use code_sementic_memory.Verification.Manifests.{Manifest, Texts, coverage, is_ready}
use code_sementic_memory.Verification.Merge.{manifest_before, merge}
use code_sementic_memory.Verification.Lookup.{resolve}
use code_sementic_memory.Verification.Evaluation.{
  PathTests, Status, Subject, Verification, evaluate, is_usable, missing, rejected, renamed, stale,
  unverified, verified,
}
use code_sementic_memory.Verification.Runs.{
  Counts, Mode, ProviderCounts, Run, RunCounts, RunRequest, Snapshot, dry_run, ensure_snapshot,
  failed, finish_run, start_run, succeeded, write,
}
use code_sementic_memory.Verification.Results.{Check, Numbers, no_results, record_results}
unfoldable pub use Requests.*

abbrev pub same_status : Status → Status → Bool
same_status verified verified = true
same_status missing missing = true
same_status renamed renamed = true
same_status stale stale = true
same_status unverified unverified = true
same_status rejected rejected = true
same_status _ _ = false

-- A dict from the providers: a later manifest of a provider replaces the value at its key.
unfoldable pub set_provider : Manifest → List ProviderCounts → List ProviderCounts
set_provider m [] =
    record {
      provider = m.provider;
      status = m.status;
      files = length m.files;
      symbols = length m.symbols;
    }
    ∷ []
set_provider m (p ∷ ps) =
    let rest = set_provider m ps in
    if p.provider == m.provider
    then record p { status = m.status; files = length m.files; symbols = length m.symbols } ∷ ps
    else p ∷ rest

unfoldable pub provider_counts : List ProviderCounts → List Manifest → List ProviderCounts
provider_counts done [] = done
provider_counts done (m ∷ ms) = provider_counts (set_provider m done) ms

module _ (e : Env) where
  unfoldable pub evaluate_binding : List Manifest → Manifest → Binding → Verification
  evaluate_binding ms composite b =
      evaluate e.texts e.path_tests (subject b) (map (λ m. resolve e.texts m (subject b).target) ms)
        (resolve e.texts composite (subject b).target) (absence_is_authoritative e ms)

  unfoldable pub run_request : VerifyRequest → List Manifest → RunRequest
  run_request q all = record {
    run_id = q.run_id;
    logical_project_id = q.logical_project_id;
    input_hash = q.input_hash;
    mode = q.mode;
    provider_names = map (λ m. m.provider) all;
    snapshot_ids = map (e.snapshot_id q.logical_project_id) all;
  }

  abbrev pub keep_runs : Option (List Run) → List Run → List Run
  keep_runs none runs = runs
  keep_runs (some runs') runs = runs'

  -- The `counts` of a run that succeeds
  unfoldable pub counts_of : List Verification → Counts → List Manifest → RunCounts
  counts_of results persisted all = record {
    bindings = length results;
    by_status = λ status. count_where (λ v. same_status status v.status) results;
    persisted = persisted;
    providers = provider_counts [] all;
  }

  -- The handler of an exception: the run is finished as failed, with its text, and the exception goes on. The
  -- evaluation comes before the results are recorded.
  unfoldable pub fail_run :
      VerifyRequest → List Run → List Snapshot → String → VerifyDb → Outcome × VerifyDb
  fail_run q runs snapshots message db = (
    raised message,
    record db {
      runs = keep_runs (finish_run q.now q.run_id failed none (some message) runs) runs;
      snapshots = snapshots;
    },
  )

  -- The body of the `try` after the evaluation
  unfoldable pub record_run :
      VerifyRequest
      → List Manifest
      → String
      → List Binding
      → List Verification
      → List Run
      → List Snapshot
      → VerifyDb
      → Outcome × VerifyDb
  record_run q all snapshot_id bindings results runs snapshots db =
      let recorded =
        record_results e.numbers q.run_id snapshot_id q.now (is_write q.mode) bindings results
          no_results (record { bindings = db.tables.bindings; checks = db.checks }) in
      let counts = counts_of results recorded.0 all in
      (
        succeeded_with counts results,
        record {
          tables = record db.tables { bindings = recorded.1.bindings };
          checks = recorded.1.checks;
          runs = keep_runs (finish_run q.now q.run_id succeeded (some counts) none runs) runs;
          snapshots = snapshots;
        },
      )

  -- The `try`, by what the evaluation raises
  unfoldable pub end_run :
      Option String
      → VerifyRequest
      → List Manifest
      → String
      → List Binding
      → List Verification
      → List Run
      → List Snapshot
      → VerifyDb
      → Outcome × VerifyDb
  end_run (some message) q all snapshot_id bindings results runs snapshots db =
      fail_run q runs snapshots message db
  end_run none q all snapshot_id bindings results runs snapshots db =
      record_run q all snapshot_id bindings results runs snapshots db

  -- From the snapshots to the end of the run
  unfoldable pub verify_applicable : VerifyRequest → List Manifest → VerifyDb → Outcome × VerifyDb
  verify_applicable q ms db =
      let composite = composite_of e q.now ms in
      let all = all_manifests e composite ms in
      let bindings = list_current_bindings e q db.tables in
      let runs = start_run q.now e.stale_message (run_request q all) db.runs in
      let snapshots = ensure_snapshots e q.logical_project_id all db.snapshots in
      end_run (e.evaluation_error bindings) q all
        (composite_snapshot e q.logical_project_id composite all) bindings
        (map (evaluate_binding ms composite) bindings) runs snapshots db

  -- A manifest of another project
  unfoldable pub is_mismatched : Manifest → Bool
  is_mismatched m = not (e.manifest_is_project_j m)

  -- `verify`, on the logical project that was read
  unfoldable pub verify : VerifyRequest → Option Project → VerifyDb → Outcome × VerifyDb
  verify q none db = (not_applicable, db)
  verify q (some p) db =
      if is_project_j e p
      then if is_some (find_where is_mismatched (normalize e q.manifests))
        then (not_applicable, db)
        else verify_applicable q (normalize e q.manifests) db
      else (not_applicable, db)
