-- ===== src/Verification/Tests.antt =====
-- The verification of concrete bindings, and the theorems at them.
use code_sementic_memory.Common.{
  suc, ◌-◌, ◌≡◌, ◌⊎◌, refl, min, String, true, false, ◌&&◌, none, some, List, [], ◌∷◌, ◌==◌,
  if◌then◌else◌, find_where, filter_where, is_some, length, map, All, Items, cons, nil, end, array,
}
use code_sementic_memory.Cards.Status.{Card, stable}
use code_sementic_memory.Cards.Rows.{Binding, CardVersion}
use code_sementic_memory.Verification.Manifests.{
  Manifest, SnapshotFile, SnapshotSymbol, Texts, ready,
}
use code_sementic_memory.Verification.Lookup.{
  ProviderResult, files_at, first_of, has_path, has_short, has_symbol, is_unique, lookup_path,
  lookup_symbol, matched, path_found, path_key, resolve, roots, short, short_at, short_match,
  symbol_exists, symbol_paths, symbols_at, distinct,
}
use code_sementic_memory.Verification.Evaluation.{
  PathTests, Subject, Verification, evaluate, facts, is_placeholder, rejected, unverified,
}
use code_sementic_memory.Verification.Verdicts.{Grounds, evaluate-Grounds}
use code_sementic_memory.Verification.Index.{
  OneFile, any_file, lookup_path-found, lookup_symbol-unambiguous, named_entries,
}
use code_sementic_memory.Verification.Runs.{RunRequest, has_run, start_run, succeeded, write}
use code_sementic_memory.Verification.Results.{
  Numbers, ResultDb, count_items, get_field, history_json, items_of, no_results, record_results,
  verified_metadata,
}
use code_sementic_memory.Verification.Applied.{Resolved, record_results-Resolved}
use code_sementic_memory.Verification.History.{append_items, history_bounded}
use code_sementic_memory.Verification.RunStates.{
  Call, IsDated, RunsFrom, finish, recover, run_calls, run_calls-IsDated, start, start_run-RunsFrom,
}
use code_sementic_memory.Verification.Service.{
  Env, Project, VerifyDb, VerifyRequest, is_mismatched, is_project_j, normalize, not_applicable,
  verify,
}
use code_sementic_memory.Verification.Finishes.{Ends, verify-Ends}
use code_sementic_memory.Verification.Service.{
  card_time, binding_before, same_manifest, distinct_manifests, composite_of, covers_all,
  absence_is_authoritative, same_hash, all_manifests, ensure_snapshots, composite_snapshot,
  is_listed_card, is_listed, list_current_bindings, evaluate_binding, run_request,
  verify_applicable, record_run, end_run,
}
use code_sementic_memory.Verification.Runs.{
  has_snapshot, keep_manifest, ensure_snapshot, is_stale_run, interrupted, recover_stale_runs,
  in_order, new_run, finished, finish_run,
}
use code_sementic_memory.Verification.Lookup.{file_exists, exact_match}
use code_sementic_memory.Verification.Evaluation.{
  any_result, is_provider, judge_both, judge_path, judge_symbol, judge_available, concluded,
  unavailable_result, rejected_result, entry_stale, p4_stale_result, resolved_symbol_path,
  resolved_entry_path, resolved_path_of, resolved_symbol_of, mismatched,
}
use code_sementic_memory.Verification.Results.{
  set_field, add_item, texts, is_applied, same_check, rewrite_check, has_binding, verification_json,
  check_row, set_verified, record_binding, record_result, find_binding,
}
use code_sementic_memory.Verification.Manifests.{weakened, coverage}
use code_sementic_memory.Verification.Merge.{
  any_status, merged_status, add_file, same_symbol, add_symbol, join_all, revisions, first_root,
  canonical_file, canonical_path, canonical_symbol, add_files, add_symbols, merge_files,
  merge_symbols, merge, merge_sorted, manifest_before,
}
use code_sementic_memory.Common.{update_where, upsert, take, elem, join}
use code_sementic_memory.Consolidation.Scores.{insert_sorted, sorted, unique, is_empty}
use code_sementic_memory.Consolidation.Actions.{nonempty}
use code_sementic_memory.Cards.Status.{has_card}
use code_sementic_memory.Cards.Rows.{has_version, same_version}

abbrev plain : Texts
plain = record {
  casefold = λ s. s;
  strip = λ s. s;
  repo_path = λ roots s. s;
  normalize_symbol = λ s. s;
  last_name = λ s. s;
  manifest_hash = λ m. m.provider;
}

abbrev tests : PathTests
tests = record { has_wildcard = λ s. s == "*"; has_url_prefix = λ s. false }

abbrev main_file : SnapshotFile
main_file = record {
  path = "main.cpp";
  exists = true;
  head_rev = some "7";
  have_rev = some "6";
  head_change = none;
  head_time = none;
  source_provider = none;
}

abbrev run_symbol : SnapshotSymbol
run_symbol = record {
  name = "run";
  qualified_name = some "App.run";
  file_path = some "main.cpp";
  kind = none;
  exists = true;
  source_provider = none;
}

abbrev workspace : Manifest
workspace = record {
  provider = "p4";
  project = "Project_J";
  root_path = none;
  revision = some "7";
  source_ref = none;
  status = ready;
  files = main_file ∷ [];
  symbols = run_symbol ∷ [];
  coverage = none;
  symbol_coverage = none;
  captured_at = 1;
}

abbrev bound : Subject
bound = record {
  binding_id = "b1";
  target = record { path = some "main.cpp"; symbol = some "run"; qualified_symbol = none };
}

abbrev resolved : ProviderResult
resolved = resolve plain workspace bound.target

evaluate-Grounds_example :
    let r = evaluate plain tests bound (resolved ∷ []) resolved true in
    let f = facts plain tests bound.target (resolved ∷ []) resolved true in
    ((is_placeholder plain tests bound.target ≡ true) × (r.status ≡ rejected) × (r.score ≡ 0))
    ⊎ ((is_placeholder plain tests bound.target ≡ false)
        × (((f.available ≡ false) × (r.status ≡ unverified))
            ⊎ ((f.available ≡ true) × Grounds f r.status)))
evaluate-Grounds_example = evaluate-Grounds plain tests bound (resolved ∷ []) resolved true

lookup_path-found_example : path_found (lookup_path plain workspace "main.cpp") ≡ (
    if plain.repo_path (roots plain workspace) "main.cpp" == ""
    then false
    else any_file
        (λ f.
          path_key plain workspace f.path
            == plain.casefold (plain.repo_path (roots plain workspace) "main.cpp")
          && f.exists)
        workspace.files)
lookup_path-found_example = lookup_path-found plain workspace "main.cpp"

short_name : (lookup_symbol plain workspace (some "run") none).match_type ≡ short
unfolding lookup_symbol symbols_at has_symbol short_at has_short matched short_match is_unique
    filter_where length symbol_exists
short_name = refl

lookup_symbol-unambiguous_example :
    ((lookup_symbol plain workspace (some "run") none).entry
      ≡ first_of (named_entries plain workspace (some "run") none))
    × OneFile plain workspace (named_entries plain workspace (some "run") none)
lookup_symbol-unambiguous_example =
    lookup_symbol-unambiguous plain workspace (some "run") none short_name

abbrev numbers : Numbers
numbers = record { score_text = λ n. "1.0"; time_text = λ n. "2026" }

abbrev row : Binding
row = record {
  binding_id = "b1";
  version = record { card_id = "k1"; version_no = 1 };
  role = "target";
  path = some "main.cpp";
  symbol = some "run";
  qualified_symbol = none;
  normalized_target = "main.cpp";
  status = "verified";
  snapshot_id = none;
  evidence = [];
  metadata = end;
  created_at = 1;
  updated_at = 1;
}

abbrev one_row : ResultDb
one_row = record { bindings = row ∷ []; checks = [] }

abbrev unsure : Verification
unsure = record {
  binding_id = "b1";
  status = unverified;
  score = 20;
  resolved_path = none;
  resolved_symbol = none;
  reasons = "bounded" ∷ [];
}

record_results-Resolved_example :
    let after =
      (record_results numbers "r1" "s1" 9 true one_row.bindings
        (unsure ∷ [])
        no_results
        one_row).1 in
    (true ≡ false → after.bindings ≡ one_row.bindings)
    × ((id : String) → Resolved id one_row.bindings → Resolved id after.bindings)
record_results-Resolved_example =
    record_results-Resolved numbers "r1" "s1" 9 true (unsure ∷ []) no_results one_row

history_bounded_example :
    let old = items_of (get_field "verification_history" end) in
    (items : Items) × (get_field "verification_history"
        (verified_metadata numbers "r1" "s1" 9 true unsure true end)
      ≡ some (array items))
    × (count_items items ≡ min 8 (suc (count_items old)))
    × ((dropped : Items) × (append_items dropped items
          ≡ append_items old (cons (history_json numbers "r1" "s1" 9 true unsure) nil)))
history_bounded_example = history_bounded numbers "r1" "s1" 9 true unsure true end

abbrev asked : RunRequest
asked = record {
  run_id = "r1";
  logical_project_id = "l";
  input_hash = "h";
  mode = write;
  provider_names = "p4" ∷ [];
  snapshot_ids = "s1" ∷ [];
}

abbrev story : List Call
story =
    start 10 "late" asked
    ∷ start 20 "late" (record asked { run_id = "r2" })
    ∷ finish 30 "r1" succeeded
        (some (record {
          bindings = 0;
          by_status = λ status. 0;
          persisted = no_results;
          providers = [];
        }))
        none
    ∷ recover 900 300 "late"
    ∷ []

run_calls-IsDated_example : All IsDated (run_calls story [])
run_calls-IsDated_example = run_calls-IsDated story

start_run-RunsFrom_example :
    All
      (RunsFrom (900 - 300))
      (start_run 900 "late" (record asked { run_id = "r3" }) (run_calls story []))
start_run-RunsFrom_example =
    start_run-RunsFrom 900 "late" (record asked { run_id = "r3" }) (run_calls story [])

abbrev env : Env
env = record {
  texts = plain;
  path_tests = tests;
  numbers = numbers;
  manifest_is_project_j = λ m. m.project == "Project_J";
  project_j_id = "l";
  unspaced = λ s. s;
  snapshot_id = λ project m. m.provider;
  is_quarantined = λ id. false;
  stale_message = "late";
  evaluation_error = λ bindings. none;
}

abbrev card : Card
card = record {
  card_id = "k1";
  project_id = "p";
  task_id = some "t";
  kind = "decision";
  canonical_key = "k";
  status = stable;
  confidence = 500;
  current_version = 1;
  valid_from = some 1;
  valid_until = none;
  created_at = 1;
  updated_at = 1;
}

abbrev version : CardVersion
version = record {
  id = record { card_id = "k1"; version_no = 1 };
  statement = "Runs.";
  aliases = [];
  confidence = 500;
  uncertainty = "low";
  source_candidate_ids = [];
  valid_from = some 1;
  valid_until = none;
  supersedes = none;
  change_reason = "created";
  created_at = 1;
}

abbrev store : VerifyDb
store = record {
  tables = record {
    cards = card ∷ [];
    versions = version ∷ [];
    evidence = [];
    links = [];
    bindings = row ∷ [];
    decisions = [];
  };
  checks = [];
  runs = [];
  snapshots = [];
}

abbrev request : VerifyRequest
request = record {
  logical_project_id = "l";
  manifests = workspace ∷ [];
  raw_ids = "p" ∷ [];
  task_id = none;
  task_ids = [];
  limit = 10;
  include_quarantine = false;
  mode = write;
  now = 50;
  run_id = "r1";
  input_hash = "h";
}

abbrev project : Project
project = record { logical_project_id = "l"; identity_key = "k"; display_name = "Project_J" }

fresh_run : find_where (has_run request.run_id) store.runs ≡ none
unfolding find_where
fresh_run = refl

verify-Ends_example :
    Ends request store (verify env request (some project) store)
    × (is_project_j env project ≡ false
        → (verify env request (some project) store).0 ≡ not_applicable)
    × (is_some (find_where (is_mismatched env) (normalize env request.manifests)) ≡ true
        → (verify env request (some project) store).0 ≡ not_applicable)
verify-Ends_example = verify-Ends env request store fresh_run (some project)

abbrev status_after : VerifyDb → List String
status_after db = map (λ b. b.status) db.tables.bindings

-- The workspace is behind the head revision, so the binding is stale.
verified_store : status_after (verify env request (some project) store).1 ≡ "stale" ∷ []
unfolding card_time binding_before is_project_j same_manifest distinct_manifests manifest_before
    merge_sorted normalize composite_of covers_all absence_is_authoritative same_hash all_manifests
    ensure_snapshots composite_snapshot is_listed_card is_listed list_current_bindings
    evaluate_binding run_request record_run end_run verify_applicable is_mismatched verify has_run
    has_snapshot keep_manifest ensure_snapshot is_stale_run interrupted recover_stale_runs in_order
    new_run start_run finished finish_run distinct roots path_key has_path file_exists symbol_exists
    files_at lookup_path has_symbol has_short symbols_at short_at symbol_paths is_unique short_match
    exact_match matched lookup_symbol resolve any_result is_provider judge_both judge_path
    judge_symbol judge_available concluded unavailable_result rejected_result is_placeholder
    entry_stale p4_stale_result resolved_symbol_path resolved_entry_path resolved_path_of
    resolved_symbol_of mismatched facts evaluate set_field get_field add_item texts is_applied
    same_check rewrite_check has_binding verification_json history_json verified_metadata check_row
    set_verified record_binding record_result find_binding record_results weakened any_status
    merged_status add_file same_symbol add_symbol join_all revisions first_root coverage
    canonical_file canonical_path canonical_symbol add_files add_symbols merge_files merge_symbols
    merge find_where filter_where update_where upsert take elem length join insert_sorted sorted
    unique is_empty nonempty has_card has_version same_version
verified_store = refl
