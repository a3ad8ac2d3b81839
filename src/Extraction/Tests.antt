-- ===== src/Extraction/Tests.antt =====
-- Calls for one input, and the theorem at them.
use code_sementic_memory.Common.{
  ℕ, zero, suc, ◌≤◌, ◌≡◌, ◌↔◌, refl, ap, arith, String, Option, true, false, none, some, ◌++◌, map,
  elem, filter_where, join, clip, length, Unique, List, [], ◌∷◌, find_where, update_where,
}
use code_sementic_memory.Extraction.Runs.{
  RunKey, RunRequest, Outcome, raised, stored, extract_task, execute_run, settle_run, begin_run,
  begin_found, same_key, has_run, new_run, restarted, record_failure, failed_run,
}
use code_sementic_memory.Extraction.Batch.{Batch, BatchCandidate, Context, validate_batch}
use code_sementic_memory.Extraction.Grounded.{IsGrounded, validate_batch_iff}
use code_sementic_memory.Extraction.Candidates.{
  CandidateDb, CandidateRow, add_binding_links, add_evidence, add_hints, add_supersedes, any_cited,
  available_candidate_id, candidate_name, candidate_row, delete_run, has_candidate,
  insert_candidate, insert_candidates, of_run, prior_ids, record_success, search_name,
}
use code_sementic_memory.Extraction.Stored.{kept, record_success-Stores}
use code_sementic_memory.Extraction.Kept.{content_of, id_of}
use code_sementic_memory.Consolidation.Scores.{text_length}
use code_sementic_memory.Extraction.Budget.{executions, executions_bounded}

abbrev key : RunKey
key = record {
  task_id = "t";
  input_hash = "h";
  extractor_version = "x";
  prompt_version = "p";
  schema_version = "s";
}

abbrev asked : RunRequest
asked = record {
  key = key;
  project_id = "p";
  session_id = none;
  provider = "mock";
  model = "m";
  input_json = "{}";
  force = false;
  run_id = "r1";
}

abbrev four_calls : List (ℕ × RunRequest × Outcome)
four_calls =
    (1, asked, raised "timeout")
    ∷ (2, asked, raised "timeout")
    ∷ (3, asked, raised "timeout")
    ∷ (4, asked, stored "ok")
    ∷ []

three_of_four : executions four_calls [] ≡ 3
unfolding executions extract_task execute_run settle_run begin_run begin_found same_key has_run
    new_run restarted record_failure failed_run find_where update_where
three_of_four = refl

executions_bounded_example : executions four_calls [] ≤ 3
unfolding find_where
executions_bounded_example =
    executions_bounded key four_calls []
      ((refl, refl), ((refl, refl), ((refl, refl), ((refl, refl), tt)))) tt

abbrev context : Context
context = record {
  extraction_run_id = "r1";
  project_id = "p";
  task_id = "t";
  session_id = none;
  event_ids = "e1" ∷ "e2" ∷ [];
  extractor = record { provider = "mock"; model = "m"; prompt_version = "p" };
}

abbrev stated : BatchCandidate
stated = record {
  candidate_id = "c1";
  kind = "decision";
  statement = "Runs.";
  aliases = [];
  bindings = [];
  evidence_event_ids = "e1" ∷ [];
  confidence = 500;
  uncertainty = "low";
  lifecycle_hint = "proposed";
  relation_hints = [];
}

abbrev batch : Batch
batch = record {
  extraction_run_id = "r1";
  project_id = "p";
  task_id = "t";
  session_id = none;
  source_event_ids = "e1" ∷ [];
  extractor = record { provider = "mock"; model = "m"; prompt_version = "p" };
  candidates = stated ∷ [];
}

validate_batch_iff_example : (validate_batch context batch ≡ none) ↔ IsGrounded context batch
validate_batch_iff_example = validate_batch_iff context batch

-- A numeral in unary
abbrev ticks : ℕ → String
ticks zero = ""
ticks (suc n) = String.◌∷◌ "i" (ticks n)

ticks_distinct : (i j : ℕ) → ticks i ≡ ticks j → i ≡ j
unfolding text_length
ticks_distinct zero zero h = refl
ticks_distinct zero (suc j) h = absurd (omega (arith, ap text_length h))
ticks_distinct (suc i) zero h = absurd (omega (arith, ap text_length h))
ticks_distinct (suc i) (suc j) h = ap suc (ticks_distinct i j (ground (arith, h)))

abbrev taken : List CandidateRow
taken = candidate_row ticks 1 "r0" batch "c1" stated ∷ []

abbrev candidate_db : CandidateDb
candidate_db = record {
  candidates = taken;
  evidence = [];
  links = [];
  cited = "c1" ∷ [];
  runs = [];
}

record_success-Stores_example :
    (added : List CandidateRow) × (db' : CandidateDb) × (record_success ticks 5 "r1" batch
        (λ ids. "{}")
        candidate_db
      ≡ some (map id_of added, db'))
    × (map content_of added ≡ batch.candidates)
    × (db'.candidates ≡ kept ticks 5 "r1" batch ticks_distinct candidate_db ++ added)
    × Unique id_of db'.candidates
    × ((id : String) (r : CandidateRow)
        → elem id candidate_db.cited ≡ true
        → find_where (has_candidate id) candidate_db.candidates ≡ some r
        → find_where (has_candidate id) db'.candidates ≡ some r)
record_success-Stores_example =
    record_success-Stores ticks 5 "r1" batch ticks_distinct (λ ids. "{}") candidate_db (tt, tt)

abbrev ids_after : Option (List String × CandidateDb) → List String
ids_after none = []
ids_after (some (ids, db)) = ids

-- The id is taken, so the candidate gets a new one.
renamed_candidate :
    ids_after (record_success ticks 5 "run-12345" batch (λ ids. "{}") candidate_db)
    ≡ "c1-run-1234" ∷ []
unfolding record_success delete_run insert_candidates available_candidate_id search_name
    candidate_name has_candidate insert_candidate add_hints add_binding_links add_evidence
    add_supersedes any_cited prior_ids of_run find_where filter_where join clip candidate_row elem
    length
renamed_candidate = refl
