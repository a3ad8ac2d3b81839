-- ===== src/Ingest/Tests.antt =====
-- Ingests of concrete events, and the theorems at them.
use code_sementic_memory.Common.{
  ◌++◌, ℕ, ◌≤◌, ◌≡◌, refl, String, true, false, Option, none, some, List, [], ◌∷◌, length, end,
  string, field, Result, ok, err, find_where, update_where, upsert, upsert_found, clip, join,
}
use code_sementic_memory.Outbox.{event_job, insert_job, insert_unless, same_job}
use code_sementic_memory.Ingest.Event.{EventEnvelope, user_message, hook, full, ArtifactRef, utf_8}
use code_sementic_memory.Ingest.Artifacts.{
  Bytes, Codec, artifact_bytes, content_bytes, or_text, get_field, prepare_artifact,
}
use code_sementic_memory.Ingest.Entities.{
  repo_id, title_text, first_title, task_title, touch_project, new_task, touched_task, touch_task,
  write_task, ensure_task, expected_root, vcs_type, new_repository, touched_repository, same_root,
  insert_repository, write_repository, ensure_repository, same_owner, new_session, touched_session,
  write_session, ensure_session_named, ensure_session, ensure_entities,
}
use code_sementic_memory.Ingest.Rows.{
  Db, empty_db, IngestError, has_project, has_task, has_repo, has_session,
}
use code_sementic_memory.Ingest.Store.{
  end_session, advance_session, insert_event, event_hash, with_job, after_insert, event_row,
  store_event, ensure_artifacts, ingest_found, ingest, ingest_many,
}
use code_sementic_memory.Ingest.Identity.{
  accepted, duplicate, IngestResult, has_event_id, same_external, same_place, existing_by_identity,
  event_clash, is_orphan,
}
use code_sementic_memory.Ingest.Repeat.{ingest_idempotent}
use code_sementic_memory.Ingest.Consistency.{
  IsValid, after, ingest_each, ingest_each-IsValid, empty-IsValid,
}
use code_sementic_memory.Ingest.Batch.{Adds, count_accepted, batch-Adds}
use code_sementic_memory.Ingest.Excerpts.{excerpt_bounded}

abbrev codec : Codec
codec = record {
  sha256 = λ bytes. "digest";
  encode = λ s. 1 ∷ 2 ∷ 3 ∷ [];
  decode = λ bytes. "text";
  b64decode = λ s. none;
  json_text = λ j. "{}";
  isoformat = λ n. "1970";
  number_text = λ n. "7";
  strip = λ s. s;
}

abbrev message : String → Option String → ℕ → EventEnvelope
message event_id repo seq = record {
  event_id = event_id;
  external_event_id = none;
  event_type = user_message;
  occurred_at = 5;
  producer = record { agent_id = "a"; adapter = "codex"; adapter_version = "1" };
  project_id = "p";
  task_id = "t";
  session_id = some "s";
  seq = seq;
  parent_event_id = none;
  context = record {
    repo_id = repo;
    root_path = some "/src";
    branch = none;
    commit_id = some "c1";
    p4_changelist = none;
    cwd = none;
    extra = end;
  };
  payload = field "text" (string "fix the parser") end;
  artifacts = [];
  redaction = record { applied = false; ruleset_version = "builtin-v1"; fields = []; extra = end };
  source = hook;
  completeness = full;
}

abbrev result_of : Result IngestError (IngestResult × Db) → IngestResult
result_of (ok (r, db)) = r
result_of (err e) = record {
  status = duplicate;
  event_id = "";
  accepted_seq = 0;
  outbox_job_id = none;
  duplicate_of = none;
}

abbrev first_db : Db
first_db = after (ingest codec 100 (message "e1" (some "r1") 1) 10 "j1" empty_db) empty_db

abbrev first_result : IngestResult
first_result = record {
  status = accepted;
  event_id = "e1";
  accepted_seq = 1;
  outbox_job_id = some "j1";
  duplicate_of = none;
}

ingested :
    ingest codec 100 (message "e1" (some "r1") 1) 10 "j1" empty_db ≡ ok (first_result, first_db)
unfolding ingest ingest_found existing_by_identity find_where ensure_entities has_project has_task
    has_repo has_session repo_id title_text first_title task_title touch_project new_task
    touched_task touch_task write_task ensure_task expected_root vcs_type new_repository
    touched_repository same_root insert_repository write_repository ensure_repository same_owner
    new_session touched_session write_session ensure_session_named ensure_session upsert
    upsert_found update_where ensure_artifacts store_event insert_event event_clash has_event_id
    same_external same_place is_orphan after_insert with_job insert_job insert_unless same_job
    event_job event_row event_hash advance_session end_session get_field or_text clip join
ingested = refl

ingest_idempotent_example :
    ingest codec 100 (message "e1" (some "r1") 1) 20 "j2" first_db
    ≡ ok (record first_result { status = duplicate; duplicate_of = some "e1" }, first_db)
ingest_idempotent_example =
    ingest_idempotent codec 100 (message "e1" (some "r1") 1) 10 20 "j1" "j2" empty_db first_db
      first_result ingested

abbrev three_events : List (EventEnvelope × ℕ × String)
three_events =
    (message "e1" (some "r1") 1, 10, "j1")
    ∷ (message "e2" (some "r1") 1, 11, "j2")
    ∷ (message "e3" (some "r1") 2, 12, "j3")
    ∷ []

ingest_each-IsValid_example : IsValid (ingest_each codec 100 three_events empty_db)
ingest_each-IsValid_example = ingest_each-IsValid codec 100 three_events empty_db empty-IsValid

abbrev twice : List (EventEnvelope × ℕ × String)
twice = (message "e1" (some "r1") 1, 10, "j1") ∷ (message "e1" (some "r1") 1, 11, "j2") ∷ []

abbrev twice_results : List IngestResult
twice_results =
    first_result ∷ record first_result { status = duplicate; duplicate_of = some "e1" } ∷ []

ingested_twice : ingest_many codec 100 twice empty_db ≡ ok (twice_results, first_db)
unfolding ingest_many
ingested_twice = rw ingested (rw ingest_idempotent_again refl)
  where
    ingest_idempotent_again :
        ingest codec 100 (message "e1" (some "r1") 1) 11 "j2" first_db
        ≡ ok (record first_result { status = duplicate; duplicate_of = some "e1" }, first_db)
    ingest_idempotent_again =
        ingest_idempotent codec 100 (message "e1" (some "r1") 1) 10 11 "j1" "j2" empty_db first_db
          first_result ingested

batch-Adds_example :
    (length twice_results ≡ length twice) × Adds (count_accepted twice_results) empty_db first_db
batch-Adds_example = batch-Adds codec 100 twice empty_db first_db twice_results ingested_twice

abbrev log_file : ArtifactRef
log_file = record {
  kind = "log";
  uri = none;
  path = some "out.log";
  sha256 = none;
  mime_type = none;
  size_bytes = none;
  content = some "abc";
  content_encoding = utf_8;
  truncated = false;
  metadata = end;
  extra = end;
}

has_bytes : artifact_bytes codec log_file ≡ some (1 ∷ 2 ∷ 3 ∷ [])
unfolding artifact_bytes content_bytes
has_bytes = refl

excerpt_bounded_example :
    let p = prepare_artifact codec 2 (message "e1" none 1) log_file in
    (kept : Bytes) × (p.content_excerpt ≡ some "text")
    × ((rest : Bytes) × (kept ++ rest ≡ 1 ∷ 2 ∷ 3 ∷ []))
    × (length kept ≤ 2)
    × (3 ≤ 2 → kept ≡ 1 ∷ 2 ∷ 3 ∷ [])
    × (p.size_bytes ≡ some 3)
    × (p.truncated ≡ true)
excerpt_bounded_example =
    excerpt_bounded codec 2 (message "e1" none 1) log_file (1 ∷ 2 ∷ 3 ∷ []) has_bytes
