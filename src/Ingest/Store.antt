-- ===== src/Ingest/Store.antt =====
-- `_ensure_artifacts`, `_existing_by_identity`, `_ingest_with_connection`, `ingest` and `ingest_many` of
-- src/codememory/storage/repository.py. `now` is the clock and `job_id` the fresh uuid of the job.
use code_sementic_memory.Common.{
  ℕ, suc, max, String, Bool, true, false, ◌||◌, Option, none, some, List, [], ◌∷◌, ◌++◌, ◌==◌,
  coalesce, if◌then◌else◌, join, array, object, Result, ok, err, ◌>>=◌, find_where, update_where,
  map,
}
use code_sementic_memory.Outbox.{JobPayload, Outbox, event_job, insert_job}
use code_sementic_memory.Ingest.Event.{
  EventEnvelope, ArtifactRef, is_session_end, type_value, context_json, artifacts_json,
  canonical_dict,
}
use code_sementic_memory.Ingest.Artifacts.{Codec, Prepared, prepare_artifact, stored_ref}
use code_sementic_memory.Ingest.Entities.{ensure_entities}
use code_sementic_memory.Ingest.Rows.{
  Db, Session, ended, EventRow, ArtifactRow, EventArtifact, IngestError, integrity_error,
  has_session,
}
use code_sementic_memory.Ingest.Identity.{
  IngestResult, accepted, after_clash, answer_existing, event_clash, existing_by_identity,
  is_orphan,
}

unfoldable pub has_sha : String → ArtifactRow → Bool
has_sha sha256 a = a.prepared.sha256 == sha256

unfoldable pub has_artifact_id : String → ArtifactRow → Bool
has_artifact_id artifact_id a = a.prepared.artifact_id == artifact_id

-- ON CONFLICT(sha256) DO UPDATE
unfoldable pub merge_artifact : Prepared → ArtifactRow → ArtifactRow
merge_artifact p a = record a {
  prepared = record a.prepared {
    kind = p.kind;
    uri = coalesce p.uri a.prepared.uri;
    path = coalesce p.path a.prepared.path;
    mime_type = coalesce p.mime_type a.prepared.mime_type;
    size_bytes = coalesce p.size_bytes a.prepared.size_bytes;
    content_excerpt = coalesce p.content_excerpt a.prepared.content_excerpt;
    truncated = a.prepared.truncated || p.truncated;
    metadata = p.metadata;
  };
}

unfoldable pub insert_artifact :
    ℕ → Prepared → Option ArtifactRow → Db → Result IngestError (String × Db)
insert_artifact now p (some clash) db = err integrity_error
insert_artifact now p none db = ok (
  p.artifact_id,
  record db { artifacts = db.artifacts ++ record { prepared = p; created_at = now } ∷ [] },
)

-- The upsert, and the id that the SELECT by sha256 gives then
unfoldable pub write_artifact :
    ℕ → Prepared → Option ArtifactRow → Db → Result IngestError (String × Db)
write_artifact now p none db =
    insert_artifact now p (find_where (has_artifact_id p.artifact_id) db.artifacts) db
write_artifact now p (some a) db = ok (
  a.prepared.artifact_id,
  record db { artifacts = update_where (has_sha p.sha256) (merge_artifact p) db.artifacts },
)

-- What `_ensure_artifacts` returns, with the database
pub record Ensured : Type 0 where
  pub links : List (String × ℕ)
  pub stored_refs : List ArtifactRef
  pub db : Db

unfoldable pub prepend : String × ℕ → ArtifactRef → Ensured → Ensured
prepend link ref rest = record rest {
  links = link ∷ rest.links;
  stored_refs = ref ∷ rest.stored_refs;
}

-- The UPDATE of the session at the end
unfoldable pub end_session : EventEnvelope → Session → Session
end_session e s =
    if is_session_end e.event_type
    then record s { status = ended; ended_at = some e.occurred_at; last_seq = max s.last_seq e.seq }
    else record s { last_seq = max s.last_seq e.seq }

unfoldable pub advance_session : EventEnvelope → Option String → List Session → List Session
advance_session e none t = t
advance_session e (some id) t =
    if id == "" then t else update_where (has_session id) (end_session e) t

abbrev pub payload_of : EventEnvelope → JobPayload
payload_of e = record {
  event_id = e.event_id;
  event_type = type_value e.event_type;
  project_id = e.project_id;
  task_id = e.task_id;
  session_id = e.session_id;
}

abbrev pub link_of : EventEnvelope → String × ℕ → EventArtifact
link_of e (artifact_id, ordinal) = record {
  event_id = e.event_id;
  artifact_id = artifact_id;
  ordinal = ordinal;
}

-- `none` is the IntegrityError of the INSERT.
unfoldable pub insert_event :
    EventRow → Option EventRow → Bool → List EventRow → Option (List EventRow)
insert_event row (some clash) orphan t = none
insert_event row none true t = none
insert_event row none false t = some (t ++ row ∷ [])

module _ (c : Codec) where
  -- `_event_hash`
  unfoldable pub event_hash : EventEnvelope → String
  event_hash e = c.sha256 (c.encode (c.json_text (canonical_dict c.isoformat c.number_text e)))

  -- The session id of the search text, with the space after it
  unfoldable pub session_piece : Option String → String
  session_piece none = ""
  session_piece (some id) = if id == "" then "" else join id " "

  -- `_event_search_text`: the pieces joined by spaces
  unfoldable pub event_search_text : EventEnvelope → String
  event_search_text e = join (type_value e.event_type) (
      join " " (
        join e.project_id (
          join " " (
            join e.task_id (
              join " " (
                join (session_piece e.session_id) (
                  join (c.json_text (object e.payload)) (
                    join " " (
                      join (c.json_text (context_json c.isoformat c.number_text e.context)) (
                        join " " (
                          c.json_text (
                            array (artifacts_json c.isoformat c.number_text e.artifacts)))))))))))))

  -- The INSERTs after that of the event: the job, the search row, the artifact links; then the session
  unfoldable pub with_job :
      EventEnvelope
      → String
      → List (String × ℕ)
      → Option Outbox
      → Db
      → Result IngestError (IngestResult × Db)
  with_job e job_id links none db = err integrity_error
  with_job e job_id links (some outbox) db = ok (
    record {
      status = accepted;
      event_id = e.event_id;
      accepted_seq = e.seq;
      outbox_job_id = some job_id;
      duplicate_of = none;
    },
    record db {
      outbox = outbox;
      event_fts =
          db.event_fts
          ++ record {
            event_id = e.event_id;
            project_id = e.project_id;
            task_id = e.task_id;
            text = event_search_text e;
          }
            ∷ [];
      event_artifacts = db.event_artifacts ++ map (link_of e) links;
      sessions = advance_session e e.session_id db.sessions;
    },
  )

  unfoldable pub after_insert :
      EventEnvelope
      → ℕ
      → String
      → List (String × ℕ)
      → Option (List EventRow)
      → Db
      → Result IngestError (IngestResult × Db)
  after_insert e now job_id links none db =
      after_clash (event_hash e) (existing_by_identity e db.events) db
  after_insert e now job_id links (some events) db =
      with_job e job_id links (insert_job (event_job job_id (payload_of e) now) db.outbox)
        (record db { events = events })

  unfoldable pub event_row : EventEnvelope → ℕ → List ArtifactRef → EventRow
  event_row e now refs = record {
    event = record e { artifacts = refs };
    ingested_at = now;
    event_hash = event_hash e;
  }

  unfoldable pub store_event :
      EventEnvelope → ℕ → String → Ensured → Result IngestError (IngestResult × Db)
  store_event e now job_id ensured =
      let db = ensured.db in
      after_insert e now job_id ensured.links
        (insert_event (event_row e now ensured.stored_refs) (find_where (event_clash e) db.events)
          (is_orphan e.session_id db.sessions) db.events)
        db

module _ (c : Codec) (artifact_max_bytes : ℕ) where
  -- The loop of `_ensure_artifacts`, from the artifact numbered `ordinal`
  unfoldable pub ensure_artifacts :
      EventEnvelope → ℕ → ℕ → List ArtifactRef → Db → Result IngestError Ensured
  ensure_artifacts e now ordinal [] db = ok (record { links = []; stored_refs = []; db = db })
  ensure_artifacts e now ordinal (a ∷ rest) db =
      let p = prepare_artifact c artifact_max_bytes e a in
      write_artifact now p (find_where (has_sha p.sha256) db.artifacts) db >>= λ (id, db').
      ensure_artifacts e now (suc ordinal) rest db' >>= λ ensured.
      ok (prepend (id, ordinal) (stored_ref p a) ensured)

  unfoldable pub ingest_found :
      EventEnvelope → ℕ → String → Option EventRow → Db → Result IngestError (IngestResult × Db)
  ingest_found e now job_id (some row) db = answer_existing (event_hash c e) row db
  ingest_found e now job_id none db = ensure_entities c e db >>= λ db'.
      ensure_artifacts e now 0 e.artifacts db' >>= store_event c e now job_id

  -- `ingest`, the transaction around `_ingest_with_connection`
  unfoldable pub ingest : EventEnvelope → ℕ → String → Db → Result IngestError (IngestResult × Db)
  ingest e now job_id db = ingest_found e now job_id (existing_by_identity e db.events) db

  -- `ingest_many` with atomic=True: one transaction, so that an error leaves nothing behind
  unfoldable pub ingest_many :
      List (EventEnvelope × ℕ × String) → Db → Result IngestError (List IngestResult × Db)
  ingest_many [] db = ok ([], db)
  ingest_many ((e, now, job_id) ∷ rest) db = ingest e now job_id db >>= λ (r, db').
      ingest_many rest db' >>= λ (rs, db''). ok (r ∷ rs, db'')
