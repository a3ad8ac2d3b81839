-- ===== src/Ingest/Identity.antt =====
-- `_existing_by_identity`, `_same_hash` and the answers for an event that the table holds already, of
-- src/codememory/storage/repository.py, with the unique keys of the table events.
use code_sementic_memory.Common.{
  ℕ, String, Bool, false, not, ◌&&◌, ◌||◌, Option, none, some, List, ◌==◌, eqb, opt_eq, truthy,
  is_some, coalesce, if◌then◌else◌, Result, ok, err, find_where,
}
use code_sementic_memory.Outbox.{OutboxJob}
use code_sementic_memory.Ingest.Event.{EventEnvelope}
use code_sementic_memory.Ingest.Rows.{Db, Session, EventRow, IngestError, conflict, has_session}

pub data IngestStatus : Type 0 where
  accepted duplicate : IngestStatus

pub record IngestResult : Type 0 where
  pub status : IngestStatus
  pub event_id : String
  pub accepted_seq : ℕ
  pub outbox_job_id : Option String
  pub duplicate_of : Option String

-- WHERE event_id = ?
unfoldable pub has_event_id : String → EventRow → Bool
has_event_id event_id r = r.event.event_id == event_id

-- WHERE producer_agent_id = ? AND producer_adapter = ? AND external_event_id = ?
unfoldable pub same_external : EventEnvelope → EventRow → Bool
same_external e r =
    r.event.producer.agent_id == e.producer.agent_id
    && (r.event.producer.adapter == e.producer.adapter
        && opt_eq r.event.external_event_id e.external_event_id)

-- WHERE session_id = ? AND seq = ?
unfoldable pub same_place : EventEnvelope → EventRow → Bool
same_place e r = opt_eq r.event.session_id e.session_id && eqb r.event.seq e.seq

-- `_existing_by_identity`
unfoldable pub existing_by_identity : EventEnvelope → List EventRow → Option EventRow
existing_by_identity e t = coalesce (find_where (has_event_id e.event_id) t) (
    coalesce (if truthy e.external_event_id then find_where (same_external e) t else none)
      (if truthy e.session_id then find_where (same_place e) t else none))

-- PRIMARY KEY(event_id), idx_events_external_identity, idx_events_session_seq
unfoldable pub event_clash : EventEnvelope → EventRow → Bool
event_clash e r = has_event_id e.event_id r || (same_external e r || same_place e r)

-- session_id REFERENCES sessions; the project and the task were written just before.
unfoldable pub is_orphan : Option String → List Session → Bool
is_orphan none sessions = false
is_orphan (some id) sessions = not (is_some (find_where (has_session id) sessions))

-- WHERE job_type='event.ingested' AND dedupe_key=?
unfoldable pub is_job_of : String → OutboxJob → Bool
is_job_of event_id j = j.job_type == "event.ingested" && j.dedupe_key == event_id

abbrev pub job_id_of : Option OutboxJob → Option String
job_id_of none = none
job_id_of (some j) = some j.job_id

-- The result for an event that is there already, or the conflict
unfoldable pub answer_existing : String → EventRow → Db → Result IngestError (IngestResult × Db)
answer_existing event_hash row db =
    if row.event_hash == event_hash
    then ok (
      record {
        status = duplicate;
        event_id = row.event.event_id;
        accepted_seq = row.event.seq;
        outbox_job_id = job_id_of (find_where (is_job_of row.event.event_id) db.outbox);
        duplicate_of = some row.event.event_id;
      },
      db,
    )
    else err (conflict (some row.event.event_id))

-- What follows a caught IntegrityError
unfoldable pub after_clash : String → Option EventRow → Db → Result IngestError (IngestResult × Db)
after_clash event_hash none db = err (conflict none)
after_clash event_hash (some row) db =
    if row.event_hash == event_hash then answer_existing event_hash row db else err (conflict none)
