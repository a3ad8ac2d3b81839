-- ===== src/Ingest/Repeat.antt =====
-- A second ingest of an event.
use code_sementic_memory.Common.{
  ℕ, ◌≡◌, refl, ◌∙◌, String, false, Option, none, some, List, [], ◌∷◌, arith, All-imp, ok,
  find_where, All-find_where-none, find_where-none, find_where-append, eq_refl, eq_iff,
}
use code_sementic_memory.Outbox.{OutboxJob, event_job, same_job}
use code_sementic_memory.Ingest.Event.{EventEnvelope}
use code_sementic_memory.Ingest.Artifacts.{Codec}
use code_sementic_memory.Ingest.Rows.{Db, EventRow}
use code_sementic_memory.Ingest.Store.{payload_of, event_hash, event_row, ingest_found, ingest}
use code_sementic_memory.Ingest.Identity.{
  IngestResult, duplicate, has_event_id, existing_by_identity, is_job_of, job_id_of,
  answer_existing,
}
use code_sementic_memory.Ingest.Accept.{Accepted, known, stored}
use code_sementic_memory.Ingest.Outcomes.{ingest-Outcome}

-- The answer to an event that a table holds under its own id
repeated :
    (c : Codec) (e : EventEnvelope) (row : EventRow) (t : List EventRow)
    → find_where (has_event_id e.event_id) t ≡ some row
    → existing_by_identity e t ≡ some row
unfolding existing_by_identity
repeated c e row t f = rw f refl

other-job :
    (e : EventEnvelope) (now : ℕ) (job_id : String) (j : OutboxJob)
    → same_job (event_job job_id (payload_of e) now) j ≡ false
    → is_job_of e.event_id j ≡ false
unfolding same_job event_job is_job_of
other-job e now job_id j h = ground (
  arith,
  h,
  eq_iff j.job_type "event.ingested",
  eq_iff j.dedupe_key e.event_id,
  eq_iff "event.ingested" j.job_type,
  eq_iff e.event_id j.dedupe_key,
)

module _ (c : Codec) (e : EventEnvelope) (now : ℕ) (job_id : String) (db db' : Db)
    (a : Accepted c e now job_id db db') where
  find-stored : existing_by_identity e db'.events ≡ some (event_row c e now a.ensured.stored_refs)
  unfolding find_where has_event_id event_row existing_by_identity
  find-stored =
      let missing : find_where (has_event_id e.event_id) db.events ≡ none =
        id_missing (find_where (has_event_id e.event_id) db.events) refl in
      rw a.events (
        rw
          (find_where-append (has_event_id e.event_id) db.events
            (event_row c e now a.ensured.stored_refs ∷ []) missing)
          (rw (eq_refl e.event_id) refl))
    where
      id_missing :
          (o : Option EventRow)
          → find_where (has_event_id e.event_id) db.events ≡ o
          → find_where (has_event_id e.event_id) db.events ≡ none
      id_missing none q = q
      id_missing (some row) q = absurd (ground (arith, rw q at a.fresh))

  find-job :
      find_where (is_job_of e.event_id) db'.outbox ≡ some (event_job job_id (payload_of e) now)
  unfolding find_where is_job_of event_job
  find-job = rw a.outbox (
      rw
        (find_where-append (is_job_of e.event_id) db.outbox
          (event_job job_id (payload_of e) now ∷ []) job_missing)
        (rw (eq_refl e.event_id) refl))
    where
      job_missing : find_where (is_job_of e.event_id) db.outbox ≡ none
      job_missing = All-find_where-none (is_job_of e.event_id) db.outbox (
          All-imp db.outbox (λ j h. other-job e now job_id j h)
            (find_where-none _ db.outbox a.no_job))

answer-same :
    (c : Codec) (e : EventEnvelope) (row : EventRow) (db : Db)
    → row.event_hash ≡ event_hash c e
    → answer_existing (event_hash c e) row db
      ≡ ok (
        record {
          status = duplicate;
          event_id = row.event.event_id;
          accepted_seq = row.event.seq;
          outbox_job_id = job_id_of (find_where (is_job_of row.event.event_id) db.outbox);
          duplicate_of = some row.event.event_id;
        },
        db,
      )
unfolding answer_existing
answer-same c e row db h = rw (h, eq_refl (event_hash c e)) refl

ingest-existing :
    (c : Codec) (m : ℕ) (e : EventEnvelope) (now : ℕ) (job_id : String) (row : EventRow) (db : Db)
    → existing_by_identity e db.events ≡ some row
    → ingest c m e now job_id db ≡ answer_existing (event_hash c e) row db
unfolding ingest ingest_found
ingest-existing c m e now job_id row db f = rw f refl

stored-again :
    (c : Codec) (m : ℕ) (e : EventEnvelope) (now later : ℕ) (job_id other_id : String) (db db' : Db)
    → Accepted c e now job_id db db'
    → ingest c m e later other_id db'
      ≡ ok (
        record {
          status = duplicate;
          event_id = e.event_id;
          accepted_seq = e.seq;
          outbox_job_id = some job_id;
          duplicate_of = some e.event_id;
        },
        db',
      )
unfolding event_row event_job
stored-again c m e now later job_id other_id db db' a =
    let row = event_row c e now a.ensured.stored_refs in
    ingest-existing c m e later other_id row db' (find-stored c e now job_id db db' a)
    ∙ answer-same c e row db' refl
    ∙ rw (find-job c e now job_id db db' a) refl

-- Once an ingest has succeeded, the same event ingested again, at any time and with any new job id,
-- changes nothing and is answered as a duplicate with the event id, the sequence number and the job id
-- of the first answer.
pub ingest_idempotent :
    (c : Codec) (m : ℕ) (e : EventEnvelope) (now later : ℕ) (job_id other_id : String) (db db' : Db)
    (r : IngestResult)
    → ingest c m e now job_id db ≡ ok (r, db')
    → ingest c m e later other_id db'
      ≡ ok (record r { status = duplicate; duplicate_of = some r.event_id }, db')
ingest_idempotent c m e now later job_id other_id db db' r h =
    elim (ingest-Outcome c e now job_id db r db' m h) [
      | known row f same q unchanged ↦
          rw (q, unchanged)
            (ingest-existing c m e later other_id row db f ∙ answer-same c e row db same)
      | stored a q ↦ rw q (stored-again c m e now later job_id other_id db db' a)
    ]
