-- ===== src/Ingest/Outcomes.antt =====
-- Every ingest that does not raise either finds the event or stores it.
use code_sementic_memory.Common.{
  ℕ, ◌≡◌, refl, ◌∙◌, String, Bool, true, false, Option, none, some, List, [], ◌∷◌, ◌++◌, arith,
  length, ok, bind-ok, find_where,
}
use code_sementic_memory.Outbox.{OutboxJob, event_job, insert_job, insert_unless, same_job}
use code_sementic_memory.Ingest.Event.{EventEnvelope}
use code_sementic_memory.Ingest.Artifacts.{Codec}
use code_sementic_memory.Ingest.Rows.{Db, EventRow}
use code_sementic_memory.Ingest.Store.{
  Ensured, payload_of, insert_event, with_job, after_insert, event_row, store_event, ingest_found,
  ingest,
}
use code_sementic_memory.Ingest.Identity.{
  IngestResult, existing_by_identity, event_clash, is_orphan, after_clash,
}
use code_sementic_memory.Ingest.Owners.{EntitiesOk, ensure_entities-ok}
use code_sementic_memory.Ingest.Accept.{
  ArtifactsOk, ensure_artifacts-ok, Outcome, stored, answer_existing-known,
}

module _ (c : Codec) (e : EventEnvelope) (now : ℕ) (job_id : String) (db : Db) (r : IngestResult)
    (db' : Db) where
  -- The IntegrityError path never succeeds: the second look at the table sees what the first saw.
  clash_raises :
      (links : List (String × ℕ)) (db2 : Db)
      → existing_by_identity e db.events ≡ none
      → db2.events ≡ db.events
      → after_insert c e now job_id links none db2 ≡ ok (r, db')
      → ⊥
  unfolding after_insert after_clash
  clash_raises links db2 f same h =
      let f2 : existing_by_identity e db2.events ≡ none = rw same f in ground (arith, rw f2 at h)

  job-stored :
      (entities : Db) (ensured : Ensured) (o : Option OutboxJob)
      → existing_by_identity e db.events ≡ none
      → EntitiesOk e db entities
      → ArtifactsOk (length e.artifacts) entities ensured
      → find_where (event_clash e) ensured.db.events ≡ none
      → find_where (same_job (event_job job_id (payload_of e) now)) ensured.db.outbox ≡ o
      → with_job c e job_id ensured.links
          (insert_unless o (event_job job_id (payload_of e) now) ensured.db.outbox)
          (record ensured.db {
            events = ensured.db.events ++ event_row c e now ensured.stored_refs ∷ [];
          })
        ≡ ok (r, db')
      → Outcome c e now job_id db r db'
  unfolding with_job insert_unless
  job-stored entities ensured (some k) f eo ao nc nj h = ground arith
  job-stored entities ensured none f eo ao nc nj h =
      let same_events = ao.frame.log.events ∙ eo.log.events in
      let same_outbox = ao.frame.log.outbox ∙ eo.log.outbox in
      stored
        (record {
          entities = entities;
          ensured = ensured;
          entities_ok = eo;
          artifacts_ok = ao;
          fresh = f;
          no_clash = rw same_events at nc;
          no_job = rw same_outbox at nj;
          events = ground (arith, same_events);
          outbox = ground (arith, same_outbox);
          tasks = ground (arith, ao.frame.tasks);
          sessions = ground (arith, ao.frame.sessions);
        })
        (ground arith)

  store_event-Outcome :
      (entities : Db) (ensured : Ensured) (o : Option EventRow) (orphan : Bool)
      → existing_by_identity e db.events ≡ none
      → EntitiesOk e db entities
      → ArtifactsOk (length e.artifacts) entities ensured
      → find_where (event_clash e) ensured.db.events ≡ o
      → after_insert c e now job_id ensured.links
          (insert_event (event_row c e now ensured.stored_refs) o orphan ensured.db.events)
          ensured.db
        ≡ ok (r, db')
      → Outcome c e now job_id db r db'
  unfolding insert_event
  store_event-Outcome entities ensured (some clash) orphan f eo ao nc h =
      absurd (clash_raises ensured.links ensured.db f (ao.frame.log.events ∙ eo.log.events) h)
  store_event-Outcome entities ensured none true f eo ao nc h =
      absurd (clash_raises ensured.links ensured.db f (ao.frame.log.events ∙ eo.log.events) h)
  store_event-Outcome entities ensured none false f eo ao nc h =
      job-stored entities ensured _ f eo ao nc refl (unfold after_insert insert_job in h)

  found-Outcome :
      (m : ℕ) (o : Option EventRow)
      → existing_by_identity e db.events ≡ o
      → ingest_found c m e now job_id o db ≡ ok (r, db')
      → Outcome c e now job_id db r db'
  unfolding ingest_found store_event
  found-Outcome m (some row) f h = answer_existing-known c e now job_id row db db' r f h
  found-Outcome m none f h =
      let (entities, h0, h2) = bind-ok _ _ (r, db') h in
      let (ensured, h1, h3) = bind-ok _ _ (r, db') h2 in
      store_event-Outcome entities ensured _ (is_orphan e.session_id ensured.db.sessions) f
        (ensure_entities-ok c e db entities h0)
        (ensure_artifacts-ok c m e now 0 e.artifacts entities ensured h1) refl h3

  pub ingest-Outcome :
      (m : ℕ) → ingest c m e now job_id db ≡ ok (r, db') → Outcome c e now job_id db r db'
  unfolding ingest
  ingest-Outcome m h = found-Outcome m _ refl h
