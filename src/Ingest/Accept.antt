-- ===== src/Ingest/Accept.antt =====
-- The way of an accepted event through `_ingest_with_connection`.
use code_sementic_memory.Common.{
  ℕ, suc, ◌≡◌, refl, ap, ◌∙◌, String, Option, none, some, List, [], ◌∷◌, ◌++◌, ◌==◌, arith,
  Bool-cases, inl, inr, Option-cases, All, length, ok, bind-ok, Kept, Kept-refl, Kept-update_all,
  find_where, ==-eq,
}
use code_sementic_memory.Outbox.{event_job, same_job}
use code_sementic_memory.Ingest.Event.{EventEnvelope, ArtifactRef, is_session_end}
use code_sementic_memory.Ingest.Artifacts.{Codec, Prepared, prepare_artifact, stored_ref}
use code_sementic_memory.Ingest.Rows.{Db, Session, EventRow, ArtifactRow, has_session}
use code_sementic_memory.Ingest.Store.{
  insert_artifact, write_artifact, Ensured, prepend, ensure_artifacts, has_artifact_id, end_session,
  advance_session, payload_of, event_hash, event_row,
}
use code_sementic_memory.Ingest.Identity.{
  IngestResult, accepted, duplicate, existing_by_identity, event_clash, is_job_of, job_id_of,
  answer_existing,
}
use code_sementic_memory.Ingest.Frame.{
  SameLog, SameLog-refl, SameLog-trans, SessionGrows, SessionGrows-refl,
}
use code_sementic_memory.Ingest.Owners.{EntitiesOk}

-- What `_ensure_artifacts` leaves as it is
pub record OnlyArtifacts (db db' : Db) : Type 0 where
  pub log : SameLog db db'
  pub tasks : db'.tasks ≡ db.tasks
  pub sessions : db'.sessions ≡ db.sessions

pub OnlyArtifacts-refl : (db : Db) → OnlyArtifacts db db
OnlyArtifacts-refl db = record { log = SameLog-refl db; tasks = refl; sessions = refl }

OnlyArtifacts-trans : (a b d : Db) → OnlyArtifacts a b → OnlyArtifacts b d → OnlyArtifacts a d
OnlyArtifacts-trans a b d s t = record {
  log = SameLog-trans a b d s.log t.log;
  tasks = t.tasks ∙ s.tasks;
  sessions = t.sessions ∙ s.sessions;
}

write_artifact-OnlyArtifacts :
    (now : ℕ) (p : Prepared) (o : Option ArtifactRow) (db db' : Db) (id : String)
    → write_artifact now p o db ≡ ok (id, db')
    → OnlyArtifacts db db'
unfolding write_artifact
write_artifact-OnlyArtifacts now p none db db' id h =
    inserted (find_where (has_artifact_id p.artifact_id) db.artifacts) h
  where
    inserted :
        (o : Option ArtifactRow) → insert_artifact now p o db ≡ ok (id, db') → OnlyArtifacts db db'
    inserted none k =
        unfold insert_artifact in
        record { log = ground arith; tasks = ground arith; sessions = ground arith }
    inserted (some a) k = unfold insert_artifact in ground arith
write_artifact-OnlyArtifacts now p (some a) db db' id h = record {
  log = ground arith;
  tasks = ground arith;
  sessions = ground arith;
}

-- The references hold no content, and there is one link for each artifact.
pub record ArtifactsOk (n : ℕ) (db : Db) (ensured : Ensured) : Type 0 where
  pub frame : OnlyArtifacts db ensured.db
  pub bounded : All (λ a. a.content ≡ none) ensured.stored_refs
  pub refs : length ensured.stored_refs ≡ n
  pub links : length ensured.links ≡ n

stored_ref-content : (p : Prepared) (a : ArtifactRef) → (stored_ref p a).content ≡ none
unfolding stored_ref
stored_ref-content p a = elim (Option-cases a.content) [
  | inl e ↦ rw e refl
  | inr (s, e) ↦ rw e refl
]

pub ensure_artifacts-ok :
    (c : Codec) (m : ℕ) (e : EventEnvelope) (now ordinal : ℕ) (arts : List ArtifactRef) (db : Db)
    (ensured : Ensured)
    → ensure_artifacts c m e now ordinal arts db ≡ ok ensured
    → ArtifactsOk (length arts) db ensured
unfolding ensure_artifacts prepend
ensure_artifacts-ok c m e now ordinal [] db ensured h =
    let q : record { links = []; stored_refs = []; db = db } ≡ ensured = ground arith in
    rw (← q) (record { frame = OnlyArtifacts-refl db; bounded = tt; refs = refl; links = refl })
ensure_artifacts-ok c m e now ordinal (a ∷ rest) db ensured h =
    let ((id, db1), h0, h1) = bind-ok _ _ ensured h in
    let (rest_ok, h2, h3) = bind-ok _ _ ensured h1 in
    let r = ensure_artifacts-ok c m e now (suc ordinal) rest db1 rest_ok h2 in
    let p = prepare_artifact c m e a in
    let q : prepend (id, ordinal) (stored_ref p a) rest_ok ≡ ensured = ground arith in
    rw (← q) (record {
      frame =
          OnlyArtifacts-trans db db1 rest_ok.db (write_artifact-OnlyArtifacts now p _ db db1 id h0)
            r.frame;
      bounded = (stored_ref-content p a, r.bounded);
      refs = ap suc r.refs;
      links = ap suc r.links;
    })

end_session-grows : (e : EventEnvelope) (s : Session) → SessionGrows s (end_session e s)
unfolding end_session
end_session-grows e s = elim (Bool-cases (is_session_end e.event_type)) [
  | inl h ↦ rw h (record { task = refl; agent = refl; adapter = refl; seq = omega arith })
  | inr h ↦ rw h (record { task = refl; agent = refl; adapter = refl; seq = omega arith })
]

end_session-has :
    (e : EventEnvelope) (k : String) (s : Session)
    → has_session k (end_session e s) ≡ has_session k s
unfolding end_session has_session
end_session-has e k s = elim (Bool-cases (is_session_end e.event_type)) [
  | inl h ↦ rw h refl
  | inr h ↦ rw h refl
]

pub advance_session-Kept :
    (e : EventEnvelope) (o : Option String) (ss : List Session)
    → Kept has_session SessionGrows ss (advance_session e o ss)
unfolding advance_session
advance_session-Kept e none ss = Kept-refl has_session SessionGrows SessionGrows-refl ss
advance_session-Kept e (some id) ss = elim (Bool-cases (id == "")) [
  | inl h ↦ rw h (Kept-refl has_session SessionGrows SessionGrows-refl ss)
  | inr h ↦ rw h (
      Kept-update_all has_session SessionGrows (end_session e) (has_session id) ss SessionGrows-refl
        (λ k s. end_session-has e k s) (λ s. end_session-grows e s))
]

-- An accepted event: what the transaction went through
pub record Accepted (c : Codec) (e : EventEnvelope) (now : ℕ) (job_id : String) (db db' : Db)
    : Type 0 where
  pub entities : Db
  pub ensured : Ensured
  pub entities_ok : EntitiesOk e db entities
  pub artifacts_ok : ArtifactsOk (length e.artifacts) entities ensured
  pub fresh : existing_by_identity e db.events ≡ none
  pub no_clash : find_where (event_clash e) db.events ≡ none
  pub no_job : find_where (same_job (event_job job_id (payload_of e) now)) db.outbox ≡ none
  pub events : db'.events ≡ db.events ++ event_row c e now ensured.stored_refs ∷ []
  pub outbox : db'.outbox ≡ db.outbox ++ event_job job_id (payload_of e) now ∷ []
  pub tasks : db'.tasks ≡ entities.tasks
  pub sessions : db'.sessions ≡ advance_session e e.session_id entities.sessions

-- How an ingest that does not raise ends
pub data Outcome (c : Codec) (e : EventEnvelope) (now : ℕ) (job_id : String) (db : Db)
    (r : IngestResult) (db' : Db) : Type 0 where
  known :
      (row : EventRow)
      → existing_by_identity e db.events ≡ some row
      → row.event_hash ≡ event_hash c e
      → r ≡ record {
        status = duplicate;
        event_id = row.event.event_id;
        accepted_seq = row.event.seq;
        outbox_job_id = job_id_of (find_where (is_job_of row.event.event_id) db.outbox);
        duplicate_of = some row.event.event_id;
      }
      → db' ≡ db
      → Outcome c e now job_id db r db'
  stored :
      Accepted c e now job_id db db'
      → r ≡ record {
        status = accepted;
        event_id = e.event_id;
        accepted_seq = e.seq;
        outbox_job_id = some job_id;
        duplicate_of = none;
      }
      → Outcome c e now job_id db r db'

pub answer_existing-known :
    (c : Codec) (e : EventEnvelope) (now : ℕ) (job_id : String) (row : EventRow) (db db' : Db)
    (r : IngestResult)
    → existing_by_identity e db.events ≡ some row
    → answer_existing (event_hash c e) row db ≡ ok (r, db')
    → Outcome c e now job_id db r db'
unfolding answer_existing
answer_existing-known c e now job_id row db db' r f h =
    elim (Bool-cases (row.event_hash == event_hash c e)) [
      | inl same ↦ known row f (==-eq _ _ same) (ground arith) (ground arith)
      | inr other ↦ ground arith
    ]
