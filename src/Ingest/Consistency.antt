-- ===== src/Ingest/Consistency.antt =====
-- What the tables agree on after any ingests.
use code_sementic_memory.Common.{
  ℕ, ◌≡◌, refl, sym, ◌∙◌, subst, String, true, false, none, some, List, [], ◌∷◌, ◌++◌, arith, inl,
  inr, Option-cases, All, All-append, All-imp, Result, ok, err, bind-ok, Kept, Kept-trans,
  find_where, find_where-none, find_where-append, find_where-extend, eq_refl,
}
use code_sementic_memory.Outbox.{OutboxJob, Outbox, event_job}
use code_sementic_memory.Ingest.Event.{EventEnvelope, ArtifactRef}
use code_sementic_memory.Ingest.Artifacts.{Codec}
use code_sementic_memory.Ingest.Entities.{same_owner}
use code_sementic_memory.Ingest.Rows.{
  Db, empty_db, Task, Session, EventRow, IngestError, has_session, has_task,
}
use code_sementic_memory.Ingest.Store.{payload_of, event_row, ingest, ingest_many}
use code_sementic_memory.Ingest.Identity.{
  IngestResult, has_event_id, same_external, same_place, event_clash, is_job_of,
}
use code_sementic_memory.Ingest.Frame.{TaskSame, SessionGrows, SessionGrows-trans, Owned, Joined}
use code_sementic_memory.Ingest.Accept.{Accepted, known, stored, advance_session-Kept}
use code_sementic_memory.Ingest.Outcomes.{ingest-Outcome}

-- No two events share an id, an external identity or a place in a session.
abbrev pub Apart : List EventRow → Type 0
Apart [] = Unit
Apart (r ∷ rs) = All (λ s. event_clash s.event r ≡ false) rs × Apart rs

-- An event has a job in the outbox.
abbrev pub Queued : EventEnvelope → Outbox → Type 0
Queued e t = (j : OutboxJob) × (find_where (is_job_of e.event_id) t ≡ some j)

pub record EventOk (db : Db) (r : EventRow) : Type 0 where
  pub owned : Owned r.event db.tasks
  pub joined : Joined r.event db.sessions
  pub queued : Queued r.event db.outbox
  pub bounded : All (λ a. a.content ≡ none) r.event.artifacts

pub record IsValid (db : Db) : Type 0 where
  pub apart : Apart db.events
  pub events : All (EventOk db) db.events

Apart-append :
    (rs : List EventRow) (r : EventRow)
    → All (λ s. event_clash r.event s ≡ false) rs
    → Apart rs
    → Apart (rs ++ r ∷ [])
Apart-append [] r h a = (tt, tt)
Apart-append (s ∷ rs) r h a = (
  All-append (λ z. event_clash z.event s ≡ false) rs (r ∷ []) a.0 (h.0, tt),
  Apart-append rs r h.1 a.1,
)

Owned-Kept :
    (e : EventEnvelope) (ts ts' : List Task)
    → Kept has_task TaskSame ts ts'
    → Owned e ts
    → Owned e ts'
Owned-Kept e ts ts' k (t, f, p) = let (t', f', same) = k e.task_id t f in (t', f', same ∙ p)

same_owner-grows :
    (e : EventEnvelope) (s s' : Session)
    → SessionGrows s s'
    → same_owner e s ≡ true
    → same_owner e s' ≡ true
unfolding same_owner
same_owner-grows e s s' g h = rw (g.task, g.agent, g.adapter) h

Joined-Kept :
    (e : EventEnvelope) (ss ss' : List Session)
    → Kept has_session SessionGrows ss ss'
    → Joined e ss
    → Joined e ss'
Joined-Kept e ss ss' k j id q n =
    let (s, f, own, seq) = j id q n in
    let (s', f', g) = k id s f in (s', f', same_owner-grows e s s' g own, omega (arith, seq, g.seq))

Queued-append : (e : EventEnvelope) (t ys : Outbox) → Queued e t → Queued e (t ++ ys)
Queued-append e t ys (j, f) = (j, find_where-extend (is_job_of e.event_id) t ys j f)

new_job-Queued :
    (e : EventEnvelope) (now : ℕ) (job_id : String) (t : Outbox)
    → Queued e (t ++ event_job job_id (payload_of e) now ∷ [])
unfolding is_job_of event_job find_where
new_job-Queued e now job_id t = elim (Option-cases (find_where (is_job_of e.event_id) t)) [
  | inl f ↦ (
    event_job job_id (payload_of e) now,
    rw (find_where-append (is_job_of e.event_id) t (event_job job_id (payload_of e) now ∷ []) f)
        (rw (eq_refl e.event_id) refl),
  )
  | inr (j, f) ↦ (j, find_where-extend (is_job_of e.event_id) t _ j f)
]

-- The references of the event row do not matter to its identity, its task or its session.
row_clash :
    (c : Codec) (e : EventEnvelope) (now : ℕ) (refs : List ArtifactRef) (s : EventRow)
    → event_clash (event_row c e now refs).event s ≡ event_clash e s
unfolding event_clash event_row has_event_id same_external same_place
row_clash c e now refs s = refl

row_owner :
    (c : Codec) (e : EventEnvelope) (now : ℕ) (refs : List ArtifactRef) (s : Session)
    → same_owner (event_row c e now refs).event s ≡ same_owner e s
unfolding same_owner event_row
row_owner c e now refs s = refl

row_Joined :
    (c : Codec) (e : EventEnvelope) (now : ℕ) (refs : List ArtifactRef) (ss : List Session)
    → Joined e ss
    → Joined (event_row c e now refs).event ss
unfolding event_row
row_Joined c e now refs ss j id q n =
    let (s, f, own, seq) = j id q n in (s, f, row_owner c e now refs s ∙ own, seq)

module _ (c : Codec) (e : EventEnvelope) (now : ℕ) (job_id : String) (db db' : Db)
    (a : Accepted c e now job_id db db') where
  sessions-Kept : Kept has_session SessionGrows db.sessions db'.sessions
  sessions-Kept =
      Kept-trans has_session SessionGrows SessionGrows-trans db.sessions a.entities.sessions
        db'.sessions a.entities_ok.sessions
        (rw a.sessions (advance_session-Kept e e.session_id a.entities.sessions))

  old-EventOk : (r : EventRow) → EventOk db r → EventOk db' r
  old-EventOk r v = record {
    owned = rw a.tasks (Owned-Kept r.event db.tasks a.entities.tasks a.entities_ok.tasks v.owned);
    joined = Joined-Kept r.event db.sessions db'.sessions sessions-Kept v.joined;
    queued = rw a.outbox (Queued-append r.event db.outbox _ v.queued);
    bounded = v.bounded;
  }

  new-EventOk : EventOk db' (event_row c e now a.ensured.stored_refs)
  new-EventOk = record {
    owned = rw a.tasks (unfold event_row in a.entities_ok.owned);
    joined = row_Joined c e now a.ensured.stored_refs db'.sessions (
        Joined-Kept e a.entities.sessions db'.sessions
          (rw a.sessions (advance_session-Kept e e.session_id a.entities.sessions))
          a.entities_ok.joined);
    queued = rw a.outbox (unfold event_row in new_job-Queued e now job_id db.outbox);
    bounded = unfold event_row in a.artifacts_ok.bounded;
  }

  accepted-IsValid : IsValid db → IsValid db'
  accepted-IsValid v = record {
    apart = rw a.events (
        Apart-append db.events (event_row c e now a.ensured.stored_refs)
          (All-imp db.events (λ s n. row_clash c e now a.ensured.stored_refs s ∙ n)
            (find_where-none (event_clash e) db.events a.no_clash))
          v.apart);
    events =
        subst (λ t. All (EventOk db') t) (sym a.events)
          (All-append (EventOk db') db.events (event_row c e now a.ensured.stored_refs ∷ [])
            (All-imp db.events old-EventOk v.events) (new-EventOk, tt));
  }

pub ingest_step-IsValid :
    (c : Codec) (m : ℕ) (e : EventEnvelope) (now : ℕ) (job_id : String) (db db' : Db)
    (r : IngestResult)
    → ingest c m e now job_id db ≡ ok (r, db')
    → IsValid db
    → IsValid db'
ingest_step-IsValid c m e now job_id db db' r h v =
    elim (ingest-Outcome c e now job_id db r db' m h) [
      | known row f same q unchanged ↦ rw unchanged v
      | stored a q ↦ accepted-IsValid c e now job_id db db' a v
    ]

pub batch-IsValid :
    (c : Codec) (m : ℕ) (es : List (EventEnvelope × ℕ × String)) (db db' : Db)
    (rs : List IngestResult)
    → ingest_many c m es db ≡ ok (rs, db')
    → IsValid db
    → IsValid db'
unfolding ingest_many
batch-IsValid c m [] db db' rs h v = let q : db ≡ db' = ground arith in rw (← q) v
batch-IsValid c m ((e, now, job_id) ∷ es) db db' rs h v =
    let ((r, db1), h0, h1) = bind-ok (ingest c m e now job_id db) _ (rs, db') h in
    let ((rest, db2), h2, h3) = bind-ok (ingest_many c m es db1) _ (rs, db') h1 in
    let q : db2 ≡ db' = ground arith in
    rw (← q)
      (batch-IsValid c m es db1 db2 rest h2 (ingest_step-IsValid c m e now job_id db db1 r h0 v))

abbrev pub after : Result IngestError (IngestResult × Db) → Db → Db
after (ok (r, db')) db = db'
after (err e) db = db

-- Calls of `ingest`, each in its transaction; one that raises leaves the tables as they were.
unfoldable pub ingest_each : Codec → ℕ → List (EventEnvelope × ℕ × String) → Db → Db
ingest_each c m [] db = db
ingest_each c m ((e, now, job_id) ∷ es) db =
    ingest_each c m es (after (ingest c m e now job_id db) db)

after-IsValid :
    (c : Codec) (m : ℕ) (e : EventEnvelope) (now : ℕ) (job_id : String) (db : Db)
    (x : Result IngestError (IngestResult × Db))
    → ingest c m e now job_id db ≡ x
    → IsValid db
    → IsValid (after x db)
after-IsValid c m e now job_id db (ok (r, db')) h v =
    ingest_step-IsValid c m e now job_id db db' r h v
after-IsValid c m e now job_id db (err x) h v = v

-- Any calls of `ingest` on valid tables, some of which may raise, leave valid tables: no two events
-- share an id, an external identity or a place in a session; every event's task is there and belongs
-- to the event's project; its session, where it names one, has the event's task and producer and a
-- `last_seq` that is no smaller; it has a job in the outbox; and its row holds no artifact content.
pub ingest_each-IsValid :
    (c : Codec) (m : ℕ) (es : List (EventEnvelope × ℕ × String)) (db : Db)
    → IsValid db
    → IsValid (ingest_each c m es db)
unfolding ingest_each
ingest_each-IsValid c m [] db v = v
ingest_each-IsValid c m ((e, now, job_id) ∷ es) db v =
    ingest_each-IsValid c m es _ (after-IsValid c m e now job_id db _ refl v)

pub empty-IsValid : IsValid empty_db
empty-IsValid = record { apart = tt; events = tt }
