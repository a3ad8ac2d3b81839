-- ===== src/Ingest/Batch.antt =====
-- What a batch adds to the event log and to the outbox.
use code_sementic_memory.Common.{
  ℕ, suc, ◌+◌, ◌≡◌, refl, sym, ap, ◌∙◌, String, Bool, true, false, List, [], ◌∷◌, ◌++◌, map, arith,
  if◌then◌else◌, length, length-append, ok, bind-ok,
}
use code_sementic_memory.Outbox.{OutboxJob, event_job}
use code_sementic_memory.Ingest.Event.{EventEnvelope}
use code_sementic_memory.Ingest.Artifacts.{Codec}
use code_sementic_memory.Ingest.Rows.{Db, EventRow}
use code_sementic_memory.Ingest.Store.{payload_of, event_row, ingest, ingest_many}
use code_sementic_memory.Ingest.Identity.{IngestResult, IngestStatus, accepted, duplicate}
use code_sementic_memory.Ingest.Accept.{known, stored}
use code_sementic_memory.Ingest.Outcomes.{ingest-Outcome}

abbrev pub is_accepted : IngestStatus → Bool
is_accepted accepted = true
is_accepted duplicate = false

unfoldable pub count_accepted : List IngestResult → ℕ
count_accepted [] = 0
count_accepted (r ∷ rs) = (if is_accepted r.status then 1 else 0) + count_accepted rs

-- An addition of `n` events, each with its job, behind what was there
pub record Adds (n : ℕ) (db db' : Db) : Type 0 where
  pub new_events : List EventRow
  pub new_jobs : List OutboxJob
  pub events : db'.events ≡ db.events ++ new_events
  pub outbox : db'.outbox ≡ db.outbox ++ new_jobs
  pub event_count : length new_events ≡ n
  pub jobs_match : map (λ j. j.dedupe_key) new_jobs ≡ map (λ r. r.event.event_id) new_events

++-[] : {A : Type 0} → (xs : List A) → xs ≡ xs ++ []
++-[] [] = refl
++-[] (x ∷ xs) = ap (λ t. x ∷ t) (++-[] xs)

++-++ : {A : Type 0} → (xs ys zs : List A) → (xs ++ ys) ++ zs ≡ xs ++ (ys ++ zs)
++-++ [] ys zs = refl
++-++ (x ∷ xs) ys zs = ap (λ t. x ∷ t) (++-++ xs ys zs)

map-++ : {A B : Type 0} → (f : A → B) (xs ys : List A) → map f (xs ++ ys) ≡ map f xs ++ map f ys
map-++ f [] ys = refl
map-++ f (x ∷ xs) ys = ap (λ t. f x ∷ t) (map-++ f xs ys)

Adds-none : (db : Db) → Adds 0 db db
Adds-none db = record {
  new_events = [];
  new_jobs = [];
  events = ++-[] db.events;
  outbox = ++-[] db.outbox;
  event_count = refl;
  jobs_match = refl;
}

Adds-trans : (m n : ℕ) (a b d : Db) → Adds m a b → Adds n b d → Adds (m + n) a d
Adds-trans m n a b d s t = record {
  new_events = s.new_events ++ t.new_events;
  new_jobs = s.new_jobs ++ t.new_jobs;
  events =
      t.events ∙ ap (λ z. z ++ t.new_events) s.events ∙ ++-++ a.events s.new_events t.new_events;
  outbox = t.outbox ∙ ap (λ z. z ++ t.new_jobs) s.outbox ∙ ++-++ a.outbox s.new_jobs t.new_jobs;
  event_count = length-append s.new_events t.new_events ∙ rw (s.event_count, t.event_count) refl;
  jobs_match =
      map-++ _ s.new_jobs t.new_jobs
      ∙ rw (s.jobs_match, t.jobs_match) refl
      ∙ sym (map-++ _ s.new_events t.new_events);
}

ingest-Adds :
    (c : Codec) (m : ℕ) (e : EventEnvelope) (now : ℕ) (job_id : String) (db db' : Db)
    (r : IngestResult)
    → ingest c m e now job_id db ≡ ok (r, db')
    → Adds (if is_accepted r.status then 1 else 0) db db'
unfolding event_row event_job
ingest-Adds c m e now job_id db db' r h = elim (ingest-Outcome c e now job_id db r db' m h) [
  | known row f same q unchanged ↦ rw (q, unchanged) (Adds-none db)
  | stored a q ↦ rw q (record {
    new_events = event_row c e now a.ensured.stored_refs ∷ [];
    new_jobs = event_job job_id (payload_of e) now ∷ [];
    events = a.events;
    outbox = a.outbox;
    event_count = refl;
    jobs_match = refl;
  })
]

-- A batch that does not raise answers every event, and appends to the event log and to the outbox
-- exactly one event and one job, under that event's id, for each answer that says accepted; nothing
-- that was in either table before changes.
pub batch-Adds :
    (c : Codec) (m : ℕ) (es : List (EventEnvelope × ℕ × String)) (db db' : Db)
    (rs : List IngestResult)
    → ingest_many c m es db ≡ ok (rs, db')
    → (length rs ≡ length es) × Adds (count_accepted rs) db db'
unfolding ingest_many count_accepted
batch-Adds c m [] db db' rs h =
    let q : db ≡ db' = ground arith in
    let n : [] ≡ rs = ground arith in rw (← q, ← n) (refl, Adds-none db)
batch-Adds c m ((e, now, job_id) ∷ es) db db' rs h =
    let ((r, db1), h0, h1) = bind-ok (ingest c m e now job_id db) _ (rs, db') h in
    let ((rest, db2), h2, h3) = bind-ok (ingest_many c m es db1) _ (rs, db') h1 in
    let (answered, added) = batch-Adds c m es db1 db2 rest h2 in
    let q : db2 ≡ db' = ground arith in
    let n : r ∷ rest ≡ rs = ground arith in
    rw (← q, ← n)
      (ap suc answered, Adds-trans _ _ db db1 db2 (ingest-Adds c m e now job_id db db1 r h0) added)
