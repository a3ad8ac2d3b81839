-- ===== src/Ingest/Frame.antt =====
-- What the steps of an ingest leave as it is.
use code_sementic_memory.Common.{
  ◌≡◌, refl, sym, ◌∙◌, String, true, false, Option, none, some, List, ◌==◌, arith, ok, ==-eq,
  eq_refl, eq_iff, ◌≤◌, find_where,
}
use code_sementic_memory.Ingest.Event.{EventEnvelope}
use code_sementic_memory.Ingest.Entities.{
  insert_repository, write_repository, ensure_repository, touched_session, same_owner,
}
use code_sementic_memory.Ingest.Rows.{
  Db, Task, Session, Repository, has_task, has_repo, has_session,
}

-- The tables that the entities do not touch
pub record SameLog (db db' : Db) : Type 0 where
  pub events : db'.events ≡ db.events
  pub outbox : db'.outbox ≡ db.outbox

pub SameLog-refl : (db : Db) → SameLog db db
SameLog-refl db = record { events = refl; outbox = refl }

pub SameLog-trans : (a b d : Db) → SameLog a b → SameLog b d → SameLog a d
SameLog-trans a b d s t = record { events = t.events ∙ s.events; outbox = t.outbox ∙ s.outbox }

pub ensure_repository-SameLog :
    (e : EventEnvelope) (o : Option String) (db db' : Db)
    → ensure_repository e o db ≡ ok db'
    → SameLog db db' × (db'.tasks ≡ db.tasks) × (db'.sessions ≡ db.sessions)
unfolding ensure_repository
ensure_repository-SameLog e none db db' h = ground arith
ensure_repository-SameLog e (some id) db db' h =
    written (find_where (has_repo id) db.repositories) h
  where
    inserted :
        (o : Option Repository)
        → insert_repository e id o db ≡ ok db'
        → SameLog db db' × (db'.tasks ≡ db.tasks) × (db'.sessions ≡ db.sessions)
    inserted none k = unfold insert_repository in ground arith
    inserted (some r) k = unfold insert_repository in ground arith

    written :
        (o : Option Repository)
        → write_repository e id o db ≡ ok db'
        → SameLog db db' × (db'.tasks ≡ db.tasks) × (db'.sessions ≡ db.sessions)
    written none k = unfold write_repository in inserted _ k
    written (some r) k = unfold write_repository in ground arith

abbrev pub TaskSame : Task → Task → Type 0
TaskSame t t' = t'.project_id ≡ t.project_id

-- The owner of a session stays, and its last sequence number does not fall.
pub record SessionGrows (s s' : Session) : Type 0 where
  pub task : s'.task_id ≡ s.task_id
  pub agent : s'.agent_id ≡ s.agent_id
  pub adapter : s'.adapter ≡ s.adapter
  pub seq : s.last_seq ≤ s'.last_seq

pub SessionGrows-refl : (s : Session) → SessionGrows s s
SessionGrows-refl s = record { task = refl; agent = refl; adapter = refl; seq = omega arith }

pub SessionGrows-trans : (a b d : Session) → SessionGrows a b → SessionGrows b d → SessionGrows a d
SessionGrows-trans a b d s t = record {
  task = t.task ∙ s.task;
  agent = t.agent ∙ s.agent;
  adapter = t.adapter ∙ s.adapter;
  seq = omega (arith, s.seq, t.seq);
}

-- The task of the event belongs to its project.
abbrev pub Owned : EventEnvelope → List Task → Type 0
Owned e ts =
    (t : Task) × (find_where (has_task e.task_id) ts ≡ some t) × (t.project_id ≡ e.project_id)

-- The session of the event, where it names one, has its task and producer and has seen its number.
abbrev pub Joined : EventEnvelope → List Session → Type 0
Joined e ss =
    (id : String)
    → e.session_id ≡ some id
    → (id == "") ≡ false
    → (s : Session) × (find_where (has_session id) ss ≡ some s)
      × (same_owner e s ≡ true)
      × (e.seq ≤ s.last_seq)

pub has_session-eq :
    (i j : String) (s : Session) → has_session i s ≡ true → has_session j s ≡ true → j ≡ i
unfolding has_session
has_session-eq i j s h k = sym (==-eq _ _ k) ∙ ==-eq _ _ h

pub has_task-eq : (i j : String) (t : Task) → has_task i t ≡ true → has_task j t ≡ true → j ≡ i
unfolding has_task
has_task-eq i j t h k = sym (==-eq _ _ k) ∙ ==-eq _ _ h

pub touched-SessionGrows :
    (e : EventEnvelope) (s : Session)
    → same_owner e s ≡ true
    → SessionGrows s (touched_session e s) × (same_owner e (touched_session e s) ≡ true)
unfolding same_owner touched_session
touched-SessionGrows e s h = (
  ground (
    arith,
    eq_iff s.task_id e.task_id,
    eq_iff s.agent_id e.producer.agent_id,
    eq_iff s.adapter e.producer.adapter,
  ),
  rw (eq_refl e.task_id, eq_refl e.producer.agent_id, eq_refl e.producer.adapter),
)
