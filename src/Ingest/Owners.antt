-- ===== src/Ingest/Owners.antt =====
-- What `_ensure_entities` promises of the tasks and sessions.
use mathlib.Core.Option.{some-injective}
use code_sementic_memory.Common.{
  ◌≡◌, refl, sym, ◌∙◌, String, true, false, Option, none, some, List, [], ◌∷◌, ◌++◌, ◌==◌, arith,
  Bool-cases, inl, inr, ok, Kept, Kept-refl, Kept-append, Kept-update, find_where-append,
  find_where-holds, find_where-update_where, upsert, upsert_found, upserted, find_where-upsert,
  update_where, ==-eq, eq_refl, ◌≤◌, bind-ok, find_where,
}
use code_sementic_memory.Ingest.Event.{EventEnvelope}
use code_sementic_memory.Ingest.Artifacts.{Codec}
use code_sementic_memory.Ingest.Entities.{
  write_task, ensure_task, write_session, ensure_session_named, ensure_session, ensure_entities,
  touch_task, new_task, touched_task, new_session, touched_session, same_owner,
}
use code_sementic_memory.Ingest.Rows.{Db, Task, Session, has_task, has_session}
use code_sementic_memory.Ingest.Frame.{
  SameLog, SameLog-refl, SameLog-trans, ensure_repository-SameLog, TaskSame, SessionGrows,
  SessionGrows-refl, Owned, Joined, has_session-eq, has_task-eq, touched-SessionGrows,
}

-- What a step of `_ensure_entities` on the sessions promises
pub record SessionsOk (e : EventEnvelope) (db db' : Db) : Type 0 where
  pub log : SameLog db db'
  pub tasks : db'.tasks ≡ db.tasks
  pub kept : Kept has_session SessionGrows db.sessions db'.sessions

-- The session with this id is the event's.
abbrev pub Serves : EventEnvelope → String → List Session → Type 0
Serves e id ss =
    (s : Session) × (find_where (has_session id) ss ≡ some s)
    × (same_owner e s ≡ true)
    × (e.seq ≤ s.last_seq)

new_session-Serves :
    (e : EventEnvelope) (id : String) (ss : List Session)
    → find_where (has_session id) ss ≡ none
    → Serves e id (ss ++ new_session e id ∷ [])
unfolding find_where has_session new_session same_owner
new_session-Serves e id ss f = (
  new_session e id,
  rw (find_where-append (has_session id) ss (new_session e id ∷ []) f) (rw (eq_refl id) refl),
  rw (eq_refl e.task_id, eq_refl e.producer.agent_id, eq_refl e.producer.adapter),
  omega arith,
)

touched_session-Serves :
    (e : EventEnvelope) (id : String) (ss : List Session) (s : Session)
    → find_where (has_session id) ss ≡ some s
    → same_owner e s ≡ true
    → Serves e id (update_where (has_session id) (touched_session e) ss)
unfolding touched_session
touched_session-Serves e id ss s f h = (
  touched_session e s,
  find_where-update_where (has_session id) (has_session id) (touched_session e) ss
        (λ x. touched_has e id x)
      ∙ rw f (rw (find_where-holds (has_session id) ss s f) refl),
  (touched-SessionGrows e s h).1,
  omega arith,
)
  where
    touched_has :
        (e : EventEnvelope) (id : String) (x : Session)
        → has_session id (touched_session e x) ≡ has_session id x
    touched_has e id x = unfold has_session in refl

write_session-ok :
    (e : EventEnvelope) (id : String) (o : Option Session) (db db' : Db)
    → find_where (has_session id) db.sessions ≡ o
    → write_session e id o db ≡ ok db'
    → SessionsOk e db db' × Serves e id db'.sessions
unfolding write_session
write_session-ok e id none db db' f h =
    let q : db'.sessions ≡ db.sessions ++ new_session e id ∷ [] = ground arith in
    rw q (
      record {
        log = ground arith;
        tasks = ground arith;
        kept = Kept-append has_session SessionGrows SessionGrows-refl db.sessions _;
      },
      new_session-Serves e id db.sessions f,
    )
write_session-ok e id (some s) db db' f h = elim (Bool-cases (same_owner e s)) [
  | inl own ↦
      let q : db'.sessions ≡ update_where (has_session id) (touched_session e) db.sessions =
        ground arith in
      rw q (
        record {
          log = ground arith;
          tasks = ground arith;
          kept =
              Kept-update has_session SessionGrows (touched_session e) id s db.sessions
                SessionGrows-refl (λ k x. unfold has_session touched_session in refl)
                (λ k x a b. has_session-eq id k x a b) f (touched-SessionGrows e s own).0;
        },
        touched_session-Serves e id db.sessions s f own,
      )
  | inr other ↦ ground arith
]

ensure_session-ok :
    (e : EventEnvelope) (db db' : Db)
    → ensure_session e e.session_id db ≡ ok db'
    → SessionsOk e db db' × Joined e db'.sessions
ensure_session-ok e db db' h = named e.session_id h
  where
    unchanged : db ≡ db' → SessionsOk e db db'
    unchanged q = rw (← q) (record {
      log = SameLog-refl db;
      tasks = refl;
      kept = Kept-refl has_session SessionGrows SessionGrows-refl db.sessions;
    })

    named :
        (o : Option String)
        → ensure_session e o db ≡ ok db'
        → SessionsOk e db db'
          × ((id : String) → o ≡ some id → (id == "") ≡ false → Serves e id db'.sessions)
    named none k = (unchanged (unfold ensure_session in ground arith), λ id q n. ground arith)
    named (some i) k = elim (Bool-cases (i == "")) [
      | inl t ↦ (unchanged (unfold ensure_session in ground arith), λ id q n. ground arith)
      | inr t ↦
          let (w, s) =
            write_session-ok e i _ db db' refl
              (unfold ensure_session ensure_session_named in rw t at k) in
          (w, λ id q n. let same : i ≡ id = some-injective _ _ q in rw (← same) s)
    ]

new_task-Owned :
    (c : Codec) (e : EventEnvelope) (ts : List Task)
    → find_where (has_task e.task_id) ts ≡ none
    → Owned e (touch_task c e ts)
unfolding touch_task has_task new_task touched_task upserted
new_task-Owned c e ts f = (
  new_task c e,
  find_where-upsert (has_task e.task_id) (touched_task c e) (new_task c e) ts (eq_refl e.task_id)
        (λ x. refl)
      ∙ rw f refl,
  refl,
)

touched_task-Owned :
    (c : Codec) (e : EventEnvelope) (ts : List Task) (t : Task)
    → find_where (has_task e.task_id) ts ≡ some t
    → Owned e (touch_task c e ts)
unfolding touch_task has_task new_task touched_task upserted
touched_task-Owned c e ts t f = (
  touched_task c e t,
  find_where-upsert (has_task e.task_id) (touched_task c e) (new_task c e) ts (eq_refl e.task_id)
        (λ x. refl)
      ∙ rw f refl,
  refl,
)

touch_task-Kept :
    (c : Codec) (e : EventEnvelope) (ts : List Task) (o : Option Task)
    → find_where (has_task e.task_id) ts ≡ o
    → ((t : Task) → o ≡ some t → t.project_id ≡ e.project_id)
    → Kept has_task TaskSame ts (touch_task c e ts)
unfolding touch_task upsert upsert_found
touch_task-Kept c e ts none f own = rw f (Kept-append has_task TaskSame (λ t. refl) ts _)
touch_task-Kept c e ts (some t) f own = rw f (
    Kept-update has_task TaskSame (touched_task c e) e.task_id t ts (λ t. refl)
      (λ k x. unfold has_task touched_task in refl) (λ k x a b. has_task-eq e.task_id k x a b) f
      (unfold touched_task in sym (own t refl)))

-- What the step on the task promises
pub record TasksOk (e : EventEnvelope) (db db' : Db) : Type 0 where
  pub log : SameLog db db'
  pub kept : Kept has_task TaskSame db.tasks db'.tasks
  pub owned : Owned e db'.tasks
  pub sessions : db'.sessions ≡ db.sessions

write_task-ok :
    (c : Codec) (e : EventEnvelope) (o : Option Task) (db : Db)
    → find_where (has_task e.task_id) db.tasks ≡ o
    → ((t : Task) → o ≡ some t → t.project_id ≡ e.project_id)
    → TasksOk e db (write_task c e db)
unfolding write_task
write_task-ok c e o db f own = record {
  log = record { events = refl; outbox = refl };
  kept = touch_task-Kept c e db.tasks o f own;
  owned = owned_by o f;
  sessions = refl;
}
  where
    owned_by :
        (o : Option Task)
        → find_where (has_task e.task_id) db.tasks ≡ o
        → Owned e (touch_task c e db.tasks)
    owned_by none g = new_task-Owned c e db.tasks g
    owned_by (some t) g = touched_task-Owned c e db.tasks t g

ensure_task-ok :
    (c : Codec) (e : EventEnvelope) (o : Option Task) (db db' : Db)
    → find_where (has_task e.task_id) db.tasks ≡ o
    → ensure_task c e o db ≡ ok db'
    → TasksOk e db db'
unfolding ensure_task
ensure_task-ok c e none db db' f h =
    let q : write_task c e db ≡ db' = ground arith in
    rw (← q) (write_task-ok c e none db f (λ t r. ground arith))
ensure_task-ok c e (some t) db db' f h = elim (Bool-cases (t.project_id == e.project_id)) [
  | inl own ↦
      let q : write_task c e db ≡ db' = ground arith in
      rw (← q) (
        write_task-ok c e (some t) db f
          (λ u r. let same : t ≡ u = some-injective _ _ r in rw (← same) (==-eq _ _ own)))
  | inr other ↦ ground arith
]

-- What `_ensure_entities` promises
pub record EntitiesOk (e : EventEnvelope) (db db' : Db) : Type 0 where
  pub log : SameLog db db'
  pub tasks : Kept has_task TaskSame db.tasks db'.tasks
  pub sessions : Kept has_session SessionGrows db.sessions db'.sessions
  pub owned : Owned e db'.tasks
  pub joined : Joined e db'.sessions

pub ensure_entities-ok :
    (c : Codec) (e : EventEnvelope) (db db' : Db)
    → ensure_entities c e db ≡ ok db'
    → EntitiesOk e db db'
unfolding ensure_entities
ensure_entities-ok c e db db' h =
    let (db2, h2, h3) = bind-ok _ _ db' h in
    let (db1, h0, h1) = bind-ok _ _ db2 h2 in
    let t = ensure_task-ok c e _ db db1 refl h0 in
    let (log, same_tasks, same_sessions) = ensure_repository-SameLog e _ db1 db2 h1 in
    let (s, joined) = ensure_session-ok e db2 db' h3 in
    record {
      log = SameLog-trans db db1 db' t.log (SameLog-trans db1 db2 db' log s.log);
      tasks = rw (s.tasks, same_tasks) t.kept;
      sessions = rw (sym t.sessions ∙ sym same_sessions) s.kept;
      owned = rw (s.tasks, same_tasks) t.owned;
      joined = joined;
    }
