-- ===== src/Ingest/Entities.antt =====
-- The tables of migrations/0001_core.sql, and `_repo_id`, `_task_title` and `_ensure_entities` of
-- src/codememory/storage/repository.py.
use code_sementic_memory.Common.{
  max, String, Bool, ◌&&◌, Option, none, some, List, [], ◌∷◌, ◌++◌, ◌==◌, truthy, coalesce,
  if◌then◌else◌, clip, join, Json, string, Fields, Result, ok, err, ◌>>=◌, find_where, update_where,
  upsert,
}
use code_sementic_memory.Ingest.Event.{EventContext, EventEnvelope}
use code_sementic_memory.Ingest.Artifacts.{Codec, get_field, or_text}
use code_sementic_memory.Ingest.Rows.{
  Db, IngestError, Project, Repository, Session, Task, active, conflict, has_project, has_repo,
  has_session, has_task, integrity_error,
}

-- The upserts of the project and of the task
unfoldable pub touch_project : EventEnvelope → List Project → List Project
touch_project e t =
    upsert (has_project e.project_id)
      (λ p. record p { updated_at = max p.updated_at e.occurred_at })
      (record {
        project_id = e.project_id;
        name = e.project_id;
        created_at = e.occurred_at;
        updated_at = e.occurred_at;
      })
      t

-- `context.root_path or context.cwd or "unknown"`
unfoldable pub expected_root : EventContext → String
expected_root context = or_text context.root_path (or_text context.cwd "unknown")

unfoldable pub vcs_type : EventContext → String
vcs_type context =
    if truthy context.p4_changelist
    then "p4"
    else if truthy context.commit_id
    then "git"
    else "unknown"

unfoldable pub new_repository : EventEnvelope → String → Repository
new_repository e id = record {
  repo_id = id;
  project_id = e.project_id;
  root_path = expected_root e.context;
  vcs_type = vcs_type e.context;
  created_at = e.occurred_at;
  updated_at = e.occurred_at;
}

unfoldable pub touched_repository : EventEnvelope → Repository → Repository
touched_repository e r = record r {
  project_id = e.project_id;
  root_path = expected_root e.context;
  vcs_type = vcs_type e.context;
  updated_at = max r.updated_at e.occurred_at;
}

-- UNIQUE(project_id, root_path)
unfoldable pub same_root : EventEnvelope → Repository → Bool
same_root e r = r.project_id == e.project_id && r.root_path == expected_root e.context

unfoldable pub insert_repository :
    EventEnvelope → String → Option Repository → Db → Result IngestError Db
insert_repository e id (some r) db = err integrity_error
insert_repository e id none db =
    ok (record db { repositories = db.repositories ++ new_repository e id ∷ [] })

-- On the SELECT of the repository
unfoldable pub write_repository :
    EventEnvelope → String → Option Repository → Db → Result IngestError Db
write_repository e id none db = insert_repository e id (find_where (same_root e) db.repositories) db
write_repository e id (some r) db =
    if same_root e r
    then ok (record db {
      repositories = update_where (has_repo id) (touched_repository e) db.repositories;
    })
    else err (conflict (some id))

unfoldable pub ensure_repository : EventEnvelope → Option String → Db → Result IngestError Db
ensure_repository e none db = ok db
ensure_repository e (some id) db =
    write_repository e id (find_where (has_repo id) db.repositories) db

-- The task and the producer of the session are those of the event.
unfoldable pub same_owner : EventEnvelope → Session → Bool
same_owner e s =
    s.task_id == e.task_id && (s.agent_id == e.producer.agent_id && s.adapter == e.producer.adapter)

unfoldable pub new_session : EventEnvelope → String → Session
new_session e id = record {
  session_id = id;
  task_id = e.task_id;
  agent_id = e.producer.agent_id;
  adapter = e.producer.adapter;
  started_at = e.occurred_at;
  ended_at = none;
  status = active;
  last_seq = e.seq;
}

unfoldable pub touched_session : EventEnvelope → Session → Session
touched_session e s = record s {
  task_id = e.task_id;
  agent_id = e.producer.agent_id;
  adapter = e.producer.adapter;
  last_seq = max s.last_seq e.seq;
}

-- On the SELECT of the session
unfoldable pub write_session : EventEnvelope → String → Option Session → Db → Result IngestError Db
write_session e id none db = ok (record db { sessions = db.sessions ++ new_session e id ∷ [] })
write_session e id (some s) db =
    if same_owner e s
    then ok (record db { sessions = update_where (has_session id) (touched_session e) db.sessions })
    else err (conflict (some id))

unfoldable pub ensure_session_named : EventEnvelope → String → Db → Result IngestError Db
ensure_session_named e id db = write_session e id (find_where (has_session id) db.sessions) db

unfoldable pub ensure_session : EventEnvelope → Option String → Db → Result IngestError Db
ensure_session e none db = ok db
ensure_session e (some id) db = if id == "" then ok db else ensure_session_named e id db

module _ (c : Codec) where
  -- `_repo_id`
  unfoldable pub repo_id : EventEnvelope → Option String
  repo_id e =
      if truthy e.context.repo_id
      then e.context.repo_id
      else if truthy e.context.root_path
      then some (
          join "repo-" (
            clip 24 (
              c.sha256
                (c.encode (join e.project_id (join "\n" (or_text e.context.root_path "")))))))
      else none

  -- The first key of the list whose value is a text that is not blank
  unfoldable pub title_text : Option Json → Option String
  title_text (some (string s)) =
      if truthy (some (c.strip s)) then some (clip 500 (c.strip s)) else none
  title_text (some _) = none
  title_text none = none

  unfoldable pub first_title : List String → Fields → Option String
  first_title [] payload = none
  first_title (key ∷ keys) payload =
      coalesce (title_text (get_field key payload)) (first_title keys payload)

  unfoldable pub task_title : EventEnvelope → Option String
  task_title e = first_title ("title" ∷ "summary" ∷ "text" ∷ "message" ∷ []) e.payload

  unfoldable pub new_task : EventEnvelope → Task
  new_task e = record {
    task_id = e.task_id;
    project_id = e.project_id;
    title = task_title e;
    created_at = e.occurred_at;
    updated_at = e.occurred_at;
  }

  unfoldable pub touched_task : EventEnvelope → Task → Task
  touched_task e t = record t {
    project_id = e.project_id;
    title = coalesce t.title (task_title e);
    updated_at = max t.updated_at e.occurred_at;
  }

  unfoldable pub touch_task : EventEnvelope → List Task → List Task
  touch_task e t = upsert (has_task e.task_id) (touched_task e) (new_task e) t

  unfoldable pub write_task : EventEnvelope → Db → Db
  write_task e db = record db {
    projects = touch_project e db.projects;
    tasks = touch_task e db.tasks;
  }

  -- On the SELECT of the task
  unfoldable pub ensure_task : EventEnvelope → Option Task → Db → Result IngestError Db
  ensure_task e none db = ok (write_task e db)
  ensure_task e (some t) db =
      if t.project_id == e.project_id then ok (write_task e db) else err (conflict (some e.task_id))

  -- `_ensure_entities`
  unfoldable pub ensure_entities : EventEnvelope → Db → Result IngestError Db
  ensure_entities e db =
      ensure_task e (find_where (has_task e.task_id) db.tasks) db
      >>= ensure_repository e (repo_id e)
      >>= ensure_session e e.session_id
