-- ===== src/Ingest/Rows.antt =====
-- The tables of migrations/0001_core.sql and 0002_event_artifact_links.sql, and the keys of their rows.
use code_sementic_memory.Common.{ℕ, String, Bool, Option, List, [], ◌==◌}
use code_sementic_memory.Outbox.{Outbox}
use code_sementic_memory.Ingest.Event.{EventEnvelope}
use code_sementic_memory.Ingest.Artifacts.{Prepared}

pub record Project : Type 0 where
  pub project_id : String
  pub name : String
  pub created_at : ℕ
  pub updated_at : ℕ

-- `status` is 'active' for every row that this code writes.
pub record Task : Type 0 where
  pub task_id : String
  pub project_id : String
  pub title : Option String
  pub created_at : ℕ
  pub updated_at : ℕ

pub record Repository : Type 0 where
  pub repo_id : String
  pub project_id : String
  pub root_path : String
  pub vcs_type : String
  pub created_at : ℕ
  pub updated_at : ℕ

pub data SessionStatus : Type 0 where
  active ended : SessionStatus

pub record Session : Type 0 where
  pub session_id : String
  pub task_id : String
  pub agent_id : String
  pub adapter : String
  pub started_at : ℕ
  pub ended_at : Option ℕ
  pub status : SessionStatus
  pub last_seq : ℕ

-- The envelope, with its artifacts as references
pub record EventRow : Type 0 where
  pub event : EventEnvelope
  pub ingested_at : ℕ
  pub event_hash : String

pub record ArtifactRow : Type 0 where
  pub prepared : Prepared
  pub created_at : ℕ

pub record SearchRow : Type 0 where
  pub event_id : String
  pub project_id : String
  pub task_id : String
  pub text : String

pub record EventArtifact : Type 0 where
  pub event_id : String
  pub artifact_id : String
  pub ordinal : ℕ

pub record Db : Type 0 where
  pub projects : List Project
  pub tasks : List Task
  pub repositories : List Repository
  pub sessions : List Session
  pub artifacts : List ArtifactRow
  pub events : List EventRow
  pub outbox : Outbox
  pub event_fts : List SearchRow
  pub event_artifacts : List EventArtifact

abbrev pub empty_db : Db
empty_db = record {
  projects = [];
  tasks = [];
  repositories = [];
  sessions = [];
  artifacts = [];
  events = [];
  outbox = [];
  event_fts = [];
  event_artifacts = [];
}

-- `conflict` carries `existing_event_id`; `integrity_error` is sqlite3's, which nothing catches there.
pub data IngestError : Type 0 where
  conflict : Option String → IngestError
  integrity_error : IngestError

unfoldable pub has_project : String → Project → Bool
has_project project_id p = p.project_id == project_id

unfoldable pub has_task : String → Task → Bool
has_task task_id t = t.task_id == task_id

unfoldable pub has_repo : String → Repository → Bool
has_repo repo_id r = r.repo_id == repo_id

unfoldable pub has_session : String → Session → Bool
has_session session_id s = s.session_id == session_id
