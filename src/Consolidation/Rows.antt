-- ===== src/Consolidation/Rows.antt =====
-- Candidates, items and results of src/codememory/consolidation/models.py, and the state that the service
-- reads and writes: the card tables, the lifecycle events, the events that evidence refers to.
use code_sementic_memory.Common.{ℕ, String, Option, List, Fields}
use code_sementic_memory.Cards.Status.{CardStatus, LifecycleEvent}
use code_sementic_memory.Cards.Rows.{BindingInput, CardDb, VersionId}

-- A relation hint that is an object, with its fields as they are stored
pub record Hint : Type 0 where
  pub target_id : Option String
  pub target_type : Option String
  pub relation : Option String
  pub fields : Fields

-- `none` among the hints is one that is not an object.
pub record Candidate : Type 0 where
  pub candidate_id : String
  pub project_id : String
  pub task_id : String
  pub kind : String
  pub statement : String
  pub aliases : List String
  pub bindings : List BindingInput
  pub evidence_event_ids : List String
  pub confidence : ℕ
  pub uncertainty : String
  pub relation_hints : List (Option Hint)
  pub created_at : ℕ

pub record EventRow : Type 0 where
  pub event_id : String
  pub project_id : String
  pub task_id : String

pub record ConsolidationDb : Type 0 where
  pub tables : CardDb
  pub lifecycle : List LifecycleEvent
  pub events : List EventRow

pub data Action : Type 0 where
  create merge new_version reject uncertain_match skip : Action

pub record Item : Type 0 where
  pub candidate_id : String
  pub action : Action
  pub card_id : Option String
  pub version : Option VersionId
  pub status : Option CardStatus
  pub score : Option ℕ
  pub reason : String

pub record Summary : Type 0 where
  pub candidate_count : ℕ
  pub processed : ℕ
  pub created : ℕ
  pub merged : ℕ
  pub new_versions : ℕ
  pub uncertain : ℕ
  pub skipped : ℕ
  pub rejected : ℕ
  pub items : List Item

-- The decision of the quality gate on a candidate
pub data Verdict : Type 0 where
  accepted review quarantine : Verdict

pub record Review : Type 0 where
  pub decision : Verdict
  pub score : ℕ
  pub reasons : List String
  pub as_fields : Fields

-- `ValueError` and `IntegrityError`, by their causes
pub data ConsolidationError : Type 0 where
  no_evidence : ConsolidationError
  missing_events : ConsolidationError
  foreign_events : ConsolidationError
  store_error : ConsolidationError

-- The texts that an action is stored under
abbrev pub action_text : Action → String
action_text create = "create"
action_text merge = "merge"
action_text new_version = "new_version"
action_text reject = "reject"
action_text uncertain_match = "uncertain"
action_text skip = "skip"
