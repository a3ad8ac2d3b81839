-- ===== src/Ingest/Event.antt =====
-- The envelope of src/codememory/domain/events.py, with its checks and its canonical JSON.
-- A timestamp is a number on one clock; the model of pydantic's parsing starts after types are right.
use code_sementic_memory.Common.{
  ℕ, String, Bool, true, false, not, ◌&&◌, ◌||◌, Option, none, some, List, [], ◌∷◌, opt_eq, truthy,
  Json, null, boolean, number, string, array, object, Items, nil, cons, Fields, end, field,
}

pub data EventType : Type 0 where
  session_started user_message assistant_message tool_call tool_result file_read file_edit
        command_run :
      EventType
  validation_run vcs_change user_feedback session_ended : EventType

pub data EventSource : Type 0 where
  agent api hook replay unknown : EventSource

pub data EventCompleteness : Type 0 where
  full partial summary : EventCompleteness

pub record Producer : Type 0 where
  pub agent_id : String
  pub adapter : String
  pub adapter_version : String

-- `extra` holds the fields that the models with extra="allow" keep.
pub record EventContext : Type 0 where
  pub repo_id : Option String
  pub root_path : Option String
  pub branch : Option String
  pub commit_id : Option String
  pub p4_changelist : Option String
  pub cwd : Option String
  pub extra : Fields

pub data ContentEncoding : Type 0 where
  utf_8 base64 : ContentEncoding

pub record ArtifactRef : Type 0 where
  pub kind : String
  pub uri : Option String
  pub path : Option String
  pub sha256 : Option String
  pub mime_type : Option String
  pub size_bytes : Option ℕ
  pub content : Option String
  pub content_encoding : ContentEncoding
  pub truncated : Bool
  pub metadata : Fields
  pub extra : Fields

pub record RedactionInfo : Type 0 where
  pub applied : Bool
  pub ruleset_version : String
  pub fields : List String
  pub extra : Fields

pub record EventEnvelope : Type 0 where
  pub event_id : String
  pub external_event_id : Option String
  pub event_type : EventType
  pub occurred_at : ℕ
  pub producer : Producer
  pub project_id : String
  pub task_id : String
  pub session_id : Option String
  pub seq : ℕ
  pub parent_event_id : Option String
  pub context : EventContext
  pub payload : Fields
  pub artifacts : List ArtifactRef
  pub redaction : RedactionInfo
  pub source : EventSource
  pub completeness : EventCompleteness

-- The values of the enums, as `.value` gives them
abbrev pub type_value : EventType → String
type_value session_started = "session_started"
type_value user_message = "user_message"
type_value assistant_message = "assistant_message"
type_value tool_call = "tool_call"
type_value tool_result = "tool_result"
type_value file_read = "file_read"
type_value file_edit = "file_edit"
type_value command_run = "command_run"
type_value validation_run = "validation_run"
type_value vcs_change = "vcs_change"
type_value user_feedback = "user_feedback"
type_value session_ended = "session_ended"

abbrev pub source_value : EventSource → String
source_value agent = "agent"
source_value api = "api"
source_value hook = "hook"
source_value replay = "replay"
source_value unknown = "unknown"

abbrev pub completeness_value : EventCompleteness → String
completeness_value full = "full"
completeness_value partial = "partial"
completeness_value summary = "summary"

abbrev pub encoding_value : ContentEncoding → String
encoding_value utf_8 = "utf-8"
encoding_value base64 = "base64"

abbrev pub is_session_start : EventType → Bool
is_session_start session_started = true
is_session_start _ = false

abbrev pub is_session_end : EventType → Bool
is_session_end session_ended = true
is_session_end _ = false

-- `validate_relationships`: what it lets through
unfoldable pub relationships_hold : EventEnvelope → Bool
relationships_hold e =
    not (opt_eq e.parent_event_id (some e.event_id))
    && not (
        (is_session_start e.event_type || is_session_end e.event_type) && not (truthy e.session_id))

abbrev pub opt_text : Option String → Json
opt_text none = null
opt_text (some s) = string s

abbrev texts : List String → Items
texts [] = nil
texts (s ∷ ss) = cons (string s) (texts ss)

module _ (isoformat number_text : ℕ → String) where
  abbrev opt_number : Option ℕ → Json
  opt_number none = null
  opt_number (some n) = number (number_text n)

  unfoldable pub context_json : EventContext → Json
  context_json c = object (
      field "repo_id" (opt_text c.repo_id) (
        field "root_path" (opt_text c.root_path) (
          field "branch" (opt_text c.branch) (
            field "commit_id" (opt_text c.commit_id) (
              field "p4_changelist" (opt_text c.p4_changelist)
                (field "cwd" (opt_text c.cwd) c.extra))))))

  unfoldable pub artifact_json : ArtifactRef → Json
  artifact_json a = object (
      field "kind" (string a.kind) (
        field "uri" (opt_text a.uri) (
          field "path" (opt_text a.path) (
            field "sha256" (opt_text a.sha256) (
              field "mime_type" (opt_text a.mime_type) (
                field "size_bytes" (opt_number a.size_bytes) (
                  field "content" (opt_text a.content) (
                    field "content_encoding" (string (encoding_value a.content_encoding)) (
                      field "truncated" (boolean a.truncated)
                        (field "metadata" (object a.metadata) a.extra))))))))))

  unfoldable pub artifacts_json : List ArtifactRef → Items
  unfolding artifact_json
  artifacts_json [] = nil
  artifacts_json (a ∷ rest) = cons (artifact_json a) (artifacts_json rest)

  unfoldable pub redaction_json : RedactionInfo → Json
  redaction_json r = object (
      field "applied" (boolean r.applied) (
        field "ruleset_version" (string r.ruleset_version)
          (field "fields" (array (texts r.fields)) r.extra)))

  unfoldable pub producer_json : Producer → Json
  producer_json p = object (
      field "agent_id" (string p.agent_id) (
        field "adapter" (string p.adapter)
          (field "adapter_version" (string p.adapter_version) end)))

  -- `canonical_dict`
  unfoldable pub canonical_dict : EventEnvelope → Json
  unfolding context_json artifacts_json redaction_json producer_json
  canonical_dict e = object (
      field "schema_version" (string "codememory.event.v1") (
        field "event_id" (string e.event_id) (
          field "external_event_id" (opt_text e.external_event_id) (
            field "event_type" (string (type_value e.event_type)) (
              field "occurred_at" (string (isoformat e.occurred_at)) (
                field "producer" (producer_json e.producer) (
                  field "project_id" (string e.project_id) (
                    field "task_id" (string e.task_id) (
                      field "session_id" (opt_text e.session_id) (
                        field "seq" (number (number_text e.seq)) (
                          field "parent_event_id" (opt_text e.parent_event_id) (
                            field "context" (context_json e.context) (
                              field "payload" (object e.payload) (
                                field "artifacts" (array (artifacts_json e.artifacts)) (
                                  field "redaction" (redaction_json e.redaction) (
                                    field "source" (string (source_value e.source)) (
                                      field "completeness"
                                        (string (completeness_value e.completeness))
                                        end)))))))))))))))))
