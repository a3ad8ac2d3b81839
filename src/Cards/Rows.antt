-- ===== src/Cards/Rows.antt =====
-- The rows of migrations/0005_memory_cards.sql, their keys, and the inputs of the store.
use code_sementic_memory.Common.{
  ℕ, String, Bool, false, ◌&&◌, ◌||◌, Option, List, [], ◌∷◌, ◌==◌, eqb, Fields,
}
use code_sementic_memory.Cards.Status.{Card}

pub record VersionId : Type 0 where
  pub card_id : String
  pub version_no : ℕ

pub record CardVersion : Type 0 where
  pub id : VersionId
  pub statement : String
  pub aliases : List String
  pub confidence : ℕ
  pub uncertainty : String
  pub source_candidate_ids : List String
  pub valid_from : Option ℕ
  pub valid_until : Option ℕ
  pub supersedes : Option VersionId
  pub change_reason : String
  pub created_at : ℕ

pub record Evidence : Type 0 where
  pub version : VersionId
  pub candidate_id : String
  pub event_id : String
  pub relation_type : String
  pub ordinal : ℕ

pub data Target : Type 0 where
  version_target : VersionId → Target
  named_target : String → String → Target

pub record Link : Type 0 where
  pub version : VersionId
  pub target : Target
  pub relation_type : String
  pub metadata : Fields
  pub created_at : ℕ

pub record Binding : Type 0 where
  pub binding_id : String
  pub version : VersionId
  pub role : String
  pub path : Option String
  pub symbol : Option String
  pub qualified_symbol : Option String
  pub normalized_target : String
  pub status : String
  pub snapshot_id : Option String
  pub evidence : List String
  pub metadata : Fields
  pub created_at : ℕ
  pub updated_at : ℕ

pub record Decision : Type 0 where
  pub decision_id : String
  pub decision_key : String
  pub project_id : String
  pub task_id : String
  pub candidate_id : String
  pub action : String
  pub card_id : Option String
  pub version : Option VersionId
  pub score : Option ℕ
  pub reason : String
  pub metadata : Fields
  pub created_at : ℕ

pub record CardDb : Type 0 where
  pub cards : List Card
  pub versions : List CardVersion
  pub evidence : List Evidence
  pub links : List Link
  pub bindings : List Binding
  pub decisions : List Decision

pub data StoreError : Type 0 where
  unsupported_kind : StoreError
  unsupported_status : StoreError
  unsupported_target : StoreError
  integrity_error : StoreError

-- `str.strip`, the folding of a path, `_short_id`, the text of a version id, and the number for 1.0
pub record CardCodec : Type 0 where
  pub strip : String → String
  pub fold : String → String
  pub short_id : String → List String → String
  pub version_text : VersionId → String
  pub one : ℕ

abbrev pub card_kinds : List String
card_kinds =
    "route_observation" ∷ "decision" ∷ "convention" ∷ "failure" ∷ "validation" ∷ "preference"
    ∷ "anti_binding" ∷ []

abbrev pub binding_statuses : List String
binding_statuses = "unverified" ∷ "verified" ∷ "stale" ∷ "missing" ∷ "renamed" ∷ "rejected" ∷ []

abbrev pub target_types : List String
target_types = "card" ∷ "card_version" ∷ "candidate" ∷ "event" ∷ "file" ∷ "symbol" ∷ "task" ∷ []

unfoldable pub same_version : VersionId → VersionId → Bool
same_version v w = v.card_id == w.card_id && eqb v.version_no w.version_no

unfoldable pub has_version : VersionId → CardVersion → Bool
has_version v x = same_version x.id v

unfoldable pub same_target : Target → Target → Bool
same_target (version_target v) (version_target w) = same_version v w
same_target (named_target k i) (named_target l j) = k == l && i == j
same_target _ _ = false

unfoldable pub same_link : Link → Link → Bool
same_link l k =
    same_version k.version l.version
    && (same_target k.target l.target && k.relation_type == l.relation_type)

unfoldable pub same_evidence : Evidence → Evidence → Bool
same_evidence e d =
    same_version d.version e.version
    && (d.candidate_id == e.candidate_id && d.event_id == e.event_id)

-- A binding as a candidate gives it
pub record BindingInput : Type 0 where
  pub path : Option String
  pub symbol : Option String
  pub qualified_symbol : Option String
  pub role : Option String
  pub status : Option String
  pub evidence : List String
  pub evidence_event_ids : List String
  pub snapshot_id : Option String
  pub metadata : Fields

unfoldable pub same_binding : Binding → Binding → Bool
same_binding b d =
    d.binding_id == b.binding_id
    || (same_version d.version b.version
        && (d.role == b.role && d.normalized_target == b.normalized_target))

unfoldable pub same_identity : Card → Card → Bool
same_identity c d =
    d.card_id == c.card_id
    || (d.project_id == c.project_id && (d.kind == c.kind && d.canonical_key == c.canonical_key))
