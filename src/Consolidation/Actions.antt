-- ===== src/Consolidation/Actions.antt =====
-- The parts of src/codememory/consolidation/service.py that need no policy: the evidence check, the rows of a
-- merge and of a demotion, and the item for a candidate that is decided already.
use code_sementic_memory.Common.{
  ℕ, max, String, Bool, true, false, ◌&&◌, not, Option, none, some, List, [], ◌∷◌, ◌++◌, ◌==◌,
  if◌then◌else◌, is_some, elem, filter_where, find_where, update_where, Result, ok, err, end, field,
  string,
}
use code_sementic_memory.Cards.Status.{
  CardStatus, Card, LifecycleEvent, has_card, set_status, stable, verified, uncertain,
}
use code_sementic_memory.Cards.Rows.{
  Binding, BindingInput, CardCodec, Decision, StoreError, VersionId,
}
use code_sementic_memory.Cards.Versions.{Observation}
use code_sementic_memory.Consolidation.Rows.{
  Action, Candidate, ConsolidationDb, ConsolidationError, EventRow, Item, foreign_events,
  missing_events, no_evidence, skip, store_error,
}
use code_sementic_memory.Consolidation.Scores.{is_empty}

unfoldable pub nonempty : List String → List String
nonempty xs = filter_where (λ x. not (x == "")) xs

unfoldable pub has_event : String → EventRow → Bool
has_event id e = e.event_id == id

unfoldable pub is_foreign : Candidate → List String → EventRow → Bool
is_foreign d ids e =
    elem e.event_id ids && not (e.project_id == d.project_id && e.task_id == d.task_id)

-- `_validate_candidate_evidence`
unfoldable pub validate_evidence :
    Candidate → List EventRow → Result ConsolidationError (List String)
unfolding nonempty has_event is_foreign
validate_evidence d events =
    let ids = nonempty d.evidence_event_ids in
    if is_empty ids
    then err no_evidence
    else if is_some (find_where (λ id. not (is_some (find_where (has_event id) events))) ids)
    then err missing_events
    else if is_some (find_where (is_foreign d ids) events)
    then err foreign_events
    else ok ids

unfoldable pub has_decision : String → Decision → Bool
has_decision key d = d.decision_key == key

abbrev pub status_of : List Card → String → Option CardStatus
status_of cards id = elim (find_where (has_card id) cards) [
  | none ↦ none
  | some card ↦ some card.status
]

abbrev pub opt_status : List Card → Option String → Option CardStatus
opt_status cards none = none
opt_status cards (some id) = status_of cards id

-- The item for a candidate that is decided already
unfoldable pub skipped_item : List Card → Candidate → Decision → String → Item
skipped_item cards d previous reason = record {
  candidate_id = d.candidate_id;
  action = skip;
  card_id = previous.card_id;
  version = previous.version;
  status = opt_status cards previous.card_id;
  score = previous.score;
  reason = reason;
}

-- The binding of a current version, as `_merge_or_version` reads it
unfoldable pub read_binding : Binding → BindingInput
read_binding b = record {
  path = b.path;
  symbol = b.symbol;
  qualified_symbol = b.qualified_symbol;
  role = some b.role;
  status = none;
  evidence = b.evidence;
  evidence_event_ids = [];
  snapshot_id = b.snapshot_id;
  metadata = end;
}

unfoldable pub observation : Candidate → List String → List BindingInput → ℕ → String → Observation
observation d aliases bindings confidence reason = record {
  statement = d.statement;
  aliases = aliases;
  confidence = confidence;
  uncertainty = d.uncertainty;
  candidate_id = d.candidate_id;
  evidence_event_ids = d.evidence_event_ids;
  bindings = bindings;
  reason = reason;
}

-- MAX(confidence, ?) and the time of a merge
unfoldable pub merged_card : ℕ → ℕ → Card → Card
merged_card now confidence card = record card {
  confidence = max card.confidence confidence;
  updated_at = now;
}

-- The lifecycle event of a demotion by the consolidator
unfoldable pub demotion : ℕ → String → Card → String → VersionId → CardCodec → LifecycleEvent
demotion now uuid card candidate_id v c = record {
  lifecycle_event_id = uuid;
  card_id = card.card_id;
  from_status = card.status;
  to_status = uncertain;
  actor = "consolidator";
  reason = "material observation requires re-verification";
  metadata =
      field "new_version_id" (string (c.version_text v))
        (field "candidate_id" (string candidate_id) end);
  created_at = now;
}

abbrev pub is_trusted : CardStatus → Bool
is_trusted verified = true
is_trusted stable = true
is_trusted _ = false

-- The demotion of a trusted card after a new version
unfoldable pub demote :
    ℕ → String → Card → String → VersionId → CardCodec → ConsolidationDb → ConsolidationDb
demote now uuid card candidate_id v c db =
    if is_trusted card.status
    then record db {
      tables = record db.tables {
        cards = update_where (has_card card.card_id) (set_status now uncertain) db.tables.cards;
      };
      lifecycle = db.lifecycle ++ demotion now uuid card candidate_id v c ∷ [];
    }
    else db

-- A store's error, as the service raises it
abbrev pub raised {ℓ} : {A : Type ℓ} → Result StoreError A → Result ConsolidationError A
raised (ok a) = ok a
raised (err e) = err store_error

-- A version, an action and a reason with the state after the call
abbrev pub Merged : Type 0
Merged = VersionId × Action × String × ConsolidationDb
