-- ===== src/Extraction/Batch.antt =====
-- `_validate_batch` of src/codememory/extraction/service.py, on the batch of extraction/models.py.
use code_sementic_memory.Common.{
  ℕ, String, Bool, true, false, ◌&&◌, ◌||◌, not, Option, none, some, List, [], ◌∷◌, ◌==◌,
  if◌then◌else◌, elem, truthy,
}
use code_sementic_memory.Consolidation.Rows.{Hint}

pub record BatchBinding : Type 0 where
  pub role : String
  pub path : Option String
  pub symbol : Option String
  pub qualified_symbol : Option String
  pub snapshot_id : Option String
  pub evidence : List String

pub record BatchCandidate : Type 0 where
  pub candidate_id : String
  pub kind : String
  pub statement : String
  pub aliases : List String
  pub bindings : List BatchBinding
  pub evidence_event_ids : List String
  pub confidence : ℕ
  pub uncertainty : String
  pub lifecycle_hint : String
  pub relation_hints : List Hint

pub record Extractor : Type 0 where
  pub provider : String
  pub model : String
  pub prompt_version : String

pub record Batch : Type 0 where
  pub extraction_run_id : String
  pub project_id : String
  pub task_id : String
  pub session_id : Option String
  pub source_event_ids : List String
  pub extractor : Extractor
  pub candidates : List BatchCandidate

-- What the batch is checked against
pub record Context : Type 0 where
  pub extraction_run_id : String
  pub project_id : String
  pub task_id : String
  pub session_id : Option String
  pub event_ids : List String
  pub extractor : Extractor

pub data BatchError : Type 0 where
  wrong_run : BatchError
  wrong_task : BatchError
  wrong_session : BatchError
  wrong_extractor : BatchError
  no_sources : BatchError
  unknown_sources : BatchError
  duplicate_candidate : String → BatchError
  unknown_evidence : String → BatchError
  no_evidence : String → BatchError
  undeclared_evidence : String → BatchError
  binding_no_evidence : String → BatchError
  binding_foreign_evidence : String → BatchError
  binding_no_target : String → BatchError

-- `set(xs) - set(ys)` is empty.
unfoldable pub subset : List String → List String → Bool
subset [] ys = true
subset (x ∷ xs) ys = elem x ys && subset xs ys

abbrev pub is_empty_list : List String → Bool
is_empty_list [] = true
is_empty_list (x ∷ xs) = false

abbrev pub same_option : Option String → Option String → Bool
same_option none none = true
same_option (some a) (some b) = a == b
same_option _ _ = false

unfoldable pub same_extractor : Extractor → Extractor → Bool
same_extractor a b =
    a.provider == b.provider && (a.model == b.model && a.prompt_version == b.prompt_version)

unfoldable pub has_target : BatchBinding → Bool
has_target b = truthy b.path || (truthy b.symbol || truthy b.qualified_symbol)

-- One round of the loop over the bindings
unfoldable pub check_binding : String → List String → BatchBinding → Option BatchError
check_binding id events b =
    if is_empty_list b.evidence
    then some (binding_no_evidence id)
    else if not (subset b.evidence events)
    then some (binding_foreign_evidence id)
    else if not (has_target b)
    then some (binding_no_target id)
    else none

-- The first error of a check, else that of the rest
abbrev pub first_error : Option BatchError → Option BatchError → Option BatchError
first_error none rest = rest
first_error (some e) rest = some e

unfoldable pub check_bindings : String → List String → List BatchBinding → Option BatchError
check_bindings id events [] = none
check_bindings id events (b ∷ bs) =
    first_error (check_binding id events b) (check_bindings id events bs)

-- The checks of a candidate before its bindings, after the ids in `seen`
unfoldable pub check_candidate :
    List String → List String → List String → BatchCandidate → Option BatchError
check_candidate known sources seen c =
    if elem c.candidate_id seen
    then some (duplicate_candidate c.candidate_id)
    else if not (subset c.evidence_event_ids known)
    then some (unknown_evidence c.candidate_id)
    else if is_empty_list c.evidence_event_ids
    then some (no_evidence c.candidate_id)
    else if not (subset c.evidence_event_ids sources)
    then some (undeclared_evidence c.candidate_id)
    else none

unfoldable pub check_candidates :
    List String → List String → List String → List BatchCandidate → Option BatchError
check_candidates known sources seen [] = none
check_candidates known sources seen (c ∷ cs) = first_error (check_candidate known sources seen c) (
    first_error (check_bindings c.candidate_id c.evidence_event_ids c.bindings)
      (check_candidates known sources (c.candidate_id ∷ seen) cs))

-- The checks before the loop over the candidates
unfoldable pub check_header : Context → Batch → Option BatchError
check_header x b =
    if not (b.extraction_run_id == x.extraction_run_id)
    then some wrong_run
    else if not (b.project_id == x.project_id && b.task_id == x.task_id)
    then some wrong_task
    else if not (same_option b.session_id x.session_id)
    then some wrong_session
    else if not (same_extractor b.extractor x.extractor)
    then some wrong_extractor
    else if is_empty_list b.source_event_ids
    then some no_sources
    else if not (subset b.source_event_ids x.event_ids)
    then some unknown_sources
    else none

-- `_validate_batch`; `none` is a batch that passes.
unfoldable pub validate_batch : Context → Batch → Option BatchError
validate_batch x b =
    first_error (check_header x b) (check_candidates x.event_ids b.source_event_ids [] b.candidates)
