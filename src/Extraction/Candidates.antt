-- ===== src/Extraction/Candidates.antt =====
-- The candidate rows of `record_success` and `_available_candidate_id` in src/codememory/extraction/store.py. The
-- search projection is not part of the state. The event ids of a candidate are distinct, so the rows of its
-- evidence do not clash. The errors of foreign and primary keys are left out: `_validate_batch` comes first, and
-- lets no event in that is not in the context.
use code_sementic_memory.Common.{
  ℕ, zero, suc, String, Bool, false, ◌&&◌, ◌||◌, not, Option, none, some, List, [], ◌∷◌, ◌++◌, ◌==◌,
  if◌then◌else◌, elem, length, clip, join, map, filter_where, find_where, is_some, truthy, Fields,
  end,
}
use code_sementic_memory.Cards.Tables.{insert_or_ignore}
use code_sementic_memory.Consolidation.Rows.{Hint}
use code_sementic_memory.Extraction.Batch.{Batch, BatchBinding, BatchCandidate}
use code_sementic_memory.Extraction.Runs.{Run, finish_run}

pub record CandidateRow : Type 0 where
  pub candidate_id : String
  pub run_id : String
  pub project_id : String
  pub task_id : String
  pub session_id : Option String
  pub content : BatchCandidate
  pub created_at : ℕ

pub record CandidateEvidence : Type 0 where
  pub candidate_id : String
  pub event_id : String
  pub ordinal : ℕ

pub record CandidateLink : Type 0 where
  pub candidate_id : String
  pub target_type : String
  pub target_id : String
  pub relation_type : String
  pub metadata : Fields

-- `cited` are the candidates that card evidence and consolidation decisions refer to.
pub record CandidateDb : Type 0 where
  pub candidates : List CandidateRow
  pub evidence : List CandidateEvidence
  pub links : List CandidateLink
  pub cited : List String
  pub runs : List Run

unfoldable pub has_candidate : String → CandidateRow → Bool
has_candidate id r = r.candidate_id == id

unfoldable pub of_run : String → CandidateRow → Bool
of_run run_id r = r.run_id == run_id

-- Any of the ids is cited.
unfoldable pub any_cited : List String → List String → Bool
any_cited cited [] = false
any_cited cited (id ∷ ids) = elem id cited || any_cited cited ids

unfoldable pub prior_ids : String → List CandidateRow → List String
prior_ids run_id rows = map (λ r. r.candidate_id) (filter_where (of_run run_id) rows)

-- The DELETE of the rows of a run, with those that refer to them
unfoldable pub delete_run : String → CandidateDb → CandidateDb
delete_run run_id db =
    let ids = prior_ids run_id db.candidates in
    record db {
      candidates = filter_where (λ r. not (of_run run_id r)) db.candidates;
      evidence = filter_where (λ e. not (elem e.candidate_id ids)) db.evidence;
      links = filter_where (λ l. not (elem l.candidate_id ids)) db.links;
    }

unfoldable pub same_link : CandidateLink → CandidateLink → Bool
same_link l k =
    k.candidate_id == l.candidate_id
    && (k.target_type == l.target_type
        && (k.target_id == l.target_id && k.relation_type == l.relation_type))

-- INSERT OR IGNORE INTO memory_candidate_links
unfoldable pub add_link : String → String → String → String → Fields → CandidateDb → CandidateDb
add_link id target_type target_id relation metadata db =
    let l : CandidateLink = record {
      candidate_id = id;
      target_type = target_type;
      target_id = target_id;
      relation_type = relation;
      metadata = metadata;
    } in
    record db { links = insert_or_ignore (same_link l) l db.links }

-- The loop over the evidence, from the event numbered `ordinal`
unfoldable pub add_evidence : String → ℕ → List String → CandidateDb → CandidateDb
add_evidence id ordinal [] db = db
add_evidence id ordinal (x ∷ xs) db = add_evidence id (suc ordinal) xs (
    add_link id "event" x "supports" end (record db {
      evidence = db.evidence ++ record { candidate_id = id; event_id = x; ordinal = ordinal } ∷ [];
    }))

abbrev pub text_or_empty : Option String → String
text_or_empty none = ""
text_or_empty (some s) = s

-- `binding.qualified_symbol or binding.symbol`
abbrev pub symbol_name : BatchBinding → String
symbol_name b =
    if truthy b.qualified_symbol then text_or_empty b.qualified_symbol else text_or_empty b.symbol

unfoldable pub add_binding_links : String → List BatchBinding → CandidateDb → CandidateDb
add_binding_links id [] db = db
add_binding_links id (b ∷ bs) db =
    let with_path =
      if truthy b.path then add_link id "file" (text_or_empty b.path) b.role end db else db in
    let with_symbol =
      if truthy b.symbol || truthy b.qualified_symbol
      then add_link id "symbol" (symbol_name b) b.role end with_path
      else with_path in
    add_binding_links id bs with_symbol

abbrev pub hint_targets : List String
hint_targets = "event" ∷ "candidate" ∷ "task" ∷ "file" ∷ "symbol" ∷ []

-- `hint.get(name, default)`
abbrev pub or_given : Option String → String → String
or_given none d = d
or_given (some s) d = s

unfoldable pub add_hints : String → List Hint → CandidateDb → CandidateDb
add_hints id [] db = db
add_hints id (h ∷ hs) db =
    let target_type = or_given h.target_type "candidate" in
    let linked =
      if truthy h.target_id && elem target_type hint_targets
      then add_link id target_type (text_or_empty h.target_id) (or_given h.relation "related_to")
          h.fields db
      else db in
    add_hints id hs linked

abbrev pub when_named :
    Option String
    → (String → Option (List String × CandidateDb))
    → Option (List String × CandidateDb)
when_named none next = none
when_named (some id) next = next id

abbrev pub when_stored :
    Option (List String × CandidateDb)
    → (List String → CandidateDb → CandidateDb)
    → Option (List String × CandidateDb)
when_stored none next = none
when_stored (some (stored, db)) next = some (stored, next stored db)

module _ (decimal : ℕ → String) where
  -- The id that the loop of `_available_candidate_id` tries after a number of attempts
  unfoldable pub candidate_name : String → String → ℕ → String
  candidate_name base suffix zero = base
  candidate_name base suffix (suc zero) = join base (join "-" suffix)
  candidate_name base suffix (suc (suc n)) =
      join base (join "-" (join suffix (join "-" (decimal (suc (suc n))))))

  -- `while conn.execute(...).fetchone()`, with fuel; `none` means that the fuel ran out.
  unfoldable pub search_name : ℕ → ℕ → String → String → List CandidateRow → Option String
  search_name zero attempt base suffix rows = none
  search_name (suc fuel) attempt base suffix rows =
      let rest = search_name fuel (suc attempt) base suffix rows in
      if is_some (find_where (has_candidate (candidate_name base suffix attempt)) rows)
      then rest
      else some (candidate_name base suffix attempt)

  -- `_available_candidate_id`; one more try than there are rows is enough.
  unfoldable pub available_candidate_id : String → String → List CandidateRow → Option String
  available_candidate_id base run_id rows =
      search_name (suc (length rows)) 0 base (clip 8 run_id) rows

  unfoldable pub candidate_row : ℕ → String → Batch → String → BatchCandidate → CandidateRow
  candidate_row now run_id b id c = record {
    candidate_id = id;
    run_id = run_id;
    project_id = b.project_id;
    task_id = b.task_id;
    session_id = b.session_id;
    content = c;
    created_at = now;
  }

  -- The link to the generation that a forced retry leaves in place
  unfoldable pub add_supersedes : Bool → List String → String → String → CandidateDb → CandidateDb
  add_supersedes protected prior base id db =
      if protected && elem base prior then add_link id "candidate" base "supersedes" end db else db

  unfoldable pub insert_candidate :
      ℕ → String → Batch → Bool → List String → BatchCandidate → String → CandidateDb → CandidateDb
  insert_candidate now run_id b protected prior c id db = add_hints id c.relation_hints (
      add_binding_links id c.bindings (
        add_evidence id 0 c.evidence_event_ids (
          add_supersedes protected prior c.candidate_id id
            (record db { candidates = db.candidates ++ candidate_row now run_id b id c ∷ [] }))))

  -- The loop over the candidates, with the ids of those stored; `none` means that a search ran out of fuel.
  unfoldable pub insert_candidates :
      ℕ
      → String
      → Batch
      → Bool
      → List String
      → List BatchCandidate
      → List String
      → CandidateDb
      → Option (List String × CandidateDb)
  insert_candidates now run_id b protected prior [] stored db = some (stored, db)
  insert_candidates now run_id b protected prior (c ∷ cs) stored db =
      when_named (available_candidate_id c.candidate_id run_id db.candidates) (λ id.
        insert_candidates now run_id b protected prior cs (stored ++ id ∷ [])
          (insert_candidate now run_id b protected prior c id db))

  -- `record_success`; `result` is the text of the stored result, which holds the ids in use.
  unfoldable pub record_success :
      ℕ → String → Batch → (List String → String) → CandidateDb → Option (List String × CandidateDb)
  record_success now run_id b result db =
      let prior = prior_ids run_id db.candidates in
      let protected = any_cited db.cited prior in
      let start = if protected then db else delete_run run_id db in
      when_stored (insert_candidates now run_id b protected prior b.candidates [] start)
        (λ stored db'. record db' { runs = finish_run now run_id (result stored) db'.runs })
