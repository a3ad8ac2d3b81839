-- ===== src/Consolidation/Tests.antt =====
-- The consolidation of concrete candidates, and the theorems at them.
use code_sementic_memory.Common.{
  ◌+◌, ◌*◌, ◌-◌, ◌≡◌, refl, String, none, some, List, [], ◌∷◌, ◌==◌, end, Result, ok, err,
  find_where, count_where, elem, join, filter_where, update_where, if◌then◌else◌,
}
use code_sementic_memory.Cards.Status.{
  proposed, Card, CardStatus, Lifecycle, Move, has_card, parse_status,
}
use code_sementic_memory.Cards.Rows.{CardCodec}
use code_sementic_memory.Consolidation.Rows.{
  Candidate, ConsolidationDb, ConsolidationError, Item, Review, Summary, accepted, quarantine, skip,
}
use code_sementic_memory.Consolidation.Scores.{Policy}
use code_sementic_memory.Consolidation.Runs.{
  Selection, consolidate, list_candidates, count_candidates,
}
use code_sementic_memory.Consolidation.Decide.{consolidate_one}
use code_sementic_memory.Consolidation.Steps.{Keeps}
use code_sementic_memory.Consolidation.Integrity.{consolidate-Keeps}
use code_sementic_memory.Consolidation.Counts.{Tallied, consolidate_counts}
use code_sementic_memory.Consolidation.Again.{consolidate_again}
use code_sementic_memory.Consolidation.Runs.{
  consolidate_each, after_step, consolidate_step, consolidated, quarantined,
}
use code_sementic_memory.Consolidation.Decide.{
  consolidate_found, record_quarantined, quarantine_found, decide, decide_new, decide_match, joined,
}
use code_sementic_memory.Consolidation.Actions.{
  validate_evidence, has_decision, merged_card, skipped_item, read_binding, observation, nonempty,
  has_event, is_foreign,
}
use code_sementic_memory.Consolidation.Service.{
  create_card, after_insert, merge_or_version, merge_evidence, merge_update, is_material, conclude,
  record_hints, decision, new_card, match_metadata, match_fields,
}
use code_sementic_memory.Consolidation.Matches.{
  find_matches, candidate_rows, join_version, is_eligible, narrowed, matching, match_of,
  is_ambiguous, is_targeted, version_targets, row_score, blended, minimum, capped, match_before,
}
use code_sementic_memory.Consolidation.Scores.{
  similarity, tokens, similarity_of, norm_text, binding_targets, unique, common, binding_overlap,
  spaced, canonical_key, sorted, insert_sorted,
}
use code_sementic_memory.Cards.Rows.{
  has_version, same_version, same_identity, same_evidence, same_link, same_target,
}
use code_sementic_memory.Cards.Tables.{
  insert_unless, add_evidence, evidence_loop, event_keys, write_link, insert_or_ignore,
  add_bindings, unique_strings, clamp,
}
use code_sementic_memory.Cards.Versions.{
  insert_card, insert_named, insert_version, attach, record_decision, card_row, version_row,
}

abbrev codec : CardCodec
codec = record {
  strip = λ s. s;
  fold = λ s. s;
  short_id = λ p parts. elim parts [ [] ↦ p | x ∷ xs ↦ x ];
  version_text = λ v. v.card_id;
  one = 1000;
}

-- Words are whole texts here, a product is that of thousandths, and the literals are 620, 720, and so on.
abbrev policy : Policy
policy = record {
  casefold = λ s. s;
  strip = λ s. s;
  strip_prefix = λ s. s;
  squeeze = λ s. s;
  words = λ s. s ∷ [];
  key_digest = λ kind text targets. text;
  decision_key = λ d. d.candidate_id;
  new_card_id = λ project kind key. key;
  ratio = λ a b. a * 1000;
  add = λ a b. a + b;
  mul = λ a b. a;
  sub = λ a b. a - b;
  literal = λ s.
      if s == "0.72" then 720 else if s == "0.62" then 620 else if s == "0.56" then 560 else 300;
  score_text = λ n. "0.5";
}

abbrev candidate : String → String → Candidate
candidate id statement = record {
  candidate_id = id;
  project_id = "p";
  task_id = "t";
  kind = "decision";
  statement = statement;
  aliases = [];
  bindings = [];
  evidence_event_ids = "e1" ∷ [];
  confidence = 600;
  uncertainty = "low";
  relation_hints = [];
  created_at = 1;
}

abbrev empty_db : ConsolidationDb
empty_db = record {
  tables = record {
    cards = [];
    versions = [];
    evidence = [];
    links = [];
    bindings = [];
    decisions = [];
  };
  lifecycle = [];
  events = record { event_id = "e1"; project_id = "p"; task_id = "t" } ∷ [];
}

abbrev reviewed : Candidate → Review
reviewed d = record {
  decision = if d.candidate_id == "c3" then quarantine else accepted;
  score = 500;
  reasons = [];
  as_fields = end;
}

abbrev everything : Selection
everything = record { project_id = some "p"; task_id = none; candidate_ids = []; limit = 50 }

abbrev candidates : List Candidate
candidates =
    candidate "c1" "use a parser"
    ∷ candidate "c2" "use a parser"
    ∷ candidate "c3" "something else"
    ∷ []

abbrev outcome : Result ConsolidationError Summary × ConsolidationDb
outcome = consolidate policy codec reviewed (λ d. 5) (λ d. "u") everything candidates empty_db

abbrev summary_of : Result ConsolidationError Summary → Summary
summary_of (ok s) = s
summary_of (err e) = record {
  candidate_count = 0;
  processed = 0;
  created = 0;
  merged = 0;
  new_versions = 0;
  uncertain = 0;
  skipped = 0;
  rejected = 0;
  items = [];
}

finishes : outcome.0 ≡ ok (summary_of outcome.0)
unfolding consolidate consolidate_each list_candidates after_step consolidate_step consolidated
    quarantined consolidate_one consolidate_found record_quarantined quarantine_found
    validate_evidence has_decision decide decide_new decide_match create_card after_insert
    insert_card insert_named insert_unless insert_version attach merge_or_version merge_evidence
    merge_update is_material add_evidence evidence_loop event_keys write_link insert_or_ignore
    add_bindings find_where update_where filter_where count_where elem find_matches candidate_rows
    join_version is_eligible narrowed matching match_of conclude record_decision record_hints
    decision has_version same_version same_identity same_evidence same_link same_target has_card
    merged_card parse_status skipped_item similarity tokens similarity_of norm_text binding_targets
    unique common is_ambiguous is_targeted version_targets binding_overlap spaced canonical_key join
    new_card card_row version_row unique_strings clamp read_binding observation row_score blended
    minimum capped sorted insert_sorted match_before match_metadata match_fields nonempty has_event
    is_foreign joined
finishes = refl

-- One card is created, one candidate merged, one rejected.
created_merged_rejected :
    ((summary_of outcome.0).created ≡ 1)
    × ((summary_of outcome.0).merged ≡ 1)
    × ((summary_of outcome.0).rejected ≡ 1)
unfolding consolidate consolidate_each list_candidates after_step consolidate_step consolidated
    quarantined consolidate_one consolidate_found record_quarantined quarantine_found
    validate_evidence has_decision decide decide_new decide_match create_card after_insert
    insert_card insert_named insert_unless insert_version attach merge_or_version merge_evidence
    merge_update is_material add_evidence evidence_loop event_keys write_link insert_or_ignore
    add_bindings find_where update_where filter_where count_where elem find_matches candidate_rows
    join_version is_eligible narrowed matching match_of conclude record_decision record_hints
    decision has_version same_version same_identity same_evidence same_link same_target has_card
    merged_card parse_status skipped_item similarity tokens similarity_of norm_text binding_targets
    unique common is_ambiguous is_targeted version_targets binding_overlap spaced canonical_key join
    new_card card_row version_row unique_strings clamp read_binding observation row_score blended
    minimum capped sorted insert_sorted match_before match_metadata match_fields nonempty has_event
    is_foreign joined
created_merged_rejected = (refl, refl, refl)

consolidate-Keeps_example : Keeps empty_db outcome.1
consolidate-Keeps_example =
    consolidate-Keeps policy codec reviewed (λ d. 5) (λ d. "u") everything candidates empty_db
      (record { chained = (tt, tt); keys = tt })

consolidate_counts_example :
    Tallied (summary_of outcome.0).candidate_count (summary_of outcome.0)
    × ((summary_of outcome.0).candidate_count
        ≡ count_candidates (list_candidates everything candidates))
consolidate_counts_example =
    consolidate_counts policy codec reviewed (λ d. 5) (λ d. "u") everything candidates empty_db
      (summary_of outcome.0) finishes

abbrev first_item : Result ConsolidationError (Item × ConsolidationDb) → Item
first_item (ok r) = r.0
first_item (err e) = record {
  candidate_id = "";
  action = skip;
  card_id = none;
  version = none;
  status = none;
  score = none;
  reason = "";
}

abbrev first_db : Result ConsolidationError (Item × ConsolidationDb) → ConsolidationDb
first_db (ok r) = r.1
first_db (err e) = empty_db

abbrev first : Result ConsolidationError (Item × ConsolidationDb)
first = consolidate_one policy codec 5 "u" (candidate "c1" "use a parser") empty_db

first_ok : first ≡ ok (first_item first, first_db first)
unfolding consolidate consolidate_each list_candidates after_step consolidate_step consolidated
    quarantined consolidate_one consolidate_found record_quarantined quarantine_found
    validate_evidence has_decision decide decide_new decide_match create_card after_insert
    insert_card insert_named insert_unless insert_version attach merge_or_version merge_evidence
    merge_update is_material add_evidence evidence_loop event_keys write_link insert_or_ignore
    add_bindings find_where update_where filter_where count_where elem find_matches candidate_rows
    join_version is_eligible narrowed matching match_of conclude record_decision record_hints
    decision has_version same_version same_identity same_evidence same_link same_target has_card
    merged_card parse_status skipped_item similarity tokens similarity_of norm_text binding_targets
    unique common is_ambiguous is_targeted version_targets binding_overlap spaced canonical_key join
    new_card card_row version_row unique_strings clamp read_binding observation row_score blended
    minimum capped sorted insert_sorted match_before match_metadata match_fields nonempty has_event
    is_foreign joined
first_ok = refl

consolidate_again_example :
    (item : Item) × (consolidate_one policy codec 9 "v"
        (candidate "c1" "use a parser")
        (first_db first)
      ≡ ok (item, first_db first))
    × (item.action ≡ skip)
    × (item.card_id ≡ (first_item first).card_id)
    × (item.version ≡ (first_item first).version)
    × (item.score ≡ (first_item first).score)
consolidate_again_example =
    consolidate_again policy codec 5 "u" (candidate "c1" "use a parser") (λ k l h. h) 9 "v" empty_db
      (first_db first) (first_item first) first_ok tt

abbrev card : CardStatus → Card
card status = record {
  card_id = "card-1";
  project_id = "p";
  task_id = none;
  kind = "decision";
  canonical_key = "k";
  status = status;
  confidence = 500;
  current_version = 1;
  valid_from = none;
  valid_until = none;
  created_at = 1;
  updated_at = 1;
}

abbrev promotion : Move
promotion = record {
  card_id = "card-1";
  to_status = "";
  reason = "reviewed";
  actor = "operator";
  metadata = end;
  now = 9;
  event_id = "u";
}

abbrev proposed_db : Lifecycle
proposed_db = record { cards = card proposed ∷ []; events = [] }
