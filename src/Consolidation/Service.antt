-- ===== src/Consolidation/Service.antt =====
-- `_create_card`, `_merge_or_version`, and `_record_hints` of src/codememory/consolidation/service.py. They run inside the transaction of a candidate.
use code_sementic_memory.Common.{
  ℕ, max, String, Bool, ◌&&◌, ◌||◌, not, Option, none, some, List, [], ◌∷◌, ◌++◌, map, ◌==◌,
  if◌then◌else◌, is_some, ltb, leb, elem, filter_where, find_where, update_where, Result, ok, err,
  ◌>>=◌, Fields, end, field, Json, string, array, number, object, Items, nil, cons,
}
use code_sementic_memory.Cards.Status.{CardStatus, Card, has_card}
use code_sementic_memory.Cards.Rows.{
  BindingInput, CardCodec, CardDb, Decision, Link, StoreError, VersionId, integrity_error,
  named_target, same_identity, same_version, target_types,
}
use code_sementic_memory.Cards.Tables.{add_evidence, or_default, unique_strings, write_link}
use code_sementic_memory.Cards.Versions.{
  NewCard, Observation, append_version, card_row, insert_card, record_decision,
}
use code_sementic_memory.Consolidation.Rows.{
  Action, Candidate, ConsolidationDb, ConsolidationError, Hint, Item, action_text, merge,
  new_version, store_error,
}
use code_sementic_memory.Consolidation.Scores.{
  Policy, binding_overlap, binding_targets, canonical_key, merge_bindings, similarity, spaced,
}
use code_sementic_memory.Consolidation.Matches.{CardRow, Match, both, current_id}
use code_sementic_memory.Consolidation.Actions.{
  Merged, demote, merged_card, observation, raised, read_binding, status_of,
}

abbrev pub scored : Option Match → Option ℕ
scored none = none
scored (some m) = some m.score

-- A card whose version clashed is inserted by the time of the error.
unfoldable pub cards_after_clash : Card → List Card → List Card
cards_after_clash row cards =
    if is_some (find_where (same_identity row) cards) then cards else cards ++ row ∷ []

unfoldable pub card_found :
    Option Card → List Card → CardDb → Result ConsolidationError (VersionId × CardDb)
card_found none cards db = err store_error
card_found (some card) cards db = ok (current_id card, record db { cards = cards })

module _ (p : Policy) where
  unfoldable pub match_fields : Match → Json
  match_fields m = object (
      field "card_id" (string m.row.card.card_id) (
        field "score" (number (p.score_text m.score)) (
          field "text_score" (number (p.score_text m.text_score))
            (field "binding_score" (number (p.score_text m.binding_score)) end))))

  -- `_match_metadata`
  unfoldable pub match_metadata : List Match → Items
  unfolding match_fields
  match_metadata [] = nil
  match_metadata (m ∷ ms) = cons (match_fields m) (match_metadata ms)

module _ (p : Policy) (now : ℕ) where
  unfoldable pub hint_link : VersionId → Hint → Link
  hint_link v h = record {
    version = v;
    target =
        named_target (p.strip (or_default h.target_type "candidate"))
          (p.strip (or_default h.target_id ""));
    relation_type = p.strip (or_default h.relation "related_to");
    metadata = h.fields;
    created_at = now;
  }

  unfoldable pub record_hint : VersionId → Option Hint → CardDb → CardDb
  unfolding hint_link
  record_hint v none db = db
  record_hint v (some h) db =
      if not (p.strip (or_default h.target_id "") == "")
        && elem (p.strip (or_default h.target_type "candidate")) target_types
      then write_link (hint_link v h) db
      else db

  -- `_record_hints`
  unfoldable pub record_hints : VersionId → List (Option Hint) → CardDb → CardDb
  unfolding record_hint
  record_hints v [] db = db
  record_hints v (h ∷ hs) db = record_hints v hs (record_hint v h db)

  unfoldable pub decision :
      Candidate → Action → Option String → Option VersionId → Option ℕ → String → Fields → Decision
  decision d action card_id v score reason metadata = record {
    decision_id = "";
    decision_key = p.decision_key d;
    project_id = d.project_id;
    task_id = d.task_id;
    candidate_id = d.candidate_id;
    action = action_text action;
    card_id = card_id;
    version = v;
    score = score;
    reason = reason;
    metadata = metadata;
    created_at = now;
  }

module _ (p : Policy) (c : CardCodec) where
  unfoldable pub new_card : Candidate → String → NewCard
  new_card d status = record {
    card_id = p.new_card_id d.project_id d.kind (canonical_key p c d);
    project_id = d.project_id;
    task_id = some d.task_id;
    kind = d.kind;
    canonical_key = canonical_key p c d;
    status = status;
    valid_from = none;
    valid_until = none;
  }

  unfoldable pub has_key_of : Candidate → Card → Bool
  has_key_of d card =
      card.project_id == d.project_id
      && (card.kind == d.kind && card.canonical_key == canonical_key p c d)

  unfoldable pub is_material : Candidate → CardRow → List BindingInput → Bool
  is_material d row bindings =
      let old_targets = binding_targets p c bindings in
      let new_targets = binding_targets p c d.bindings in
      ltb
        (similarity p c (spaced d.statement d.aliases)
          (spaced row.version.statement row.version.aliases))
        (p.literal "0.62")
      || (both p c old_targets new_targets
          && ltb (binding_overlap p c old_targets new_targets) (p.literal "0.35"))

module _ (c : CardCodec) (now : ℕ) where
  -- The UPDATE of a merge, under the CHECK on the confidence
  unfoldable pub merge_update : Card → ℕ → CardDb → Result ConsolidationError CardDb
  merge_update card confidence db =
      if leb (max card.confidence confidence) c.one
      then ok (record db {
        cards = update_where (has_card card.card_id) (merged_card now confidence) db.cards;
      })
      else err store_error

  unfoldable pub merge_evidence :
      Candidate → CardRow → ConsolidationDb → Result ConsolidationError Merged
  unfolding merge_update
  merge_evidence d row db =
      merge_update row.card d.confidence
        (add_evidence now row.version.id d.candidate_id d.evidence_event_ids "supports" db.tables)
      >>= λ tables. ok (
        row.version.id,
        merge,
        "merged additional evidence into the current card version",
        record db { tables = tables },
      )

module _ (p : Policy) (c : CardCodec) (now : ℕ) where
  -- The card that an IntegrityError points to
  unfoldable pub existing_card :
      Candidate → CardStatus → Observation → CardDb → Result ConsolidationError (VersionId × CardDb)
  existing_card d status o db =
      let cards = cards_after_clash (card_row c now (new_card p c d "") status o) db.cards in
      card_found (find_where (has_key_of p c d) cards) cards db

  -- `except sqlite3.IntegrityError`
  unfoldable pub after_insert :
      Candidate
      → CardStatus
      → Observation
      → CardDb
      → Result StoreError (VersionId × CardDb)
      → Result ConsolidationError (VersionId × CardDb)
  after_insert d status o db (ok r) = ok r
  after_insert d status o db (err integrity_error) = existing_card d status o db
  after_insert d status o db (err e) = err store_error

  -- `_create_card`
  unfoldable pub create_card :
      Candidate
      → CardStatus
      → String
      → String
      → CardDb
      → Result ConsolidationError (VersionId × CardDb)
  create_card d status status_name reason db =
      let o = observation d d.aliases d.bindings d.confidence reason in
      after_insert d status o db (insert_card c now (new_card p c d status_name) o db)

  -- `record_hints` and `record_decision`, then the item with the card's status
  unfoldable pub conclude :
      Candidate
      → Action
      → String
      → VersionId
      → Option ℕ
      → String
      → String
      → List Match
      → ConsolidationDb
      → Item × ConsolidationDb
  unfolding decision
  conclude d action card_id v score stored reason matches db =
      let tables =
        (record_decision c
          (decision p now d action (some card_id) (some v) score stored
            (field "matches" (array (match_metadata p matches)) end))
          (record_hints p now v d.relation_hints db.tables)).1 in
      (
        record {
          candidate_id = d.candidate_id;
          action = action;
          card_id = some card_id;
          version = some v;
          status = status_of tables.cards card_id;
          score = score;
          reason = reason;
        },
        record db { tables = tables },
      )

module _ (p : Policy) (c : CardCodec) (now : ℕ) (uuid : String) where
  unfoldable pub add_version :
      Candidate → CardRow → List BindingInput → ConsolidationDb → Result ConsolidationError Merged
  add_version d row current db =
      raised (
        append_version c now row.card row.version
          (observation d (unique_strings c [] (row.version.aliases ++ d.aliases))
            (merge_bindings p c [] (current ++ d.bindings)) (max row.card.confidence d.confidence)
            "new observation materially changed the statement or code binding")
          db.tables)
      >>= λ r. ok (
        r.0,
        new_version,
        "created a new version and linked it with supersedes",
        demote now uuid row.card d.candidate_id r.0 c (record db { tables = r.1 }),
      )

  -- `_merge_or_version`
  unfoldable pub merge_or_version :
      Candidate → CardRow → ConsolidationDb → Result ConsolidationError Merged
  merge_or_version d row db =
      let current =
        map read_binding
          (filter_where (λ b. same_version b.version row.version.id) db.tables.bindings) in
      if is_material p c d row current
      then add_version d row current db
      else merge_evidence c now d row db
