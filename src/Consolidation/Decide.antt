-- ===== src/Consolidation/Decide.antt =====
-- `_consolidate_one` and `_record_quarantined` of src/codememory/consolidation/service.py. Each is one
-- transaction.
use code_sementic_memory.Common.{
  ℕ, String, Option, none, some, List, [], ◌∷◌, if◌then◌else◌, take, find_where, Result, ok, ◌>>=◌,
  end, field, object, join,
}
use code_sementic_memory.Cards.Status.{proposed, uncertain}
use code_sementic_memory.Cards.Rows.{CardCodec, Decision}
use code_sementic_memory.Cards.Versions.{record_decision}
use code_sementic_memory.Consolidation.Rows.{
  Candidate, ConsolidationDb, ConsolidationError, Item, Review, create, reject, uncertain_match,
}
use code_sementic_memory.Consolidation.Scores.{Policy}
use code_sementic_memory.Consolidation.Matches.{Match, find_matches, is_ambiguous}
use code_sementic_memory.Consolidation.Service.{conclude, create_card, decision, merge_or_version}
use code_sementic_memory.Consolidation.Actions.{has_decision, skipped_item, validate_evidence}

-- `"; ".join(...)`
unfoldable pub joined : List String → String
unfolding join
joined [] = ""
joined (x ∷ []) = x
joined (x ∷ y ∷ rest) = join x (join "; " (joined (y ∷ rest)))

module _ (p : Policy) (c : CardCodec) where
  -- An ambiguous match
  unfoldable pub decide_ambiguous :
      ℕ
      → Candidate
      → Match
      → List Match
      → ConsolidationDb
      → Result ConsolidationError (Item × ConsolidationDb)
  decide_ambiguous now d m matches db =
      create_card p c now d uncertain "uncertain"
        "multiple active cards matched within the ambiguity margin" db.tables
      >>= λ r.
          let done =
            conclude p c now d uncertain_match r.0.card_id r.0 (some m.score)
              "ambiguous match; created an explicitly uncertain card"
              "ambiguous match; manual review required" matches (record db { tables = r.1 }) in
          ok (record done.0 { status = some uncertain }, done.1)

  -- No match
  unfoldable pub decide_new :
      ℕ → Candidate → ConsolidationDb → Result ConsolidationError (Item × ConsolidationDb)
  decide_new now d db =
      create_card p c now d proposed "proposed"
        "first evidence-backed observation for this route/key" db.tables
      >>= λ r.
          let reason : String = "created a proposed card from an evidence-backed candidate" in
          ok (
            conclude p c now d create r.0.card_id r.0 none reason reason []
              (record db { tables = r.1 }))

  -- The best match
  unfoldable pub decide_match :
      ℕ
      → String
      → Candidate
      → Match
      → List Match
      → ConsolidationDb
      → Result ConsolidationError (Item × ConsolidationDb)
  decide_match now uuid d m matches db =
      merge_or_version p c now uuid d m.row db >>= λ (v, action, reason, db').
      ok (conclude p c now d action m.row.card.card_id v (some m.score) reason reason matches db')

  unfoldable pub decide :
      ℕ
      → String
      → Candidate
      → List Match
      → ConsolidationDb
      → Result ConsolidationError (Item × ConsolidationDb)
  decide now uuid d [] db = decide_new now d db
  decide now uuid d (m ∷ ms) db =
      if is_ambiguous p c (m ∷ ms)
      then decide_ambiguous now d m (m ∷ ms) db
      else decide_match now uuid d m (m ∷ ms) db

  unfoldable pub consolidate_found :
      ℕ
      → String
      → Candidate
      → Option Decision
      → ConsolidationDb
      → Result ConsolidationError (Item × ConsolidationDb)
  consolidate_found now uuid d (some previous) db = ok (
    skipped_item db.tables.cards d previous
        "same candidate fingerprint and policy were already consolidated",
    db,
  )
  consolidate_found now uuid d none db =
      validate_evidence d db.events >>= λ ids. decide now uuid d (find_matches p c d db.tables) db

  -- `_consolidate_one`
  unfoldable pub consolidate_one :
      ℕ → String → Candidate → ConsolidationDb → Result ConsolidationError (Item × ConsolidationDb)
  consolidate_one now uuid d db =
      consolidate_found now uuid d
        (find_where (has_decision (p.decision_key d)) db.tables.decisions) db

  unfoldable pub quarantine_found :
      ℕ → Candidate → Review → Option Decision → ConsolidationDb → Item × ConsolidationDb
  quarantine_found now d q (some previous) db =
      let item = skipped_item [] d previous "quarantine decision was already recorded" in
      (record item { status = none }, db)
  quarantine_found now d q none db =
      let reason = join "quality quarantine: " (joined (take 5 q.reasons)) in
      (
        record {
          candidate_id = d.candidate_id;
          action = reject;
          card_id = none;
          version = none;
          status = none;
          score = some q.score;
          reason = reason;
        },
        record db {
          tables =
              (record_decision c
                (decision p now d reject none none (some q.score) reason
                  (field "quality" (object q.as_fields) end))
                db.tables).1;
        },
      )

  -- `_record_quarantined`
  unfoldable pub record_quarantined :
      ℕ → Candidate → Review → ConsolidationDb → Item × ConsolidationDb
  record_quarantined now d q db =
      quarantine_found now d q (find_where (has_decision (p.decision_key d)) db.tables.decisions) db
