-- ===== src/Consolidation/Again.antt =====
-- A candidate that is decided stays decided.
use code_sementic_memory.Common.{
  ℕ, ◌≡◌, refl, sym, subst, String, none, some, List, [], ◌∷◌, arith, Bool-cases, Option-cases, inl,
  inr, find_where, ok, Result, bind-ok,
}
use code_sementic_memory.Cards.Status.{proposed, uncertain}
use code_sementic_memory.Cards.Rows.{CardCodec}
use code_sementic_memory.Consolidation.Rows.{
  Candidate, ConsolidationDb, ConsolidationError, Item, skip,
}
use code_sementic_memory.Consolidation.Scores.{Policy}
use code_sementic_memory.Consolidation.Matches.{Match, find_matches, is_ambiguous}
use code_sementic_memory.Consolidation.Actions.{has_decision, skipped_item, validate_evidence}
use code_sementic_memory.Consolidation.Service.{create_card, merge_or_version}
use code_sementic_memory.Consolidation.Decide.{
  consolidate_found, consolidate_one, decide, decide_ambiguous, decide_match, decide_new,
}
use code_sementic_memory.Consolidation.Recorded.{
  Decided, IsKeyed, KeysDiffer, Undecided, conclude-Decided, create_card-SameDecisions,
  merge_or_version-SameDecisions,
}

done :
    (x : Item × ConsolidationDb) (item : Item) (db : ConsolidationDb)
    → let r : Result ConsolidationError (Item × ConsolidationDb) = ok x in
      (r ≡ ok (item, db)) → x ≡ (item, db)
done x item db h = ground (arith, h)

module _ (p : Policy) (c : CardCodec) (now : ℕ) (uuid : String) (d : Candidate)
    (differ : KeysDiffer c) where
  decide_new-Decided :
      (db db' : ConsolidationDb) (item : Item)
      → decide_new p c now d db ≡ ok (item, db')
      → Undecided p c d db.tables.decisions
      → Decided p c d item db'
  unfolding decide_new
  decide_new-Decided db db' item h u =
      let ((v, tables), h0, h1) =
        bind-ok (create_card p c now d proposed _ _ db.tables) _ (item, db') h in
      let same = create_card-SameDecisions p c d now proposed _ _ db.tables tables v h0 in
      subst (λ (x : Item × ConsolidationDb). Decided p c d x.0 x.1) (done _ item db' h1)
        (conclude-Decided p c d now _ v.card_id v none _ _ [] (record db { tables = tables }) differ
          (subst (Undecided p c d) (sym same) u))

  decide_ambiguous-Decided :
      (m : Match) (matches : List Match) (db db' : ConsolidationDb) (item : Item)
      → decide_ambiguous p c now d m matches db ≡ ok (item, db')
      → Undecided p c d db.tables.decisions
      → Decided p c d item db'
  unfolding decide_ambiguous
  decide_ambiguous-Decided m matches db db' item h u =
      let ((v, tables), h0, h1) =
        bind-ok (create_card p c now d uncertain _ _ db.tables) _ (item, db') h in
      let same = create_card-SameDecisions p c d now uncertain _ _ db.tables tables v h0 in
      let r =
        conclude-Decided p c d now _ v.card_id v (some m.score) _ _ matches
          (record db { tables = tables }) differ (subst (Undecided p c d) (sym same) u) in
      subst (λ (x : Item × ConsolidationDb). Decided p c d x.0 x.1) (done _ item db' h1) r

  decide_match-Decided :
      (m : Match) (matches : List Match) (db db' : ConsolidationDb) (item : Item)
      → decide_match p c now uuid d m matches db ≡ ok (item, db')
      → Undecided p c d db.tables.decisions
      → Decided p c d item db'
  unfolding decide_match
  decide_match-Decided m matches db db' item h u =
      let ((v, action, reason, db1), h0, h1) =
        bind-ok (merge_or_version p c now uuid d m.row db) _ (item, db') h in
      let same =
        merge_or_version-SameDecisions p c d now uuid m.row db db1 (v, action, reason) h0 in
      subst (λ (x : Item × ConsolidationDb). Decided p c d x.0 x.1) (done _ item db' h1)
        (conclude-Decided p c d now action m.row.card.card_id v (some m.score) reason reason matches
          db1 differ (subst (Undecided p c d) (sym same) u))

  decide-Decided :
      (matches : List Match) (db db' : ConsolidationDb) (item : Item)
      → decide p c now uuid d matches db ≡ ok (item, db')
      → Undecided p c d db.tables.decisions
      → Decided p c d item db'
  unfolding decide
  decide-Decided [] db db' item h u = decide_new-Decided db db' item h u
  decide-Decided (m ∷ ms) db db' item h u = elim (Bool-cases (is_ambiguous p c (m ∷ ms))) [
    | inl e ↦ decide_ambiguous-Decided m (m ∷ ms) db db' item (rw e at h) u
    | inr e ↦ decide_match-Decided m (m ∷ ms) db db' item (rw e at h) u
  ]

  one-Decided :
      (db db' : ConsolidationDb) (item : Item)
      → consolidate_one p c now uuid d db ≡ ok (item, db')
      → IsKeyed c db.tables.decisions
      → Decided p c d item db'
  unfolding consolidate_one consolidate_found skipped_item
  one-Decided db db' item h keyed =
      elim (Option-cases (find_where (has_decision (p.decision_key d)) db.tables.decisions)) [
        | inr (e, f) ↦
            subst (λ (x : Item × ConsolidationDb). Decided p c d x.0 x.1)
              (done _ item db' (rw f at h)) (e, f, refl, refl, refl)
        | inl f ↦
            let (ids, h0, h1) = bind-ok (validate_evidence d db.events) _ (item, db') (rw f at h) in
            decide-Decided (find_matches p c d db.tables) db db' item h1 (keyed, f)
      ]

  -- Consolidating a candidate a second time after a success, at any later time, changes nothing and answers
  -- skip with the card, the version and the score of the first answer, where the ids of decisions are those
  -- of their keys and no two keys share an id.
  pub consolidate_again :
      (later : ℕ) (uuid' : String) (db db' : ConsolidationDb) (item : Item)
      → consolidate_one p c now uuid d db ≡ ok (item, db')
      → IsKeyed c db.tables.decisions
      → (item' : Item) × (consolidate_one p c later uuid' d db' ≡ ok (item', db'))
        × (item'.action ≡ skip)
        × (item'.card_id ≡ item.card_id)
        × (item'.version ≡ item.version)
        × (item'.score ≡ item.score)
  unfolding consolidate_one consolidate_found skipped_item
  consolidate_again later uuid' db db' item h keyed =
      let (e, f, card, version, score) = one-Decided db db' item h keyed in
      (
        skipped_item db'.tables.cards d e
            "same candidate fingerprint and policy were already consolidated",
        rw f refl,
        refl,
        card,
        version,
        score,
      )
