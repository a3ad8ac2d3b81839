-- ===== src/Consolidation/Integrity.antt =====
-- Whole calls of the consolidator: the tables stay sound, and every change of a status is audited.
use code_sementic_memory.Common.{
  ℕ, ◌≡◌, refl, subst, String, Option, none, some, List, [], ◌∷◌, arith, Bool-cases, inl, inr, All,
  map, filter_where, find_where, ok, err, Result, bind-ok,
}
use code_sementic_memory.Cards.Rows.{BindingInput, CardCodec, Decision, VersionId, same_version}
use code_sementic_memory.Consolidation.Rows.{
  Action, Candidate, ConsolidationDb, ConsolidationError, Item, Review, Summary,
}
use code_sementic_memory.Consolidation.Scores.{Policy}
use code_sementic_memory.Consolidation.Matches.{CardRow, Match, find_matches, is_ambiguous}
use code_sementic_memory.Consolidation.Actions.{has_decision, read_binding, validate_evidence}
use code_sementic_memory.Consolidation.Service.{is_material, merge_or_version}
use code_sementic_memory.Consolidation.Decide.{
  consolidate_found, consolidate_one, decide, decide_match, quarantine_found, record_quarantined,
}
use code_sementic_memory.Consolidation.Runs.{
  Selection, after_step, consolidate, consolidate_each, consolidate_step, consolidated,
  is_quarantine, quarantined,
}
use code_sementic_memory.Consolidation.Sound.{IsSound, SameCards-IsSound}
use code_sementic_memory.Consolidation.Joined.{Joined, find_matches-Joined}
use code_sementic_memory.Consolidation.Audited.{Audited-refl}
use code_sementic_memory.Consolidation.Steps.{
  Keeps, add_version-Keeps, both-Keep, conclude-Keeps, decide_ambiguous-Keeps, decide_new-Keeps,
  merge_evidence-Keeps,
}
use code_sementic_memory.Consolidation.Quiet.{
  SameCards-Audited, ok-state, record_decision-SameCards,
}

module _ (p : Policy) (c : CardCodec) (now : ℕ) (uuid : String) (d : Candidate) where
  merge_or_version-Keeps :
      (row : CardRow) (db db' : ConsolidationDb) (r : VersionId × Action × String)
      → Joined db.tables.cards row
      → merge_or_version p c now uuid d row db ≡ ok (r.0, r.1, r.2, db')
      → IsSound db.tables
      → Keeps db db'
  unfolding merge_or_version
  merge_or_version-Keeps row db db' r joined h sound =
      let current : List BindingInput =
        map read_binding
          (filter_where (λ b. same_version b.version row.version.id) db.tables.bindings) in
      elim (Bool-cases (is_material p c d row current)) [
        | inl e ↦ add_version-Keeps p c now uuid d row current db db' r joined (rw e at h) sound
        | inr e ↦ merge_evidence-Keeps p c now d row db db' r (rw e at h) sound
      ]

  decide_match-Keeps :
      (m : Match) (matches : List Match) (db db' : ConsolidationDb) (item : Item)
      → Joined db.tables.cards m.row
      → decide_match p c now uuid d m matches db ≡ ok (item, db')
      → IsSound db.tables
      → Keeps db db'
  unfolding decide_match
  decide_match-Keeps m matches db db' item joined h sound =
      let ((v, action, reason, db1), h0, h1) =
        bind-ok (merge_or_version p c now uuid d m.row db) _ (item, db') h in
      subst (Keeps db) (ok-state _ item db' h1) (
        both-Keep p c now d db db1 _
          (merge_or_version-Keeps m.row db db1 (v, action, reason) joined h0 sound)
          (conclude-Keeps p c now d action m.row.card.card_id v (some m.score) reason reason matches
            db1))

  decide-Keeps :
      (matches : List Match) (db db' : ConsolidationDb) (item : Item)
      → All (λ m. Joined db.tables.cards m.row) matches
      → decide p c now uuid d matches db ≡ ok (item, db')
      → IsSound db.tables
      → Keeps db db'
  unfolding decide
  decide-Keeps [] db db' item joined h sound = decide_new-Keeps p c now d db db' item h sound
  decide-Keeps (m ∷ ms) db db' item joined h sound = elim (Bool-cases (is_ambiguous p c (m ∷ ms))) [
    | inl e ↦ decide_ambiguous-Keeps p c now d m (m ∷ ms) db db' item (rw e at h) sound
    | inr e ↦ decide_match-Keeps m (m ∷ ms) db db' item joined.0 (rw e at h) sound
  ]

  found-Keeps :
      (o : Option Decision) (db db' : ConsolidationDb) (item : Item)
      → consolidate_found p c now uuid d o db ≡ ok (item, db')
      → IsSound db.tables
      → Keeps db db'
  unfolding consolidate_found
  found-Keeps (some previous) db db' item h sound =
      subst (Keeps db) (ok-state _ item db' h) (sound, Audited-refl db)
  found-Keeps none db db' item h sound =
      let (ids, h0, h1) = bind-ok (validate_evidence d db.events) _ (item, db') h in
      decide-Keeps (find_matches p c d db.tables) db db' item
        (find_matches-Joined p c d db.tables sound.keys) h1 sound

  pub consolidate_one-Keeps :
      (db db' : ConsolidationDb) (item : Item)
      → consolidate_one p c now uuid d db ≡ ok (item, db')
      → IsSound db.tables
      → Keeps db db'
  unfolding consolidate_one
  consolidate_one-Keeps db db' item h sound =
      found-Keeps (find_where (has_decision (p.decision_key d)) db.tables.decisions) db db' item h
        sound

module _ (p : Policy) (c : CardCodec) (now : ℕ) (d : Candidate) (q : Review) where
  quarantine_found-Keeps :
      (o : Option Decision) (db : ConsolidationDb)
      → IsSound db.tables
      → Keeps db (quarantine_found p c now d q o db).1
  unfolding quarantine_found
  quarantine_found-Keeps (some previous) db sound = (sound, Audited-refl db)
  quarantine_found-Keeps none db sound =
      let s = record_decision-SameCards c _ db.tables in
      (SameCards-IsSound db.tables _ s sound, SameCards-Audited db _ refl s)

  pub record_quarantined-Keeps :
      (db : ConsolidationDb) → IsSound db.tables → Keeps db (record_quarantined p c now d q db).1
  unfolding record_quarantined
  record_quarantined-Keeps db sound =
      quarantine_found-Keeps (find_where (has_decision (p.decision_key d)) db.tables.decisions) db
        sound

module _ (p : Policy) (c : CardCodec) (reviewed : Candidate → Review) (clock : Candidate → ℕ)
    (uuid : Candidate → String) where
  step-Keeps :
      (d : Candidate) (s s' : Summary) (db db' : ConsolidationDb)
      → consolidate_step p c reviewed clock uuid d s db ≡ ok (s', db')
      → IsSound db.tables
      → Keeps db db'
  unfolding consolidate_step quarantined
  step-Keeps d s s' db db' h sound = elim (Bool-cases (is_quarantine (reviewed d).decision)) [
    | inl e ↦
        let same : (record_quarantined p c (clock d) d (reviewed d) db).1 ≡ db' =
          ground (arith, rw e at h) in
        subst (Keeps db) same (record_quarantined-Keeps p c (clock d) d (reviewed d) db sound)
    | inr e ↦ one (consolidate_one p c (clock d) (uuid d) d db) refl (rw e at h)
  ]
    where
      one :
          (r : Result ConsolidationError (Item × ConsolidationDb))
          → consolidate_one p c (clock d) (uuid d) d db ≡ r
          → consolidated p c reviewed clock uuid s r ≡ ok (s', db')
          → Keeps db db'
      one (ok (item, db1)) f k =
          let same : db1 ≡ db' = unfold consolidated in ground (arith, k) in
          subst (Keeps db) same (consolidate_one-Keeps p c (clock d) (uuid d) d db db1 item f sound)
      one (err e) f k = unfold consolidated in ground (arith, k)

  each-Keeps :
      (ds : List Candidate) (s : Summary) (db : ConsolidationDb)
      → IsSound db.tables
      → Keeps db (consolidate_each p c reviewed clock uuid ds s db).1
  unfolding consolidate_each
  each-Keeps [] s db sound = (sound, Audited-refl db)
  each-Keeps (d ∷ ds) s db sound =
      after (consolidate_step p c reviewed clock uuid d s db) refl
        (λ s' db' h. each-Keeps ds s' db' h)
    where
      after :
          (r : Result ConsolidationError (Summary × ConsolidationDb))
          → consolidate_step p c reviewed clock uuid d s db ≡ r
          → ((s' : Summary) (db' : ConsolidationDb)
              → IsSound db'.tables
              → Keeps db' (consolidate_each p c reviewed clock uuid ds s' db').1)
          → Keeps db
              (after_step p c reviewed clock uuid r db
                (consolidate_each p c reviewed clock uuid ds)).1
      after (err e) f rest = unfold after_step in (sound, Audited-refl db)
      after (ok (s', db')) f rest =
          let first = step-Keeps d s s' db db' f sound in
          unfold after_step in both-Keep p c (clock d) d db db' _ first (λ h. rest s' db' h)

-- A call of consolidate, finished or cut off by an error, on tables with unique card ids and chained
-- versions leaves unique card ids and chained versions: each card has a version for every number from 1 to its
-- current one, no version is later than that or has no card, each supersedes the one before it, and those before
-- the current one are closed. It appends lifecycle events,
-- and every card that was there is there afterwards with its old status, or it was verified or stable, is
-- uncertain now, and one of the new events records that change of that card.
pub consolidate-Keeps :
    (p : Policy) (c : CardCodec) (reviewed : Candidate → Review) (clock : Candidate → ℕ)
    (uuid : Candidate → String) (q : Selection) (table : List Candidate) (db : ConsolidationDb)
    → IsSound db.tables
    → Keeps db (consolidate p c reviewed clock uuid q table db).1
unfolding consolidate
consolidate-Keeps p c reviewed clock uuid q table db sound =
    each-Keeps p c reviewed clock uuid _ _ db sound
