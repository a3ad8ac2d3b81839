-- ===== src/Consolidation/Recorded.antt =====
-- What the transactions of a candidate do to the recorded decisions.
use code_sementic_memory.Common.{
  ℕ, ◌≡◌, refl, sym, ap, ◌∙◌, subst, max, String, false, ◌||◌, Option, none, some, List, [], ◌∷◌,
  ◌++◌, ◌==◌, arith, leb, map, filter_where, Bool-cases, inl, inr, All, All-zip,
  All-find_where-none, eq_iff, eq_refl, find_where, find_where-append, find_where-none, ok, err,
  Result, bind-ok, not, ◌&&◌, elem,
}
use code_sementic_memory.Cards.Status.{Card, CardStatus}
use code_sementic_memory.Cards.Tables.{add_evidence, insert_or_ignore, or_default, unique_strings}
use code_sementic_memory.Cards.Rows.{
  BindingInput, CardCodec, CardDb, Decision, StoreError, VersionId, integrity_error, same_version,
  target_types,
}
use code_sementic_memory.Cards.Versions.{append_version, insert_card, record_decision}
use code_sementic_memory.Cards.Decisions.{
  SameDecisions, add_evidence-SameDecisions, append_version-SameDecisions,
  insert_card-SameDecisions, write_link-SameDecisions,
}
use code_sementic_memory.Consolidation.Rows.{Action, Candidate, ConsolidationDb, Hint, Item}
use code_sementic_memory.Consolidation.Scores.{Policy, merge_bindings}
use code_sementic_memory.Consolidation.Matches.{CardRow, Match}
use code_sementic_memory.Consolidation.Actions.{
  demote, has_decision, is_trusted, observation, raised, read_binding,
}
use code_sementic_memory.Consolidation.Service.{
  add_version, after_insert, card_found, conclude, create_card, decision, existing_card,
  is_material, merge_evidence, merge_or_version, merge_update, new_card, record_hint, record_hints,
}
use code_sementic_memory.Consolidation.Quiet.{merged-state, raised-ok}

module _ (c : CardCodec) where
  -- The id of a decision is that of its key.
  abbrev pub IsKeyed : List Decision → Type 0
  IsKeyed ds = All (λ e. e.decision_id ≡ c.short_id "decision" (e.decision_key ∷ [])) ds

  -- No two keys share an id.
  abbrev pub KeysDiffer : Type 0
  KeysDiffer =
      (k l : String) → c.short_id "decision" (k ∷ []) ≡ c.short_id "decision" (l ∷ []) → k ≡ l

  no_clash :
      (d e : Decision)
      → KeysDiffer
      → e.decision_id ≡ c.short_id "decision" (e.decision_key ∷ [])
      → has_decision d.decision_key e ≡ false
      → (e.decision_id == c.short_id "decision" (d.decision_key ∷ [])
          || e.decision_key == d.decision_key)
        ≡ false
  unfolding has_decision
  no_clash d e differ keyed miss =
      elim (Bool-cases (e.decision_id == c.short_id "decision" (d.decision_key ∷ []))) [
        | inr n ↦ rw (n, miss) refl
        | inl y ↦
            let q : e.decision_key ≡ d.decision_key =
              differ _ _ (sym keyed ∙ (eq_iff e.decision_id _).0 y) in
            absurd (ground (arith, miss, (eq_iff e.decision_key d.decision_key).1 q))
      ]

  -- A decision under a new key is found by it.
  pub recorded :
      (d : Decision) (db : CardDb)
      → KeysDiffer
      → IsKeyed db.decisions
      → find_where (has_decision d.decision_key) db.decisions ≡ none
      → find_where (has_decision d.decision_key) (record_decision c d db).1.decisions
        ≡ some (record d { decision_id = c.short_id "decision" (d.decision_key ∷ []) })
  unfolding record_decision insert_or_ignore find_where has_decision
  recorded d db differ keyed fresh =
      let misses = find_where-none (has_decision d.decision_key) db.decisions fresh in
      let e =
        All-find_where-none
          (λ e.
            e.decision_id == c.short_id "decision" (d.decision_key ∷ [])
            || e.decision_key == d.decision_key)
          db.decisions (All-zip db.decisions (λ x k m. no_clash d x differ k m) keyed misses) in
      rw e (
        rw (find_where-append (has_decision d.decision_key) db.decisions _ fresh)
          (rw (eq_refl d.decision_key) refl))

record_hint-SameDecisions :
    (p : Policy) (now : ℕ) (v : VersionId) (h : Option Hint) (db : CardDb)
    → SameDecisions db (record_hint p now v h db)
unfolding record_hint
record_hint-SameDecisions p now v none db = refl
record_hint-SameDecisions p now v (some h) db =
    elim (Bool-cases (
      not (p.strip (or_default h.target_id "") == "")
      && elem (p.strip (or_default h.target_type "candidate")) target_types)) [
        | inl e ↦ rw e (write_link-SameDecisions _ db)
        | inr e ↦ rw e refl
      ]

record_hints-SameDecisions :
    (p : Policy) (now : ℕ) (v : VersionId) (hs : List (Option Hint)) (db : CardDb)
    → SameDecisions db (record_hints p now v hs db)
unfolding record_hints
record_hints-SameDecisions p now v [] db = refl
record_hints-SameDecisions p now v (h ∷ hs) db =
    record_hints-SameDecisions p now v hs _ ∙ record_hint-SameDecisions p now v h db

module _ (p : Policy) (c : CardCodec) (d : Candidate) where
  -- The decision on the candidate is recorded with the card, version and score of the item.
  abbrev pub Decided : Item → ConsolidationDb → Type 0
  Decided item db =
      (e : Decision) × (find_where (has_decision (p.decision_key d)) db.tables.decisions ≡ some e)
      × (e.card_id ≡ item.card_id)
      × (e.version ≡ item.version)
      × (e.score ≡ item.score)

  abbrev pub Undecided : List Decision → Type 0
  Undecided ds = IsKeyed c ds × (find_where (has_decision (p.decision_key d)) ds ≡ none)

  pub conclude-Decided :
      (now : ℕ) (action : Action) (id : String) (v : VersionId) (score : Option ℕ)
      (stored reason : String) (matches : List Match) (db : ConsolidationDb)
      → KeysDiffer c
      → Undecided db.tables.decisions
      → let r = conclude p c now d action id v score stored reason matches db in Decided r.0 r.1
  unfolding conclude decision
  conclude-Decided now action id v score stored reason matches db differ u =
      let same = record_hints-SameDecisions p now v d.relation_hints db.tables in
      let (keyed, fresh) = subst Undecided (sym same) u in
      (
        _,
        recorded c _ (record_hints p now v d.relation_hints db.tables) differ keyed fresh,
        refl,
        refl,
        refl,
      )

  pub create_card-SameDecisions :
      (now : ℕ) (status : CardStatus) (name reason : String) (db db' : CardDb) (v : VersionId)
      → create_card p c now d status name reason db ≡ ok (v, db')
      → SameDecisions db db'
  unfolding create_card
  create_card-SameDecisions now status name reason db db' v h =
      inserted
        (insert_card c now (new_card p c d name)
          (observation d d.aliases d.bindings d.confidence reason) db)
        refl h
    where
      found :
          (o : Option Card) (cards : List Card)
          → card_found o cards db ≡ ok (v, db')
          → SameDecisions db db'
      found none cards k = unfold card_found in ground (arith, k)
      found (some _) cards k = unfold card_found in ground (arith, k)

      inserted :
          (r : Result StoreError (VersionId × CardDb))
          → insert_card c now
              (new_card p c d name)
              (observation d d.aliases d.bindings d.confidence reason)
              db
            ≡ r
          → after_insert p c now d status
              (observation d d.aliases d.bindings d.confidence reason)
              db
              r
            ≡ ok (v, db')
          → SameDecisions db db'
      inserted (ok (w, db1)) e k =
          let same : db1 ≡ db' = unfold after_insert in ground (arith, k) in
          subst (SameDecisions db) same (insert_card-SameDecisions c now _ _ db db1 w e)
      inserted (err integrity_error) e k =
          unfold after_insert in unfold existing_card in found _ _ k
      inserted (err StoreError.unsupported_kind) e k = unfold after_insert in ground (arith, k)
      inserted (err StoreError.unsupported_status) e k = unfold after_insert in ground (arith, k)
      inserted (err StoreError.unsupported_target) e k = unfold after_insert in ground (arith, k)

  merge_evidence-SameDecisions :
      (now : ℕ) (row : CardRow) (db db' : ConsolidationDb) (r : VersionId × Action × String)
      → merge_evidence c now d row db ≡ ok (r.0, r.1, r.2, db')
      → SameDecisions db.tables db'.tables
  unfolding merge_evidence merge_update
  merge_evidence-SameDecisions now row db db' r h =
      let tables =
        add_evidence now row.version.id d.candidate_id d.evidence_event_ids "supports" db.tables in
      elim (Bool-cases (leb (max row.card.confidence d.confidence) c.one)) [
        | inr e ↦ ground (arith, rw e at h)
        | inl e ↦
            let same : tables.decisions ≡ db'.tables.decisions = ground (arith, rw e at h) in
            sym same
            ∙ add_evidence-SameDecisions now row.version.id d.candidate_id d.evidence_event_ids
                "supports" db.tables
      ]

  demote-SameDecisions :
      (now : ℕ) (uuid : String) (card : Card) (id : String) (v : VersionId) (db : ConsolidationDb)
      → SameDecisions db.tables (demote now uuid card id v c db).tables
  unfolding demote
  demote-SameDecisions now uuid card id v db = elim (Bool-cases (is_trusted card.status)) [
    | inl e ↦ rw e refl
    | inr e ↦ rw e refl
  ]

  add_version-SameDecisions :
      (now : ℕ) (uuid : String) (row : CardRow) (current : List BindingInput)
      (db db' : ConsolidationDb) (r : VersionId × Action × String)
      → add_version p c now uuid d row current db ≡ ok (r.0, r.1, r.2, db')
      → SameDecisions db.tables db'.tables
  unfolding add_version
  add_version-SameDecisions now uuid row current db db' r h =
      let o =
        observation d (unique_strings c [] (row.version.aliases ++ d.aliases))
          (merge_bindings p c [] (current ++ d.bindings)) (max row.card.confidence d.confidence)
          "new observation materially changed the statement or code binding" in
      let ((v, tables), h0, h1) =
        bind-ok (raised (append_version c now row.card row.version o db.tables)) _
          (r.0, r.1, r.2, db') h in
      let appended =
        raised-ok (append_version c now row.card row.version o db.tables) (v, tables) h0 in
      let last = ap (λ (z : ConsolidationDb). z.tables.decisions) (merged-state _ r db' h1) in
      sym last
      ∙ demote-SameDecisions now uuid row.card d.candidate_id v (record db { tables = tables })
      ∙ append_version-SameDecisions c now row.card row.version o db.tables tables v appended

  pub merge_or_version-SameDecisions :
      (now : ℕ) (uuid : String) (row : CardRow) (db db' : ConsolidationDb)
      (r : VersionId × Action × String)
      → merge_or_version p c now uuid d row db ≡ ok (r.0, r.1, r.2, db')
      → SameDecisions db.tables db'.tables
  unfolding merge_or_version
  merge_or_version-SameDecisions now uuid row db db' r h =
      let current : List BindingInput =
        map read_binding
          (filter_where (λ b. same_version b.version row.version.id) db.tables.bindings) in
      elim (Bool-cases (is_material p c d row current)) [
        | inl e ↦ add_version-SameDecisions now uuid row current db db' r (rw e at h)
        | inr e ↦ merge_evidence-SameDecisions now row db db' r (rw e at h)
      ]
