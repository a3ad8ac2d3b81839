-- ===== src/Consolidation/Steps.antt =====
-- One candidate: what `_consolidate_one` and `_record_quarantined` keep.
use code_sementic_memory.Common.{
  ℕ, ◌+◌, ◌≡◌, refl, sym, ap, ◌∙◌, subst, max, String, Option, none, some, List, [], ◌∷◌, ◌++◌,
  ◌==◌, arith, eq_iff, eq_refl, leb, elem, not, ◌&&◌, Bool-cases, inl, inr, Kept, Kept-update,
  Kept-update_all, Unique, Unique-update_where, find_where, update_where, ok, bind-ok,
}
use code_sementic_memory.Cards.Status.{Card, CardStatus, has_card, proposed, set_status, uncertain}
use code_sementic_memory.Cards.Tables.{add_evidence, or_default, write_link, unique_strings}
use code_sementic_memory.Cards.Rows.{BindingInput, CardCodec, CardDb, VersionId, target_types}
use code_sementic_memory.Cards.Versions.{advanced, append_version}
use code_sementic_memory.Cards.Frame.{SameCards, SameCards-trans, append-tables}
use code_sementic_memory.Cards.Chain.{append_version-IsChained, find-current}
use code_sementic_memory.Consolidation.Rows.{Action, Candidate, ConsolidationDb, Hint, Item}
use code_sementic_memory.Consolidation.Scores.{Policy, merge_bindings}
use code_sementic_memory.Consolidation.Matches.{CardRow, Match}
use code_sementic_memory.Consolidation.Actions.{
  demote, demotion, is_trusted, merged_card, observation, raised,
}
use code_sementic_memory.Consolidation.Service.{
  add_version, conclude, create_card, merge_evidence, merge_update, record_hint, record_hints,
}
use code_sementic_memory.Consolidation.Decide.{decide_ambiguous, decide_new}
use code_sementic_memory.Consolidation.Sound.{
  IsSound, SameCards-IsSound, card_key, create_card-IsSound, update-IsSound,
}
use code_sementic_memory.Consolidation.Joined.{Joined}
use code_sementic_memory.Consolidation.Audited.{
  Audited, Audited-refl, Audited-trans, Demoted, Demoted-refl, Grows-Kept, quiet,
}
use code_sementic_memory.Consolidation.Quiet.{
  SameCards-Audited, add_evidence-SameCards, merged-state, ok-state, raised-ok,
  record_decision-SameCards, same_status_refl,
}

-- What a transaction of the consolidator guarantees
abbrev pub Keeps : ConsolidationDb → ConsolidationDb → Type 0
Keeps db db' = IsSound db'.tables × Audited db db'

module _ (p : Policy) (now : ℕ) (v : VersionId) where
  record_hint-SameCards : (h : Option Hint) (db : CardDb) → SameCards db (record_hint p now v h db)
  unfolding record_hint write_link
  record_hint-SameCards none db = record { cards = refl; versions = refl }
  record_hint-SameCards (some h) db =
      elim (Bool-cases (
        not (p.strip (or_default h.target_id "") == "")
        && elem (p.strip (or_default h.target_type "candidate")) target_types)) [
          | inl e ↦ rw e (record { cards = refl; versions = refl })
          | inr e ↦ rw e (record { cards = refl; versions = refl })
        ]

  record_hints-SameCards :
      (hs : List (Option Hint)) (db : CardDb) → SameCards db (record_hints p now v hs db)
  unfolding record_hints
  record_hints-SameCards [] db = record { cards = refl; versions = refl }
  record_hints-SameCards (h ∷ hs) db =
      SameCards-trans db (record_hint p now v h db) _ (record_hint-SameCards h db)
        (record_hints-SameCards hs _)

module _ (p : Policy) (c : CardCodec) (now : ℕ) (d : Candidate) where
  pub conclude-Keeps :
      (action : Action) (id : String) (v : VersionId) (score : Option ℕ) (stored reason : String)
      (matches : List Match) (db : ConsolidationDb)
      → IsSound db.tables
      → Keeps db (conclude p c now d action id v score stored reason matches db).1
  unfolding conclude
  conclude-Keeps action id v score stored reason matches db sound =
      let s =
        SameCards-trans db.tables (record_hints p now v d.relation_hints db.tables) _
          (record_hints-SameCards p now v d.relation_hints db.tables)
          (record_decision-SameCards c _ (record_hints p now v d.relation_hints db.tables)) in
      (SameCards-IsSound db.tables _ s sound, SameCards-Audited db _ refl s)

  -- A created card, before the decision is recorded
  created-Keeps :
      (status : CardStatus) (name reason : String) (db : ConsolidationDb) (v : VersionId)
      (tables : CardDb)
      → create_card p c now d status name reason db.tables ≡ ok (v, tables)
      → IsSound db.tables
      → Keeps db (record db { tables = tables })
  created-Keeps status name reason db v tables h sound =
      let (s, grows) =
        create_card-IsSound p c now d status name reason db.tables tables v h sound in
      (s, quiet db (record db { tables = tables }) refl (Grows-Kept _ _ grows))

  pub both-Keep : (a b e : ConsolidationDb) → Keeps a b → (IsSound b.tables → Keeps b e) → Keeps a e
  both-Keep a b e r s = let q = s r.0 in (q.0, Audited-trans a b e r.1 q.1)

  pub decide_new-Keeps :
      (db db' : ConsolidationDb) (item : Item)
      → decide_new p c now d db ≡ ok (item, db')
      → IsSound db.tables
      → Keeps db db'
  unfolding decide_new
  decide_new-Keeps db db' item h sound =
      let ((v, tables), h0, h1) =
        bind-ok (create_card p c now d proposed _ _ db.tables) _ (item, db') h in
      subst (Keeps db) (ok-state _ item db' h1) (
        both-Keep db (record db { tables = tables }) _
          (created-Keeps proposed _ _ db v tables h0 sound)
          (conclude-Keeps _ v.card_id v none _ _ [] (record db { tables = tables })))

  pub decide_ambiguous-Keeps :
      (m : Match) (matches : List Match) (db db' : ConsolidationDb) (item : Item)
      → decide_ambiguous p c now d m matches db ≡ ok (item, db')
      → IsSound db.tables
      → Keeps db db'
  unfolding decide_ambiguous
  decide_ambiguous-Keeps m matches db db' item h sound =
      let ((v, tables), h0, h1) =
        bind-ok (create_card p c now d uncertain _ _ db.tables) _ (item, db') h in
      subst (Keeps db) (ok-state _ item db' h1) (
        both-Keep db (record db { tables = tables }) _
          (created-Keeps uncertain _ _ db v tables h0 sound)
          (conclude-Keeps _ v.card_id v (some m.score) _ _ matches (record db { tables = tables })))

  pub merge_evidence-Keeps :
      (row : CardRow) (db db' : ConsolidationDb) (r : VersionId × Action × String)
      → merge_evidence c now d row db ≡ ok (r.0, r.1, r.2, db')
      → IsSound db.tables
      → Keeps db db'
  unfolding merge_evidence merge_update merged_card has_card
  merge_evidence-Keeps row db db' r h sound =
      let confident = leb (max row.card.confidence d.confidence) c.one in
      let tables =
        add_evidence now row.version.id d.candidate_id d.evidence_event_ids "supports" db.tables in
      let f = merged_card now d.confidence in
      let db1 : ConsolidationDb = record db {
        tables = record tables { cards = update_where (has_card row.card.card_id) f tables.cards };
      } in
      elim (Bool-cases confident) [
        | inr e ↦ ground (arith, rw e at h)
        | inl e ↦
            let same : db1 ≡ db' = ground (arith, rw e at h) in
            let s =
              add_evidence-SameCards now row.version.id d.candidate_id d.evidence_event_ids
                "supports" db.tables in
            subst (Keeps db) same (
              update-IsSound (has_card row.card.card_id) f (λ k. refl) (λ k. refl) tables
                  (SameCards-IsSound db.tables tables s sound),
              quiet db db1 refl (
                  subst
                    (λ (cards : List Card).
                      Kept has_card (Demoted []) db.tables.cards
                        (update_where (has_card row.card.card_id) f cards))
                    (sym s.cards)
                    (Kept-update_all has_card (Demoted []) f (has_card row.card.card_id)
                      db.tables.cards (Demoted-refl []) (λ k x. refl) (λ k. (refl, inl refl)))),
            )
      ]

module _ (p : Policy) (c : CardCodec) (now : ℕ) (uuid : String) (d : Candidate) where
  demote-Keeps :
      (card : Card) (v : VersionId) (db : ConsolidationDb) (moved : Card)
      → find_where (has_card card.card_id) db.tables.cards ≡ some moved
      → moved.card_id ≡ card.card_id
      → moved.status ≡ card.status
      → IsSound db.tables
      → Keeps db (demote now uuid card d.candidate_id v c db)
  unfolding demote demotion set_status has_card find_where
  demote-Keeps card v db moved found same_id same_status_as sound =
      elim (Bool-cases (is_trusted card.status)) [
        | inr e ↦ rw e (sound, Audited-refl db)
        | inl e ↦ rw e (
          update-IsSound (has_card card.card_id) (set_status now uncertain) (λ k. refl) (λ k. refl)
              db.tables sound,
          record {
            new = demotion now uuid card d.candidate_id v c ∷ [];
            appended = refl;
            kept =
                Kept-update has_card (Demoted (demotion now uuid card d.candidate_id v c ∷ []))
                  (set_status now uncertain) card.card_id moved db.tables.cards
                  (Demoted-refl (demotion now uuid card d.candidate_id v c ∷ [])) (λ k x. refl)
                  (λ k x h g. sym ((eq_iff x.card_id k).0 g) ∙ (eq_iff x.card_id card.card_id).0 h)
                  found
                  (
                    refl,
                    inr (
                      rw same_status_as e,
                      refl,
                      (
                        demotion now uuid card d.candidate_id v c,
                        rw (same_id, same_status_as)
                            (rw (eq_refl card.card_id) (rw (same_status_refl card.status) refl)),
                      ),
                    ),
                  );
          },
        )
      ]

  pub add_version-Keeps :
      (row : CardRow) (current : List BindingInput) (db db' : ConsolidationDb)
      (r : VersionId × Action × String)
      → Joined db.tables.cards row
      → add_version p c now uuid d row current db ≡ ok (r.0, r.1, r.2, db')
      → IsSound db.tables
      → Keeps db db'
  unfolding add_version advanced
  add_version-Keeps row current db db' r (here, at_current) h sound =
      let o =
        observation d (unique_strings c [] (row.version.aliases ++ d.aliases))
          (merge_bindings p c [] (current ++ d.bindings)) (max row.card.confidence d.confidence)
          "new observation materially changed the statement or code binding" in
      let ((v, tables), h0, h1) =
        bind-ok (raised (append_version c now row.card row.version o db.tables)) _
          (r.0, r.1, r.2, db') h in
      let appended =
        raised-ok (append_version c now row.card row.version o db.tables) (v, tables) h0 in
      let n = row.version.id.version_no + 1 in
      let confidence = max row.card.confidence o.confidence in
      let (id_is, cards_are, versions_are) =
        append-tables c now row.card row.version o db.tables tables v appended in
      let chain =
        append_version-IsChained c now row.card row.version o db.tables tables v here at_current
          appended sound.chained in
      let f = advanced c now n confidence in
      let sound1 : IsSound tables = record {
        chained = chain.0;
        keys = subst (Unique card_key) (sym cards_are) (
            Unique-update_where card_key (has_card row.card.card_id) f db.tables.cards (λ k. refl)
              sound.keys);
      } in
      let db1 : ConsolidationDb = record db { tables = tables } in
      let first : Audited db db1 = quiet db db1 refl (
        subst (Kept has_card (Demoted []) db.tables.cards) (sym cards_are)
          (advanced-Kept n confidence row.card.card_id db.tables.cards)) in
      let found : find_where (has_card row.card.card_id) tables.cards ≡ some (f row.card) =
        ap (find_where (has_card row.card.card_id)) cards_are
        ∙ find-current c now n confidence row.card db.tables.cards here in
      let then_demoted = demote-Keeps row.card v db1 (f row.card) found refl refl sound1 in
      subst (Keeps db) (merged-state _ r db' h1) (
        then_demoted.0,
        Audited-trans db db1 (demote now uuid row.card d.candidate_id v c db1) first then_demoted.1,
      )
    where
      advanced-Kept :
          (n confidence : ℕ) (id : String) (cards : List Card)
          → Kept has_card
              (Demoted [])
              cards
              (update_where (has_card id) (advanced c now n confidence) cards)
      advanced-Kept n confidence id cards =
          Kept-update_all has_card (Demoted []) (advanced c now n confidence) (has_card id) cards
            (Demoted-refl []) (λ k x. unfold has_card in refl) (λ k. (refl, inl refl))
