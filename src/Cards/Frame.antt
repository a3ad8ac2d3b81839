-- ===== src/Cards/Frame.antt =====
-- What the writes of a version do to the cards and the versions.
use code_sementic_memory.Common.{
  ℕ, suc, ◌+◌, ◌≡◌, refl, sym, ap, ◌∙◌, max, String, Option, none, some, List, [], ◌∷◌, ◌++◌, ◌==◌,
  leb, coalesce, arith, Bool-cases, inl, inr, find_where, update_where, ok, bind-ok, Option-cases,
}
use code_sementic_memory.Cards.Status.{Card, has_card}
use code_sementic_memory.Cards.Tables.{
  insert_or_ignore, write_link, evidence_loop, event_keys, add_evidence, add_binding, add_bindings,
  link_target, insert_unless, close_version, normalized_target, binding_row,
}
use code_sementic_memory.Cards.Rows.{
  VersionId, CardVersion, Link, BindingInput, CardDb, CardCodec, has_version, same_binding,
}
use code_sementic_memory.Cards.Versions.{
  Observation, version_row, insert_version, attach, advanced, advance_card, supersedes_link,
  close_old, append_version,
}

-- What evidence, bindings and links leave as it is
pub record SameCards (db db' : CardDb) : Type 0 where
  pub cards : db'.cards ≡ db.cards
  pub versions : db'.versions ≡ db.versions

pub SameCards-trans : (a b d : CardDb) → SameCards a b → SameCards b d → SameCards a d
SameCards-trans a b d s t = record { cards = t.cards ∙ s.cards; versions = t.versions ∙ s.versions }

pub write_link-SameCards : (l : Link) (db : CardDb) → SameCards db (write_link l db)
unfolding write_link
write_link-SameCards l db = record { cards = refl; versions = refl }

pub evidence_loop-SameCards :
    (now : ℕ) (v : VersionId) (candidate relation : String) (n : ℕ) (xs : List String) (db : CardDb)
    → SameCards db (evidence_loop now v candidate relation n xs db)
unfolding evidence_loop write_link
evidence_loop-SameCards now v candidate relation n [] db = record { cards = refl; versions = refl }
evidence_loop-SameCards now v candidate relation n (x ∷ xs) db =
    let r = evidence_loop-SameCards now v candidate relation (suc n) xs _ in
    record { cards = r.cards; versions = r.versions }

link_target-SameCards :
    (now : ℕ) (v : VersionId) (role : String) (path o : Option String) (db : CardDb)
    → SameCards db (link_target now v role path o db)
unfolding link_target write_link
link_target-SameCards now v role path none db = record { cards = refl; versions = refl }
link_target-SameCards now v role path (some id) db = record { cards = refl; versions = refl }

module _ (c : CardCodec) where
  add_binding-SameCards :
      (now : ℕ) (v : VersionId) (b : BindingInput) (db : CardDb)
      → SameCards db (add_binding c now v b db)
  unfolding add_binding
  add_binding-SameCards now v b db = elim (Bool-cases (normalized_target c b == "")) [
    | inl e ↦ rw e (record { cards = refl; versions = refl })
    | inr e ↦ rw e (
        let row = binding_row c now v b in
        let r =
          link_target-SameCards now v row.role row.path
            (coalesce row.path (coalesce row.qualified_symbol row.symbol))
            (record db { bindings = insert_or_ignore (same_binding row) row db.bindings }) in
        record { cards = r.cards; versions = r.versions })
  ]

  add_bindings-SameCards :
      (now : ℕ) (v : VersionId) (bs : List BindingInput) (db : CardDb)
      → SameCards db (add_bindings c now v bs db)
  unfolding add_bindings
  add_bindings-SameCards now v [] db = record { cards = refl; versions = refl }
  add_bindings-SameCards now v (b ∷ bs) db =
      SameCards-trans db (add_binding c now v b db) _ (add_binding-SameCards now v b db)
        (add_bindings-SameCards now v bs _)

  pub attach-SameCards :
      (now : ℕ) (v : VersionId) (o : Observation) (db : CardDb) → SameCards db (attach c now v o db)
  unfolding attach add_evidence
  attach-SameCards now v o db =
      let e =
        evidence_loop-SameCards now v o.candidate_id "supports" 0
          (event_keys [] o.evidence_event_ids) db in
      let l = SameCards-trans db _ _ e (
        write_link-SameCards _ (
          evidence_loop now v o.candidate_id "supports" 0 (event_keys [] o.evidence_event_ids)
            db)) in
      SameCards-trans db _ _ l (add_bindings-SameCards now v o.bindings _)

  pub insert_version-tables :
      (v : CardVersion) (db db' : CardDb)
      → insert_version c v db ≡ ok db'
      → (db'.cards ≡ db.cards) × (db'.versions ≡ db.versions ++ v ∷ [])
  unfolding insert_version insert_unless
  insert_version-tables v db db' h =
      elim (Option-cases (find_where (has_version v.id) db.versions)) [
        | inl e ↦ let k = rw e at h in (ground (arith, k), ground (arith, k))
        | inr (w, e) ↦ ground (arith, rw e at h)
      ]

  advance_card-tables :
      (now : ℕ) (card : Card) (n confidence : ℕ) (db db' : CardDb)
      → advance_card c now card n confidence db ≡ ok db'
      → (db'.cards ≡ update_where (has_card card.card_id) (advanced c now n confidence) db.cards)
        × (db'.versions ≡ db.versions)
  unfolding advance_card
  advance_card-tables now card n confidence db db' h = elim (Bool-cases (leb confidence c.one)) [
    | inl e ↦ let k = rw e at h in (ground (arith, k), ground (arith, k))
    | inr e ↦ ground (arith, rw e at h)
  ]

  -- The tables after an append that does not raise
  pub append-tables :
      (now : ℕ) (card : Card) (current : CardVersion) (o : Observation) (db db' : CardDb)
      (v : VersionId)
      → append_version c now card current o db ≡ ok (v, db')
      → let id : VersionId = record {
        card_id = card.card_id;
        version_no = current.id.version_no + 1;
      } in
        (v ≡ id)
        × (db'.cards
            ≡ update_where
                (has_card card.card_id)
                (advanced c now (current.id.version_no + 1) (max card.confidence o.confidence))
                db.cards)
        × (db'.versions
            ≡ update_where (has_version current.id) (close_version now) (
                db.versions
                ++ version_row c now id card.valid_from card.valid_until (some current.id) o ∷ []))
  unfolding append_version
  append-tables now card current o db db' v h =
      let id : VersionId = record {
        card_id = card.card_id;
        version_no = current.id.version_no + 1;
      } in
      let new = version_row c now id card.valid_from card.valid_until (some current.id) o in
      let (db1, h0, h1) = bind-ok (insert_version c new db) _ (v, db') h in
      let (cards1, versions1) = insert_version-tables new db db1 h0 in
      let closed = close_old c now current.id db1 in
      let a = attach-SameCards now id o closed in
      let w =
        write_link-SameCards (supersedes_link c now id current.id) (attach c now id o closed) in
      let (db2, h2, h3) =
        bind-ok
          (advance_card c now card id.version_no (max card.confidence o.confidence)
            (write_link (supersedes_link c now id current.id) (attach c now id o closed)))
          _ (v, db') h1 in
      let (cards2, versions2) =
        advance_card-tables now card id.version_no (max card.confidence o.confidence) _ db2 h2 in
      let same : db2 ≡ db' = ground (arith, h3) in
      let closed_cards : closed.cards ≡ db1.cards = unfold close_old in refl in
      let closed_versions : closed.versions
          ≡ update_where (has_version current.id) (close_version now) db1.versions =
        unfold close_old in refl in
      (
        ground (arith, h3),
        ap (λ (z : CardDb). z.cards) (sym same)
            ∙ cards2
            ∙ ap
                (update_where (has_card card.card_id)
                  (advanced c now id.version_no (max card.confidence o.confidence)))
                (w.cards ∙ a.cards ∙ closed_cards ∙ cards1),
        ap (λ (z : CardDb). z.versions) (sym same)
            ∙ versions2
            ∙ w.versions
            ∙ a.versions
            ∙ closed_versions
            ∙ ap (update_where (has_version current.id) (close_version now)) versions1,
      )
