-- ===== src/Cards/Decisions.antt =====
-- The writes of cards and versions leave the recorded decisions alone, and a decision that is recorded is found
-- by its key.
use code_sementic_memory.Common.{
  ℕ, suc, ◌≡◌, refl, sym, ap, ◌∙◌, String, Option, none, some, List, [], ◌∷◌, ◌==◌, elem, leb,
  coalesce, arith, Bool-cases, Option-cases, inl, inr, find_where, ok, bind-ok,
}
use code_sementic_memory.Cards.Status.{Card, CardStatus, parse_status}
use code_sementic_memory.Cards.Tables.{
  insert_or_ignore, write_link, evidence_loop, event_keys, add_evidence, add_binding, add_bindings,
  link_target, insert_unless, normalized_target, binding_row,
}
use code_sementic_memory.Cards.Rows.{
  VersionId, CardVersion, Link, BindingInput, CardDb, CardCodec, card_kinds, has_version,
  same_binding,
}
use code_sementic_memory.Cards.Versions.{
  NewCard, Observation, insert_version, insert_named, insert_card, attach, advance_card, close_old,
  append_version,
}

abbrev pub SameDecisions : CardDb → CardDb → Type 0
SameDecisions db db' = db'.decisions ≡ db.decisions

pub write_link-SameDecisions : (l : Link) (db : CardDb) → SameDecisions db (write_link l db)
unfolding write_link
write_link-SameDecisions l db = refl

evidence_loop-SameDecisions :
    (now : ℕ) (v : VersionId) (candidate relation : String) (n : ℕ) (xs : List String) (db : CardDb)
    → SameDecisions db (evidence_loop now v candidate relation n xs db)
unfolding evidence_loop write_link
evidence_loop-SameDecisions now v candidate relation n [] db = refl
evidence_loop-SameDecisions now v candidate relation n (x ∷ xs) db =
    evidence_loop-SameDecisions now v candidate relation (suc n) xs _

pub add_evidence-SameDecisions :
    (now : ℕ) (v : VersionId) (candidate : String) (xs : List String) (relation : String)
    (db : CardDb)
    → SameDecisions db (add_evidence now v candidate xs relation db)
unfolding add_evidence write_link
add_evidence-SameDecisions now v candidate xs relation db =
    evidence_loop-SameDecisions now v candidate relation 0 (event_keys [] xs) db

link_target-SameDecisions :
    (now : ℕ) (v : VersionId) (role : String) (path o : Option String) (db : CardDb)
    → SameDecisions db (link_target now v role path o db)
unfolding link_target write_link
link_target-SameDecisions now v role path none db = refl
link_target-SameDecisions now v role path (some id) db = refl

module _ (c : CardCodec) where
  add_binding-SameDecisions :
      (now : ℕ) (v : VersionId) (b : BindingInput) (db : CardDb)
      → SameDecisions db (add_binding c now v b db)
  unfolding add_binding
  add_binding-SameDecisions now v b db = elim (Bool-cases (normalized_target c b == "")) [
    | inl e ↦ rw e refl
    | inr e ↦ rw e (
        let row = binding_row c now v b in
        link_target-SameDecisions now v row.role row.path
          (coalesce row.path (coalesce row.qualified_symbol row.symbol))
          (record db { bindings = insert_or_ignore (same_binding row) row db.bindings }))
  ]

  add_bindings-SameDecisions :
      (now : ℕ) (v : VersionId) (bs : List BindingInput) (db : CardDb)
      → SameDecisions db (add_bindings c now v bs db)
  unfolding add_bindings
  add_bindings-SameDecisions now v [] db = refl
  add_bindings-SameDecisions now v (b ∷ bs) db =
      add_bindings-SameDecisions now v bs _ ∙ add_binding-SameDecisions now v b db

  attach-SameDecisions :
      (now : ℕ) (v : VersionId) (o : Observation) (db : CardDb)
      → SameDecisions db (attach c now v o db)
  unfolding attach
  attach-SameDecisions now v o db =
      add_bindings-SameDecisions now v o.bindings _
      ∙ add_evidence-SameDecisions now v o.candidate_id o.evidence_event_ids "supports" db

  insert_version-SameDecisions :
      (v : CardVersion) (db db' : CardDb) → insert_version c v db ≡ ok db' → SameDecisions db db'
  unfolding insert_version insert_unless
  insert_version-SameDecisions v db db' h =
      elim (Option-cases (find_where (has_version v.id) db.versions)) [
        | inl e ↦ let k = rw e at h in ground (arith, k)
        | inr (w, e) ↦ ground (arith, rw e at h)
      ]

  advance_card-SameDecisions :
      (now : ℕ) (card : Card) (n confidence : ℕ) (db db' : CardDb)
      → advance_card c now card n confidence db ≡ ok db'
      → SameDecisions db db'
  unfolding advance_card
  advance_card-SameDecisions now card n confidence db db' h =
      elim (Bool-cases (leb confidence c.one)) [
        | inl e ↦ let k = rw e at h in ground (arith, k)
        | inr e ↦ ground (arith, rw e at h)
      ]

  pub append_version-SameDecisions :
      (now : ℕ) (card : Card) (current : CardVersion) (o : Observation) (db db' : CardDb)
      (v : VersionId)
      → append_version c now card current o db ≡ ok (v, db')
      → SameDecisions db db'
  unfolding append_version close_old write_link
  append_version-SameDecisions now card current o db db' v h =
      let (db1, h0, h1) = bind-ok (insert_version c _ db) _ (v, db') h in
      let (db2, h2, h3) = bind-ok (advance_card c now card _ _ _) _ (v, db') h1 in
      let same : db2 ≡ db' = ground (arith, h3) in
      ap (λ (z : CardDb). z.decisions) (sym same)
      ∙ advance_card-SameDecisions now card _ _ _ db2 h2
      ∙ attach-SameDecisions now _ o _
      ∙ insert_version-SameDecisions _ db db1 h0

  insert_named-SameDecisions :
      (now : ℕ) (n : NewCard) (s : Option CardStatus) (o : Observation) (db db' : CardDb)
      (v : VersionId)
      → insert_named c now n s o db ≡ ok (v, db')
      → SameDecisions db db'
  unfolding insert_named
  insert_named-SameDecisions now n none o db db' v h = ground (arith, h)
  insert_named-SameDecisions now n (some status) o db db' v h =
      let (cards, h0, h1) = bind-ok (insert_unless _ _ db.cards) _ (v, db') h in
      let (db1, h2, h3) = bind-ok (insert_version c _ _) _ (v, db') h1 in
      let same : attach c now (record { card_id = n.card_id; version_no = 1 }) o db1 ≡ db' =
        ground (arith, h3) in
      ap (λ (z : CardDb). z.decisions) (sym same)
      ∙ attach-SameDecisions now _ o db1
      ∙ insert_version-SameDecisions _ _ db1 h2

  pub insert_card-SameDecisions :
      (now : ℕ) (n : NewCard) (o : Observation) (db db' : CardDb) (v : VersionId)
      → insert_card c now n o db ≡ ok (v, db')
      → SameDecisions db db'
  unfolding insert_card
  insert_card-SameDecisions now n o db db' v h = elim (Bool-cases (elem n.kind card_kinds)) [
    | inl e ↦ insert_named-SameDecisions now n (parse_status n.status) o db db' v (rw e at h)
    | inr e ↦ ground (arith, rw e at h)
  ]
