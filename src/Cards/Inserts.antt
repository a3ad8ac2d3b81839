-- ===== src/Cards/Inserts.antt =====
-- A new card starts a chain.
use code_sementic_memory.Common.{
  ℕ, ◌≡◌, refl, sym, ap, ◌∙◌, subst, false, Option, none, some, List, [], ◌∷◌, ◌++◌, arith, All,
  All-imp, All-append, Bool-cases, inl, inr, find_where, true, ok, err, bind-ok, Option-cases,
}
use code_sementic_memory.Cards.Status.{Card, has_card}
use code_sementic_memory.Cards.Tables.{insert_unless}
use code_sementic_memory.Cards.Rows.{VersionId, CardVersion, CardDb, CardCodec}
use code_sementic_memory.Cards.Versions.{Observation, version_row, insert_version, attach}
use code_sementic_memory.Common.{
  elem, find_where-extend, find_where-append, find_where-none, All-find_where-none, eq_refl,
}
use code_sementic_memory.Cards.Status.{CardStatus, parse_status}
use code_sementic_memory.Cards.Rows.{card_kinds, same_identity}
use code_sementic_memory.Cards.Versions.{NewCard, card_row, insert_named, insert_card}
use code_sementic_memory.Cards.Frame.{attach-SameCards, insert_version-tables}
use code_sementic_memory.Cards.Rows.{integrity_error, has_version}
use code_sementic_memory.Cards.Complete.{
  HasVersions, HasVersions-first, HasVersions-more, is_there, there-append_left, there-append_new,
}
use code_sementic_memory.Cards.Chain.{Numbered, IsChained}

module _ (c : CardCodec) (now : ℕ) (n : NewCard) (o : Observation) (db db' : CardDb)
    (v : VersionId) where
  abbrev first_id : VersionId
  first_id = record { card_id = n.card_id; version_no = 1 }

  abbrev first_row : CardVersion
  first_row = version_row c now first_id n.valid_from n.valid_until none o

  -- The tables after an insertion that does not raise
  named-tables :
      (status : CardStatus)
      → insert_named c now n (some status) o db ≡ ok (v, db')
      → (v ≡ first_id)
        × (find_where (same_identity (card_row c now n status o)) db.cards ≡ none)
        × (db'.cards ≡ db.cards ++ card_row c now n status o ∷ [])
        × (db'.versions ≡ db.versions ++ first_row ∷ [])
  unfolding insert_named insert_unless
  named-tables status h =
      elim (Option-cases (find_where (same_identity (card_row c now n status o)) db.cards)) [
        | inr (d, e) ↦ ground (arith, rw e at h)
        | inl e ↦
            let with_card : CardDb = record db {
              cards = db.cards ++ card_row c now n status o ∷ [];
            } in
            let (db1, h0, h1) =
              bind-ok (insert_version c first_row with_card) _ (v, db') (rw e at h) in
            let (cards1, versions1) = insert_version-tables c first_row with_card db1 h0 in
            let a = attach-SameCards c now first_id o db1 in
            let same : attach c now first_id o db1 ≡ db' = ground (arith, h1) in
            (
              ground (arith, h1),
              e,
              ap (λ (z : CardDb). z.cards) (sym same) ∙ a.cards ∙ cards1,
              ap (λ (z : CardDb). z.versions) (sym same) ∙ a.versions ∙ versions1,
            )
      ]

  find-inserted :
      (status : CardStatus)
      → find_where (same_identity (card_row c now n status o)) db.cards ≡ none
      → find_where (has_card n.card_id) (db.cards ++ card_row c now n status o ∷ [])
        ≡ some (card_row c now n status o)
  unfolding find_where has_card card_row
  find-inserted status e =
      rw (find_where-append (has_card n.card_id) db.cards (card_row c now n status o ∷ []) absent)
        (rw (eq_refl n.card_id) refl)
    where
      other :
          (d : Card)
          → same_identity (card_row c now n status o) d ≡ false
          → has_card n.card_id d ≡ false
      other d f = unfold same_identity in ground (arith, f)

      absent : find_where (has_card n.card_id) db.cards ≡ none
      absent =
          All-find_where-none (has_card n.card_id) db.cards
            (All-imp db.cards (λ d f. other d f) (find_where-none _ db.cards e))

  -- The card is there with the current version 1, which is in the table of versions.
  abbrev pub Begins : Type 0
  Begins =
      (v ≡ first_id)
      × ((k : Card) × (find_where (has_card n.card_id) db'.cards ≡ some k)
          × (k.current_version ≡ 1))
      × (is_there first_id db'.versions ≡ true)

  named-IsChained :
      (s : Option CardStatus)
      → insert_named c now n s o db ≡ ok (v, db')
      → IsChained db
      → IsChained db' × Begins
  unfolding version_row card_row insert_named
  named-IsChained none h chained = ground (arith, h)
  named-IsChained (some status) h chained =
      let (id_is, fresh, cards_are, versions_are) = named-tables status h in
      let row = card_row c now n status o in
      let cards' : List Card = db.cards ++ row ∷ [] in
      let new : Numbered cards' first_row = record {
        card = row;
        found = find-inserted status fresh;
        first = omega arith;
        last = omega arith;
        closed = λ lt. absurd (omega (arith, lt));
        follows = inl (refl, refl);
      } in
      let all : All (Numbered cards') (db.versions ++ first_row ∷ []) =
        All-append (Numbered cards') db.versions (first_row ∷ [])
          (All-imp db.versions
            (λ w k. record {
              card = k.card;
              found = find_where-extend (has_card w.id.card_id) db.cards (row ∷ []) k.card k.found;
              first = k.first;
              last = k.last;
              closed = k.closed;
              follows = k.follows;
            })
            chained.0)
          (new, tt) in
      let versions' : List CardVersion = db.versions ++ first_row ∷ [] in
      let complete : All (HasVersions versions') cards' =
        All-append (HasVersions versions') db.cards (row ∷ [])
          (All-imp db.cards
            (λ k h.
              HasVersions-more db.versions versions' k
                (λ w there. there-append_left w db.versions (first_row ∷ []) there) h)
            chained.1)
          (HasVersions-first versions' row refl (there-append_new db.versions first_row), tt) in
      (
        (
          subst (λ (cards : List Card). All (Numbered cards) db'.versions) (sym cards_are)
              (subst (All (Numbered cards')) (sym versions_are) all),
          subst (λ (cards : List Card). All (HasVersions db'.versions) cards) (sym cards_are)
              (subst (λ (vs : List CardVersion). All (HasVersions vs) cards') (sym versions_are)
                complete),
        ),
        (
          id_is,
          (row, ap (find_where (has_card n.card_id)) cards_are ∙ find-inserted status fresh, refl),
          subst (λ (vs : List CardVersion). is_there first_id vs ≡ true) (sym versions_are)
              (there-append_new db.versions first_row),
        ),
      )

  -- An insertion of a card that does not raise keeps the versions chained, complete up to the current one of each
  -- card, and answers with version 1 of the card; the card is there afterwards, its current version is 1, and
  -- that version is in the table.
  pub insert_card-IsChained :
      insert_card c now n o db ≡ ok (v, db') → IsChained db → IsChained db' × Begins
  unfolding insert_card
  insert_card-IsChained h chained = elim (Bool-cases (elem n.kind card_kinds)) [
    | inl e ↦ named-IsChained (parse_status n.status) (rw e at h) chained
    | inr e ↦ ground (arith, rw e at h)
  ]

-- An insertion that the database refuses, though the card's id and key are new, meets a version with its id.
pub insert_card-clash :
    (c : CardCodec) (now : ℕ) (n : NewCard) (status : CardStatus) (o : Observation) (db : CardDb)
    → insert_card c now n o db ≡ err integrity_error
    → find_where (same_identity (card_row c now n status o)) db.cards ≡ none
    → is_there (record { card_id = n.card_id; version_no = 1 }) db.versions ≡ true
unfolding insert_card insert_named insert_version insert_unless version_row same_identity card_row
insert_card-clash c now n status o db h fresh = elim (Bool-cases (elem n.kind card_kinds)) [
  | inr e ↦ ground (arith, rw e at h)
  | inl e ↦ named (parse_status n.status) (rw e at h)
]
  where
    id : VersionId
    id = record { card_id = n.card_id; version_no = 1 }

    named :
        (s : Option CardStatus)
        → insert_named c now n s o db ≡ err integrity_error
        → is_there id db.versions ≡ true
    named none k = ground (arith, k)
    named (some s) k = elim (Option-cases (find_where (has_version id) db.versions)) [
      | inl e ↦ ground (arith, rw (fresh, e) at k)
      | inr (w, e) ↦ rw e refl
    ]

-- An insertion that does not raise adds one card whose id and key are new.
pub insert_card-tables :
    (c : CardCodec) (now : ℕ) (n : NewCard) (o : Observation) (db db' : CardDb) (v : VersionId)
    → insert_card c now n o db ≡ ok (v, db')
    → (status : CardStatus) × (find_where (same_identity (card_row c now n status o)) db.cards
        ≡ none)
      × (db'.cards ≡ db.cards ++ card_row c now n status o ∷ [])
unfolding insert_card insert_named
insert_card-tables c now n o db db' v h = elim (Bool-cases (elem n.kind card_kinds)) [
  | inr e ↦ ground (arith, rw e at h)
  | inl e ↦ named (parse_status n.status) (rw e at h)
]
  where
    named :
        (s : Option CardStatus)
        → insert_named c now n s o db ≡ ok (v, db')
        → (status : CardStatus) × (find_where (same_identity (card_row c now n status o)) db.cards
            ≡ none)
          × (db'.cards ≡ db.cards ++ card_row c now n status o ∷ [])
    named none k = ground (arith, k)
    named (some status) k =
        let (id_is, fresh, cards_are, versions_are) = named-tables c now n o db db' v status k in
        (status, fresh, cards_are)
