-- ===== src/Consolidation/Sound.antt =====
-- What the writes of a candidate keep: unique card ids, and chained versions.
use code_sementic_memory.Common.{
  ℕ, ◌≡◌, ◌≢◌, refl, sym, ap, ◌∙◌, subst, String, Bool, Option, none, some, List, [], ◌∷◌, ◌++◌,
  ◌==◌, arith, Bool-cases, Option-cases, inl, inr, ◌⊎◌, All, All-append, All-imp, All-update_where,
  Unique, Unique-append, Unique-update_where, find_where, find_where-extend, find_where-none,
  find_where-update_where, update_where, Result, ok, err, eq_iff,
}
use code_sementic_memory.Cards.Status.{Card, CardStatus, has_card}
use code_sementic_memory.Cards.Rows.{
  CardCodec, CardDb, CardVersion, StoreError, VersionId, integrity_error, same_identity,
}
use code_sementic_memory.Cards.Versions.{Observation, card_row, insert_card}
use code_sementic_memory.Cards.Frame.{SameCards}
use code_sementic_memory.Cards.Chain.{IsChained, Numbered}
use code_sementic_memory.Cards.Inserts.{
  insert_card-IsChained, insert_card-clash, insert_card-tables,
}
use code_sementic_memory.Cards.Complete.{HasVersions, HasVersions-first}
use code_sementic_memory.Consolidation.Rows.{Candidate}
use code_sementic_memory.Consolidation.Scores.{Policy}
use code_sementic_memory.Consolidation.Service.{
  after_insert, card_found, cards_after_clash, create_card, existing_card, has_key_of, new_card,
}
use code_sementic_memory.Consolidation.Actions.{observation}

abbrev pub card_key : Card → String
card_key k = k.card_id

pub record IsSound (db : CardDb) : Type 0 where
  pub chained : IsChained db
  pub keys : Unique card_key db.cards

pub SameCards-IsSound : (db db' : CardDb) → SameCards db db' → IsSound db → IsSound db'
SameCards-IsSound db db' s v = record {
  chained = (
    subst (λ (cards : List Card). All (Numbered cards) db'.versions) (sym s.cards)
        (subst (All (Numbered db.cards)) (sym s.versions) v.chained.0),
    subst (λ (cards : List Card). All (HasVersions db'.versions) cards) (sym s.cards)
        (subst (λ (vs : List CardVersion). All (HasVersions vs) db.cards) (sym s.versions)
          v.chained.1),
  );
  keys = subst (Unique card_key) (sym s.cards) v.keys;
}

-- An UPDATE of cards that keeps their ids and current versions
module _ (p : Card → Bool) (f : Card → Card) (same_id : (k : Card) → (f k).card_id ≡ k.card_id)
    (same_current : (k : Card) → (f k).current_version ≡ k.current_version) where
  update-Numbered :
      (cards : List Card) (v : CardVersion) → Numbered cards v → Numbered (update_where p f cards) v
  unfolding has_card
  update-Numbered cards v k =
      let moved =
        find_where-update_where (has_card v.id.card_id) p f cards
          (λ x. ap (λ (z : String). z == v.id.card_id) (same_id x)) in
      elim (Bool-cases (p k.card)) [
        | inl e ↦ record {
          card = f k.card;
          found = moved ∙ rw k.found (rw e refl);
          first = k.first;
          last = rw (same_current k.card) k.last;
          closed = λ lt. k.closed (rw (same_current k.card) at lt);
          follows = k.follows;
        }
        | inr e ↦ record {
          card = k.card;
          found = moved ∙ rw k.found (rw e refl);
          first = k.first;
          last = k.last;
          closed = k.closed;
          follows = k.follows;
        }
      ]

  update-HasVersions :
      (versions : List CardVersion) (k : Card) → HasVersions versions k → HasVersions versions (f k)
  update-HasVersions versions k h = record {
    first = rw (same_current k) h.first;
    each = λ n a b. rw (same_id k) (h.each n a (rw (same_current k) at b));
  }

  pub update-IsSound :
      (db : CardDb) → IsSound db → IsSound (record db { cards = update_where p f db.cards })
  update-IsSound db v = record {
    chained = (
      All-imp db.versions (λ w k. update-Numbered db.cards w k) v.chained.0,
      All-update_where p f (HasVersions db.versions) (HasVersions db.versions) db.cards
          (λ k h e. update-HasVersions db.versions k h) (λ k h e. h) v.chained.1,
    );
    keys = Unique-update_where card_key p f db.cards same_id v.keys;
  }

-- A card whose id no card has
identity-fresh :
    (card : Card) (cards : List Card)
    → find_where (same_identity card) cards ≡ none
    → All (λ k. card_key k ≢ card_key card) cards
unfolding same_identity
identity-fresh card cards e =
    All-imp cards (λ k f q. absurd (ground (arith, f, (eq_iff k.card_id card.card_id).1 q)))
      (find_where-none (same_identity card) cards e)

pub grow-IsSound :
    (db : CardDb) (card : Card)
    → find_where (same_identity card) db.cards ≡ none
    → HasVersions db.versions card
    → IsSound db
    → IsSound (record db { cards = db.cards ++ card ∷ [] })
grow-IsSound db card e has v = record {
  chained = (
    All-imp db.versions
        (λ w k. record {
          card = k.card;
          found = find_where-extend (has_card w.id.card_id) db.cards (card ∷ []) k.card k.found;
          first = k.first;
          last = k.last;
          closed = k.closed;
          follows = k.follows;
        })
        v.chained.0,
    All-append (HasVersions db.versions) db.cards (card ∷ []) v.chained.1 (has, tt),
  );
  keys = Unique-append card_key db.cards card (identity-fresh card db.cards e) v.keys;
}

-- What the creation of a card does to the cards: nothing, or one more
abbrev pub Grows : List Card → List Card → Type 0
Grows cards cards' = (cards' ≡ cards) ⊎ ((card : Card) × (cards' ≡ cards ++ card ∷ []))

clash-IsSound :
    (row : Card) (db : CardDb)
    → (find_where (same_identity row) db.cards ≡ none → HasVersions db.versions row)
    → IsSound db
    → IsSound (record db { cards = cards_after_clash row db.cards })
      × Grows db.cards (cards_after_clash row db.cards)
unfolding cards_after_clash
clash-IsSound row db has sound = elim (Option-cases (find_where (same_identity row) db.cards)) [
  | inl e ↦ rw e (grow-IsSound db row e (has e) sound, inr (row, refl))
  | inr (k, e) ↦ rw e (sound, inl refl)
]

card_found-tables :
    (o : Option Card) (cards : List Card) (db db' : CardDb) (v : VersionId)
    → card_found o cards db ≡ ok (v, db')
    → record db { cards = cards } ≡ db'
unfolding card_found
card_found-tables none cards db db' v h = ground (arith, h)
card_found-tables (some k) cards db db' v h = ground (arith, h)

module _ (p : Policy) (c : CardCodec) (now : ℕ) (d : Candidate) (status : CardStatus) where
  existing_card-IsSound :
      (o : Observation) (db db' : CardDb) (v : VersionId)
      → (name : String) → insert_card c now (new_card p c d name) o db ≡ err integrity_error
      → existing_card p c now d status o db ≡ ok (v, db')
      → IsSound db
      → IsSound db' × Grows db.cards db'.cards
  unfolding existing_card card_row new_card
  existing_card-IsSound o db db' v name refused h sound =
      let row = card_row c now (new_card p c d "") status o in
      let cards = cards_after_clash row db.cards in
      let same = card_found-tables (find_where (has_key_of p c d) cards) cards db db' v h in
      let r =
        clash-IsSound row db
          (λ e.
            HasVersions-first db.versions row refl
              (insert_card-clash c now (new_card p c d name) status o db refused e))
          sound in
      (subst IsSound same r.0, subst (Grows db.cards) (ap (λ (z : CardDb). z.cards) same) r.1)

  inserted :
      (o : Observation) (db db' : CardDb) (v : VersionId) (name : String)
      (r : Result StoreError (VersionId × CardDb))
      → insert_card c now (new_card p c d name) o db ≡ r
      → after_insert p c now d status o db r ≡ ok (v, db')
      → IsSound db
      → IsSound db' × Grows db.cards db'.cards
  unfolding after_insert
  inserted o db db' v name (ok (w, db1)) e k sound =
      let n = new_card p c d name in
      let same : db1 ≡ db' = ground (arith, k) in
      let (s, fresh, cards) = insert_card-tables c now n o db db1 w e in
      let chain = insert_card-IsChained c now n o db db1 w e sound.chained in
      (
        subst IsSound same (record {
          chained = chain.0;
          keys =
              subst (Unique card_key) (sym cards)
                (Unique-append card_key db.cards _ (identity-fresh _ db.cards fresh) sound.keys);
        }),
        inr (card_row c now n s o, ap (λ (z : CardDb). z.cards) (sym same) ∙ cards),
      )
  inserted o db db' v name (err integrity_error) e k sound =
      existing_card-IsSound o db db' v name e k sound
  inserted o db db' v name (err _) e k sound = ground (arith, k)

  -- A creation that does not raise
  pub create_card-IsSound :
      (name reason : String) (db db' : CardDb) (v : VersionId)
      → create_card p c now d status name reason db ≡ ok (v, db')
      → IsSound db
      → IsSound db' × Grows db.cards db'.cards
  unfolding create_card
  create_card-IsSound name reason db db' v h sound =
      let o = observation d d.aliases d.bindings d.confidence reason in
      inserted o db db' v name (insert_card c now (new_card p c d name) o db) refl h sound
