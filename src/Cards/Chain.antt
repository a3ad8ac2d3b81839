-- ===== src/Cards/Chain.antt =====
-- The versions of a card form a chain that ends in its current version.
use mathlib.Core.Option.{some-injective}
use code_sementic_memory.Common.{
  ℕ, ◌+◌, ◌≤◌, ◌<◌, ◌≡◌, refl, sym, ap, ◌∙◌, subst, max, String, true, false, none, some, List, [],
  ◌∷◌, ◌++◌, is_some, if◌then◌else◌, ltb, ltb→lt, arith, eq_iff, All, All-imp, All-append,
  All-update_where, Bool-cases, inl, inr, ◌⊎◌, find_where, find_where-update_where,
  find_where-holds, update_where, ok, Option-cases,
}
use code_sementic_memory.Cards.Status.{Card, has_card}
use code_sementic_memory.Cards.Tables.{close_version}
use code_sementic_memory.Cards.Rows.{
  VersionId, CardVersion, CardDb, CardCodec, same_version, has_version,
}
use code_sementic_memory.Cards.Versions.{Observation, version_row, advanced, append_version}
use code_sementic_memory.Cards.Frame.{append-tables}
use code_sementic_memory.Cards.Complete.{
  HasVersions, advance-HasVersions, is_there, there-append_left, there-append_new, there-close,
}

-- A version has no predecessor and is the first, or it supersedes the one before it.
abbrev pub Follows : CardVersion → Type 0
Follows v =
    ((v.supersedes ≡ none) × (v.id.version_no ≡ 1))
    ⊎ ((w : VersionId) × (v.supersedes ≡ some w)
        × (w.card_id ≡ v.id.card_id)
        × (v.id.version_no ≡ w.version_no + 1))

-- The card of a version is there, no version is later than the current one, and those before it are closed.
pub record Numbered (cards : List Card) (v : CardVersion) : Type 0 where
  pub card : Card
  pub found : find_where (has_card v.id.card_id) cards ≡ some card
  pub first : 1 ≤ v.id.version_no
  pub last : v.id.version_no ≤ card.current_version
  pub closed : v.id.version_no < card.current_version → is_some v.valid_until ≡ true
  pub follows : Follows v

-- The versions are those of the cards, and each card has all of its versions, from 1 to the current one.
abbrev pub IsChained : CardDb → Type 0
IsChained db = All (Numbered db.cards) db.versions × All (HasVersions db.versions) db.cards

module _ (c : CardCodec) (now n confidence : ℕ) (card : Card) (cards : List Card)
    (here : find_where (has_card card.card_id) cards ≡ some card) where
  find-advanced :
      (j : String) (d : Card)
      → find_where (has_card j) cards ≡ some d
      → find_where
          (has_card j)
          (update_where (has_card card.card_id) (advanced c now n confidence) cards)
        ≡ some (if has_card card.card_id d then advanced c now n confidence d else d)
  unfolding has_card advanced
  find-advanced j d f =
      find_where-update_where (has_card j) (has_card card.card_id) (advanced c now n confidence)
        cards (λ x. refl)
      ∙ rw f refl

  -- An older version after the card has moved to the version `n`
  advance-Numbered :
      (v w : CardVersion)
      → n ≡ card.current_version + 1
      → Numbered cards v
      → w.id ≡ v.id
      → w.supersedes ≡ v.supersedes
      → (is_some v.valid_until ≡ true → is_some w.valid_until ≡ true)
      → (v.id.card_id ≡ card.card_id
          → v.id.version_no ≡ card.current_version
          → is_some w.valid_until ≡ true)
      → Numbered (update_where (has_card card.card_id) (advanced c now n confidence) cards) w
  unfolding advanced
  advance-Numbered v w next k same_id same_supersedes stays shut =
      let moved = find-advanced v.id.card_id k.card k.found in
      let own : k.card.card_id ≡ v.id.card_id = own_id k in
      elim (Bool-cases (has_card card.card_id k.card)) [
        | inl e ↦
            let q : v.id.card_id ≡ card.card_id = sym own ∙ has_card-eq card.card_id k.card e in
            let same : k.card ≡ card =
              some-injective _ _ (sym k.found ∙ ap (λ j. find_where (has_card j) cards) q ∙ here) in
            let at_most : v.id.version_no ≤ card.current_version =
              subst (λ (z : Card). v.id.version_no ≤ z.current_version) same k.last in
            record {
              card = advanced c now n confidence k.card;
              found = rw same_id (moved ∙ rw e refl);
              first = rw same_id k.first;
              last = rw (same_id, next) (omega (arith, at_most));
              closed = λ lt. elim (Bool-cases (ltb v.id.version_no card.current_version)) [
                | inl t ↦ stays (k.closed (rw same (ltb→lt _ _ t)))
                | inr t ↦ shut q (ground (arith, t, at_most))
              ];
              follows = follow k.follows;
            }
        | inr e ↦ record {
          card = k.card;
          found = rw same_id (moved ∙ rw e refl);
          first = rw same_id k.first;
          last = rw same_id k.last;
          closed = λ lt. stays (k.closed (rw same_id at lt));
          follows = follow k.follows;
        }
      ]
    where
      follow : Follows v → Follows w
      follow f = rw (same_id, same_supersedes) f

      has_card-eq : (i : String) (d : Card) → has_card i d ≡ true → d.card_id ≡ i
      has_card-eq i d h = unfold has_card in (eq_iff d.card_id i).0 h

      own_id : (k : Numbered cards v) → k.card.card_id ≡ v.id.card_id
      own_id k =
          has_card-eq v.id.card_id k.card
            (find_where-holds (has_card v.id.card_id) cards k.card k.found)

close-hit :
    (old : VersionId) (v : CardVersion)
    → has_version old v ≡ false
    → v.id.card_id ≡ old.card_id
    → v.id.version_no ≡ old.version_no
    → ⊥
unfolding has_version same_version
close-hit old v h same_card same_no =
    ground (arith, h, same_no, (eq_iff v.id.card_id old.card_id).1 same_card)

close_version-is_some :
    (now : ℕ) (v : CardVersion) → is_some (close_version now v).valid_until ≡ true
close_version-is_some now v = elim (Option-cases v.valid_until) [
  | inl e ↦ rw e refl
  | inr (t, e) ↦ rw e refl
]

close-Numbered :
    (now : ℕ) (cards : List Card) (v : CardVersion)
    → Numbered cards v
    → Numbered cards (close_version now v)
close-Numbered now cards v k = record {
  card = k.card;
  found = k.found;
  first = k.first;
  last = k.last;
  closed = λ lt. close_version-is_some now v;
  follows = k.follows;
}

pub find-current :
    (c : CardCodec) (now n confidence : ℕ) (card : Card) (cards : List Card)
    → find_where (has_card card.card_id) cards ≡ some card
    → find_where
        (has_card card.card_id)
        (update_where (has_card card.card_id) (advanced c now n confidence) cards)
      ≡ some (advanced c now n confidence card)
find-current c now n confidence card cards here =
    find-advanced c now n confidence card cards here card.card_id card here
    ∙ rw (find_where-holds (has_card card.card_id) cards card here) refl

module _ (c : CardCodec) (now n confidence : ℕ) (card : Card) (current : CardVersion)
    (o : Observation) (db : CardDb) (here : find_where (has_card card.card_id) db.cards ≡ some card)
    (at_current : current.id ≡ record { card_id = card.card_id; version_no = card.current_version })
    (next : n ≡ card.current_version + 1) where
  abbrev moved_cards : List Card
  moved_cards = update_where (has_card card.card_id) (advanced c now n confidence) db.cards

  abbrev new_version : CardVersion
  new_version =
      version_row c now (record { card_id = card.card_id; version_no = n }) card.valid_from
        card.valid_until (some current.id) o

  new-Numbered : Numbered moved_cards new_version
  unfolding version_row advanced
  new-Numbered = record {
    card = advanced c now n confidence card;
    found = find-current c now n confidence card db.cards here;
    first = omega (arith, next);
    last = omega arith;
    closed = λ lt. absurd (omega (arith, lt));
    follows = inr (
      current.id,
      refl,
      ap (λ (z : VersionId). z.card_id) at_current,
      next ∙ ap (λ (z : VersionId). z.version_no + 1) (sym at_current),
    );
  }

  old-Numbered :
      (v : CardVersion)
      → has_version current.id v ≡ false
      → Numbered db.cards v
      → Numbered moved_cards v
  old-Numbered v miss k =
      advance-Numbered c now n confidence card db.cards here v v next k refl refl (λ s. s)
        (λ p q. absurd (
          close-hit current.id v miss (p ∙ ap (λ (z : VersionId). z.card_id) (sym at_current))
            (q ∙ ap (λ (z : VersionId). z.version_no) (sym at_current))))

  closed-Numbered :
      (v : CardVersion) → Numbered db.cards v → Numbered moved_cards (close_version now v)
  closed-Numbered v k =
      advance-Numbered c now n confidence card db.cards here v (close_version now v) next k refl
        refl (λ s. close_version-is_some now v) (λ p q. close_version-is_some now v)

  append-All :
      IsChained db
      → All (Numbered moved_cards) (
          update_where
            (has_version current.id)
            (close_version now)
            (db.versions ++ new_version ∷ []))
  append-All chained =
      All-update_where (has_version current.id) (close_version now) Known (Numbered moved_cards)
        (db.versions ++ new_version ∷ []) (λ v k e. hit v k) (λ v k e. miss v e k)
        (All-append Known db.versions (new_version ∷ [])
          (All-imp db.versions (λ v k. inl k) chained.0) (inr new-Numbered, tt))
    where
      Known : CardVersion → Type 0
      Known v = Numbered db.cards v ⊎ Numbered moved_cards v

      hit : (v : CardVersion) → Known v → Numbered moved_cards (close_version now v)
      hit v (inl k) = closed-Numbered v k
      hit v (inr k) = close-Numbered now moved_cards v k

      miss : (v : CardVersion) → has_version current.id v ≡ false → Known v → Numbered moved_cards v
      miss v e (inl k) = old-Numbered v e k
      miss v e (inr k) = k

-- The versions that an append leaves, which hold all that were there and the new one
module _ (now : ℕ) (old : VersionId) (new : CardVersion) (versions : List CardVersion) where
  abbrev appended_versions : List CardVersion
  appended_versions = update_where (has_version old) (close_version now) (versions ++ new ∷ [])

  appended-more : (v : VersionId) → is_there v versions ≡ true → is_there v appended_versions ≡ true
  appended-more v h =
      there-close v old now (versions ++ new ∷ []) (there-append_left v versions (new ∷ []) h)

  appended-new : is_there new.id appended_versions ≡ true
  appended-new = there-close new.id old now (versions ++ new ∷ []) (there-append_new versions new)

-- An append to a card, called with the card's row and the row of its current version, that does not
-- raise keeps the versions chained: each card has a version for every number from 1 to its current one, no version
-- is later than that or has no card, each supersedes the one before it, and those before the current one are
-- closed. It adds the version numbered one more than the current one, which becomes the card's current version.
pub append_version-IsChained :
    (c : CardCodec) (now : ℕ) (card : Card) (current : CardVersion) (o : Observation)
    (db db' : CardDb) (v : VersionId)
    → find_where (has_card card.card_id) db.cards ≡ some card
    → current.id ≡ record { card_id = card.card_id; version_no = card.current_version }
    → append_version c now card current o db ≡ ok (v, db')
    → IsChained db
    → IsChained db'
      × (v ≡ record { card_id = card.card_id; version_no = card.current_version + 1 })
      × ((card' : Card) × (find_where (has_card card.card_id) db'.cards ≡ some card')
          × (card'.current_version ≡ card.current_version + 1))
      × (is_there v db'.versions ≡ true)
unfolding version_row
append_version-IsChained c now card current o db db' v here at_current h chained =
    let n = current.id.version_no + 1 in
    let confidence = max card.confidence o.confidence in
    let (id_is, cards_are, versions_are) = append-tables c now card current o db db' v h in
    let next : n ≡ card.current_version + 1 = ap (λ (z : VersionId). z.version_no + 1) at_current in
    let all = append-All c now n confidence card current o db here at_current next chained in
    let id : VersionId = record { card_id = card.card_id; version_no = n } in
    let new = version_row c now id card.valid_from card.valid_until (some current.id) o in
    let complete =
      advance-HasVersions c now n confidence card db.cards here next db.versions _
        (appended-more now current.id new db.versions) (appended-new now current.id new db.versions)
        chained.1 in
    let there : is_there id db'.versions ≡ true =
      subst (λ (vs : List CardVersion). is_there id vs ≡ true) (sym versions_are)
        (appended-new now current.id new db.versions) in
    (
      (
        subst (λ (cards : List Card). All (Numbered cards) db'.versions) (sym cards_are)
            (subst
              (All (
                Numbered
                  (update_where (has_card card.card_id) (advanced c now n confidence) db.cards)))
              (sym versions_are) all),
        subst (λ (cards : List Card). All (HasVersions db'.versions) cards) (sym cards_are)
            (subst
              (λ (vs : List CardVersion).
                All (HasVersions vs)
                  (update_where (has_card card.card_id) (advanced c now n confidence) db.cards))
              (sym versions_are) complete),
      ),
      id_is ∙ ap (λ k. record { card_id = card.card_id; version_no = k }) next,
      (
        advanced c now n confidence card,
        ap (find_where (has_card card.card_id)) cards_are
            ∙ find-current c now n confidence card db.cards here,
        unfold advanced in next,
      ),
      subst (λ (w : VersionId). is_there w db'.versions ≡ true) (sym id_is) there,
    )
