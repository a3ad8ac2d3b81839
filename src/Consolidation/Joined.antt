-- ===== src/Consolidation/Joined.antt =====
-- Every match is a card of the table with its current version.
use code_sementic_memory.Common.{
  ◌≡◌, ◌≢◌, refl, String, Bool, true, Option, none, some, List, [], ◌∷◌, ◌==◌, arith, leb,
  if◌then◌else◌, Bool-cases, inl, inr, All, All-imp, All-take, All-filter_where, Unique, &&-both,
  find_where, find_where-holds, filter_where, eq_iff, eq_refl,
}
use code_sementic_memory.Cards.Status.{Card, has_card}
use code_sementic_memory.Cards.Rows.{
  Binding, CardCodec, CardDb, CardVersion, VersionId, has_version, same_version,
}
use code_sementic_memory.Consolidation.Rows.{Candidate}
use code_sementic_memory.Consolidation.Scores.{
  Policy, binding_targets, insert_sorted, is_empty, sorted,
}
use code_sementic_memory.Consolidation.Matches.{
  CardRow, candidate_rows, capped, current_id, find_matches, is_eligible, is_targeted, join_version,
  match_before, match_of, matching, minimum, narrowed, version_targets,
}
use code_sementic_memory.Consolidation.Sound.{card_key}

abbrev pub Joined : List Card → CardRow → Type 0
Joined cards row =
    (find_where (has_card row.card.card_id) cards ≡ some row.card)
    × (row.version.id ≡ current_id row.card)

has_version-eq : (v : VersionId) (x : CardVersion) → has_version v x ≡ true → x.id ≡ v
unfolding has_version same_version
has_version-eq v x h =
    let (same_card, same_no) = &&-both _ _ h in
    let q : x.id.card_id ≡ v.card_id = (eq_iff x.id.card_id v.card_id).0 same_card in
    let n : x.id.version_no ≡ v.version_no = ground (arith, same_no) in ground (arith, q, n)

found_behind :
    (k : Card) (cards : List Card)
    → All (λ y. card_key k ≢ card_key y) cards
    → All (λ y. find_where (has_card y.card_id) cards ≡ some y) cards
    → All (λ y. find_where (has_card y.card_id) (k ∷ cards) ≡ some y) cards
unfolding find_where has_card
found_behind k cards apart found =
    All-imp cards
      (λ y f. elim (Bool-cases (k.card_id == y.card_id)) [
        | inl e ↦ absurd (f.0 ((eq_iff k.card_id y.card_id).0 e))
        | inr e ↦ rw e f.1
      ])
      (pairs cards apart found)
  where
    pairs :
        (xs : List Card)
        → All (λ y. card_key k ≢ card_key y) xs
        → All (λ y. find_where (has_card y.card_id) cards ≡ some y) xs
        → All (λ y. (card_key k ≢ card_key y) × (find_where (has_card y.card_id) cards ≡ some y)) xs
    pairs [] a f = tt
    pairs (x ∷ xs) a f = ((a.0, f.0), pairs xs a.1 f.1)

unique-found :
    (cards : List Card)
    → Unique card_key cards
    → All (λ k. find_where (has_card k.card_id) cards ≡ some k) cards
unfolding find_where has_card
unique-found [] u = tt
unique-found (k ∷ cards) u =
    (rw (eq_refl k.card_id) refl, found_behind k cards u.0 (unique-found cards u.1))

join_version-Joined :
    (all : List Card) (card : Card) (o : Option CardVersion) (versions : List CardVersion)
    (rest : List CardRow)
    → find_where (has_card card.card_id) all ≡ some card
    → find_where (has_version (current_id card)) versions ≡ o
    → All (Joined all) rest
    → All (Joined all) (join_version card o rest)
unfolding join_version
join_version-Joined all card none versions rest f e h = h
join_version-Joined all card (some v) versions rest f e h =
    ((f, has_version-eq (current_id card) v (find_where-holds _ versions v e)), h)

candidate_rows-Joined :
    (d : Candidate) (versions : List CardVersion) (all cards : List Card)
    → All (λ k. find_where (has_card k.card_id) all ≡ some k) cards
    → All (Joined all) (candidate_rows d versions cards)
unfolding candidate_rows
candidate_rows-Joined d versions all [] f = tt
candidate_rows-Joined d versions all (k ∷ cards) f = elim (Bool-cases (is_eligible d k)) [
  | inl e ↦ rw e (
      join_version-Joined all k (find_where (has_version (current_id k)) versions) versions _ f.0
        refl (candidate_rows-Joined d versions all cards f.1))
  | inr e ↦ rw e (candidate_rows-Joined d versions all cards f.1)
]

narrowed-All :
    (P : CardRow → Type 0) (targets : List String) (bindings : List Binding) (rows : List CardRow)
    → All P rows
    → All P (narrowed targets bindings rows)
unfolding narrowed
narrowed-All P targets bindings rows h =
    chosen (filter_where (is_targeted targets bindings) rows)
      (All-filter_where (is_targeted targets bindings) P P rows (λ x k e. k) h)
  where
    chosen :
        (xs : List CardRow)
        → All P xs
        → All P (elim xs [ [] ↦ rows | x ∷ xs ↦ if is_empty targets then rows else x ∷ xs ])
    chosen [] k = h
    chosen (x ∷ xs) k = elim (Bool-cases (is_empty targets)) [ inl e ↦ rw e h | inr e ↦ rw e k ]

module _ {A : Type 0} (before : A → A → Bool) (P : A → Type 0) where
  insert_sorted-All : (x : A) (ys : List A) → P x → All P ys → All P (insert_sorted before x ys)
  unfolding insert_sorted
  insert_sorted-All x [] h k = (h, tt)
  insert_sorted-All x (y ∷ ys) h k = elim (Bool-cases (before y x)) [
    | inl e ↦ rw e (k.0, insert_sorted-All x ys h k.1)
    | inr e ↦ rw e (h, k)
  ]

  sorted-All : (xs : List A) → All P xs → All P (sorted before xs)
  unfolding sorted
  sorted-All [] h = tt
  sorted-All (x ∷ xs) h = insert_sorted-All x (sorted before xs) h.0 (sorted-All xs h.1)

module _ (p : Policy) (c : CardCodec) (d : Candidate) where
  matching-All :
      (P : CardRow → Type 0) (bindings : List Binding) (rows : List CardRow)
      → All P rows
      → All (λ m. P m.row) (matching p c d bindings rows)
  unfolding matching match_of capped
  matching-All P bindings [] h = tt
  matching-All P bindings (row ∷ rows) h =
      elim (Bool-cases (
        leb (minimum p c (binding_targets p c d.bindings) (version_targets row.version.id bindings))
          (match_of p c d bindings row).score)) [
            | inl e ↦ rw e (h.0, matching-All P bindings rows h.1)
            | inr e ↦ rw e (matching-All P bindings rows h.1)
          ]

  pub find_matches-Joined :
      (db : CardDb)
      → Unique card_key db.cards
      → All (λ m. Joined db.cards m.row) (find_matches p c d db)
  unfolding find_matches
  find_matches-Joined db u =
      All-take (λ m. Joined db.cards m.row) 8 _
        (sorted-All match_before (λ m. Joined db.cards m.row) _
          (matching-All (Joined db.cards) db.bindings _ (
            narrowed-All (Joined db.cards) (binding_targets p c d.bindings) db.bindings _
              (candidate_rows-Joined d db.versions db.cards db.cards (unique-found db.cards u)))))
