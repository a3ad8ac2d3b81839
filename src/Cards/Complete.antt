-- ===== src/Cards/Complete.antt =====
-- No version of a card is missing.
use code_sementic_memory.Common.{
  ℕ, ◌+◌, ◌≤◌, ◌≡◌, refl, subst, Bool, true, false≢true, some, List, [], ◌∷◌, ◌++◌, eqb, is_some,
  arith, eq_refl, ==-eq, Bool-cases, Option-cases, inl, inr, All, All-update_where, All-find_where,
  find_where, find_where-append, find_where-extend, find_where-update_where, update_where,
}
use code_sementic_memory.Cards.Status.{Card, has_card}
use code_sementic_memory.Cards.Tables.{close_version}
use code_sementic_memory.Cards.Rows.{CardCodec, CardVersion, VersionId, has_version, same_version}
use code_sementic_memory.Cards.Versions.{advanced}

-- A version with the id is in the table.
abbrev pub is_there : VersionId → List CardVersion → Bool
is_there v versions = is_some (find_where (has_version v) versions)

pub there-append_left :
    (v : VersionId) (xs ys : List CardVersion) → is_there v xs ≡ true → is_there v (xs ++ ys) ≡ true
there-append_left v xs ys h = elim (Option-cases (find_where (has_version v) xs)) [
  | inl e ↦ absurd (false≢true (rw e at h))
  | inr (x, e) ↦ rw (find_where-extend (has_version v) xs ys x e) refl
]

version-own : (w : CardVersion) → has_version w.id w ≡ true
unfolding has_version same_version
version-own w = ground (arith, eq_refl w.id.card_id)

pub there-append_new :
    (xs : List CardVersion) (w : CardVersion) → is_there w.id (xs ++ w ∷ []) ≡ true
unfolding find_where
there-append_new xs w = elim (Option-cases (find_where (has_version w.id) xs)) [
  | inl e ↦ rw (find_where-append (has_version w.id) xs (w ∷ []) e) (rw (version-own w) refl)
  | inr (x, e) ↦ rw (find_where-extend (has_version w.id) xs (w ∷ []) x e) refl
]

pub there-close :
    (v old : VersionId) (now : ℕ) (xs : List CardVersion)
    → is_there v xs ≡ true
    → is_there v (update_where (has_version old) (close_version now) xs) ≡ true
unfolding has_version
there-close v old now xs h = elim (Option-cases (find_where (has_version v) xs)) [
  | inl e ↦ absurd (false≢true (rw e at h))
  | inr (x, e) ↦
      rw
        (find_where-update_where (has_version v) (has_version old) (close_version now) xs
          (λ z. refl))
        (rw e refl)
]

-- Every number from 1 to the card's current one is that of one of its versions.
pub record HasVersions (versions : List CardVersion) (card : Card) : Type 0 where
  pub first : 1 ≤ card.current_version
  pub each :
      (k : ℕ)
      → 1 ≤ k
      → k ≤ card.current_version
      → is_there (record { card_id = card.card_id; version_no = k }) versions ≡ true

pub HasVersions-more :
    (xs ys : List CardVersion) (card : Card)
    → ((v : VersionId) → is_there v xs ≡ true → is_there v ys ≡ true)
    → HasVersions xs card
    → HasVersions ys card
HasVersions-more xs ys card more h = record {
  first = h.first;
  each = λ k a b. more (record { card_id = card.card_id; version_no = k }) (h.each k a b);
}

-- A card with only its first version
pub HasVersions-first :
    (versions : List CardVersion) (card : Card)
    → card.current_version ≡ 1
    → is_there (record { card_id = card.card_id; version_no = 1 }) versions ≡ true
    → HasVersions versions card
HasVersions-first versions card one h = record {
  first = omega (arith, one);
  each = λ k a b.
      let q : 1 ≡ k = omega (arith, a, b, one) in
      subst (λ n. is_there (record { card_id = card.card_id; version_no = n }) versions ≡ true) q h;
}

-- The cards after an append
module _ (c : CardCodec) (now n confidence : ℕ) (card : Card) (cards : List Card)
    (here : find_where (has_card card.card_id) cards ≡ some card)
    (next : n ≡ card.current_version + 1) (xs ys : List CardVersion)
    (more : (v : VersionId) → is_there v xs ≡ true → is_there v ys ≡ true)
    (new : is_there (record { card_id = card.card_id; version_no = n }) ys ≡ true) where
  advanced-HasVersions :
      (k : Card)
      → k.card_id ≡ card.card_id
      → HasVersions xs card
      → HasVersions ys (advanced c now n confidence k)
  unfolding advanced
  advanced-HasVersions k own h = record {
    first = omega (arith, next);
    each = λ j a b. rw own (elim (Bool-cases (eqb j n)) [
      | inl e ↦
          let q : n ≡ j = ground (arith, e) in
          subst (λ i. is_there (record { card_id = card.card_id; version_no = i }) ys ≡ true) q new
      | inr e ↦
          more (record { card_id = card.card_id; version_no = j })
            (h.each j a (ground (arith, e, b, next)))
    ]);
  }

  pub advance-HasVersions :
      All (HasVersions xs) cards
      → All
          (HasVersions ys)
          (update_where (has_card card.card_id) (advanced c now n confidence) cards)
  unfolding has_card
  advance-HasVersions all =
      let own = All-find_where (has_card card.card_id) (HasVersions xs) cards card here all in
      All-update_where (has_card card.card_id) (advanced c now n confidence) (HasVersions xs)
        (HasVersions ys) cards (λ k h e. advanced-HasVersions k (==-eq _ _ e) own)
        (λ k h e. HasVersions-more xs ys k more h) all
