-- ===== src/Consolidation/Audited.antt =====
-- The statuses that the consolidator changes, against the lifecycle events that it writes.
use code_sementic_memory.Common.{
  ◌≡◌, refl, sym, ap, ◌∙◌, subst, String, Bool, true, ◌&&◌, some, List, [], ◌∷◌, ◌++◌, ◌==◌, arith,
  Option-cases, inl, inr, ◌⊎◌, find_where, find_where-extend, find_where-append, Kept, Kept-append,
  Kept-refl,
}
use mathlib.Core.List.{append_assoc, append-nil}
use code_sementic_memory.Cards.Status.{
  Card, CardStatus, LifecycleEvent, has_card, same_status, uncertain,
}
use code_sementic_memory.Consolidation.Rows.{ConsolidationDb}
use code_sementic_memory.Consolidation.Actions.{is_trusted}
use code_sementic_memory.Consolidation.Sound.{Grows}

-- A lifecycle event that demotes the card from the status
abbrev pub is_demotion_of : String → CardStatus → LifecycleEvent → Bool
is_demotion_of id s e =
    e.card_id == id && (same_status e.from_status s && same_status e.to_status uncertain)

-- The status of a card is what it was, or it fell from verified or stable to uncertain, and an event says so.
abbrev pub Demoted : List LifecycleEvent → Card → Card → Type 0
Demoted log a b =
    (b.card_id ≡ a.card_id)
    × ((b.status ≡ a.status)
        ⊎ ((is_trusted a.status ≡ true)
            × (b.status ≡ uncertain)
            × ((e : LifecycleEvent) × (find_where (is_demotion_of a.card_id a.status) log
                  ≡ some e))))

pub record Audited (db db' : ConsolidationDb) : Type 0 where
  pub new : List LifecycleEvent
  pub appended : db'.lifecycle ≡ db.lifecycle ++ new
  pub kept : Kept has_card (Demoted new) db.tables.cards db'.tables.cards

find-behind :
    (p : LifecycleEvent → Bool) (xs ys : List LifecycleEvent) (e : LifecycleEvent)
    → find_where p ys ≡ some e
    → (e' : LifecycleEvent) × (find_where p (xs ++ ys) ≡ some e')
find-behind p xs ys e h = elim (Option-cases (find_where p xs)) [
  | inl none_before ↦ (e, find_where-append p xs ys none_before ∙ h)
  | inr (x, found) ↦ (x, find_where-extend p xs ys x found)
]

Demoted-trans :
    (xs ys : List LifecycleEvent) (a b d : Card)
    → Demoted xs a b
    → Demoted ys b d
    → Demoted (xs ++ ys) a d
Demoted-trans xs ys a b d (i, inl s) (j, inl t) = (j ∙ i, inl (t ∙ s))
Demoted-trans xs ys a b d (i, inr (trusted, s, (e, f))) (j, inl t) = (
  j ∙ i,
  inr (trusted, t ∙ s, (e, find_where-extend (is_demotion_of a.card_id a.status) xs ys e f)),
)
Demoted-trans xs ys a b d (i, inl s) (j, inr (trusted, t, (e, f))) = (
  j ∙ i,
  inr (
    rw (← s) trusted,
    t,
    find-behind (is_demotion_of a.card_id a.status) xs ys e (
        subst (λ (z : CardStatus). find_where (is_demotion_of a.card_id z) ys ≡ some e) s
          (subst (λ (z : String). find_where (is_demotion_of z b.status) ys ≡ some e) i f)),
  ),
)
Demoted-trans xs ys a b d (i, inr (trusted, s, f)) (j, inr (again, t, g)) =
    absurd (untrusted (ap is_trusted (sym s) ∙ again))
  where
    untrusted : is_trusted uncertain ≡ true → ⊥
    untrusted q = ground (arith, q)

pub Audited-trans : (a b d : ConsolidationDb) → Audited a b → Audited b d → Audited a d
Audited-trans a b d r s = record {
  new = r.new ++ s.new;
  appended =
      s.appended
      ∙ ap (λ (z : List LifecycleEvent). z ++ s.new) r.appended
      ∙ append_assoc a.lifecycle r.new s.new;
  kept = λ k x e.
      let (y, f, m) = r.kept k x e in
      let (z, g, n) = s.kept k y f in (z, g, Demoted-trans r.new s.new x y z m n);
}

-- Writes that add no lifecycle event
pub quiet :
    (db db' : ConsolidationDb)
    → db'.lifecycle ≡ db.lifecycle
    → Kept has_card (Demoted []) db.tables.cards db'.tables.cards
    → Audited db db'
quiet db db' same kept = record {
  new = [];
  appended = same ∙ sym (append-nil db.lifecycle);
  kept = kept;
}

pub Demoted-refl : (log : List LifecycleEvent) (k : Card) → Demoted log k k
Demoted-refl log k = (refl, inl refl)

pub Grows-Kept :
    (cards cards' : List Card) → Grows cards cards' → Kept has_card (Demoted []) cards cards'
Grows-Kept cards cards' (inl e) =
    subst (Kept has_card (Demoted []) cards) (sym e)
      (Kept-refl has_card (Demoted []) (Demoted-refl []) cards)
Grows-Kept cards cards' (inr (k, e)) =
    subst (Kept has_card (Demoted []) cards) (sym e)
      (Kept-append has_card (Demoted []) (Demoted-refl []) cards (k ∷ []))

pub Audited-refl : (db : ConsolidationDb) → Audited db db
Audited-refl db =
    quiet db db refl (Kept-refl has_card (Demoted []) (Demoted-refl []) db.tables.cards)
