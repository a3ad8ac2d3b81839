-- ===== src/Cards/Audit.antt =====
-- The lifecycle events of a card account for its status.
use mathlib.Core.Option.{some-injective}
use code_sementic_memory.Common.{
  ℕ, ◌≡◌, refl, sym, ap, ◌∙◌, subst, String, Bool, true, false, ◌&&◌, Option, none, some, List, [],
  ◌∷◌, ◌++◌, ◌==◌, if◌then◌else◌, Bool-cases, inl, inr, arith, eq_iff, find_where, find_where-holds,
  find_where-update_where, update_where, Result, ok, err,
}
use code_sementic_memory.Cards.Status.{
  CardStatus, proposed, verified, stable, uncertain, stale, superseded, rejected, same_status,
  allowed, Card, LifecycleEvent, Lifecycle, CardError, Transition, Move, parse_status, has_card,
  set_status, lifecycle_event, write_transition, transition_found, transition_named, transition,
}

-- The status of a card after the events that are about it; `none` where one does not start from the
-- status before it, or where its step is not allowed.
unfoldable pub replay : String → CardStatus → List LifecycleEvent → Option CardStatus
replay card_id s [] = some s
replay card_id s (e ∷ es) =
    let others = replay card_id s es in
    let moved = replay card_id e.to_status es in
    if e.card_id == card_id
    then (if same_status e.from_status s && allowed s e.to_status then moved else none)
    else others

abbrev pub after : Result CardError (Transition × Lifecycle) → Lifecycle → Lifecycle
after (ok (t, db')) db = db'
after (err e) db = db

-- Calls of `transition`; one that raises changes nothing.
unfoldable pub run : (String → Bool) → List Move → Lifecycle → Lifecycle
run is_blank [] db = db
run is_blank (m ∷ ms) db = run is_blank ms (after (transition is_blank m db) db)

-- A step of the tables: nothing, or one event for a card that is there, along an allowed edge
pub data Step (db db' : Lifecycle) : Type 0 where
  unchanged : db' ≡ db → Step db db'
  moves :
      (m : Move) (c : Card) (to_status : CardStatus)
      → find_where (has_card m.card_id) db.cards ≡ some c
      → allowed c.status to_status ≡ true
      → db' ≡ write_transition m c.status to_status db
      → Step db db'

found-Step :
    (m : Move) (to_status : CardStatus) (o : Option Card) (db : Lifecycle)
    → find_where (has_card m.card_id) db.cards ≡ o
    → Step db (after (transition_found m to_status o db) db)
unfolding transition_found
found-Step m to_status none db f = unchanged refl
found-Step m to_status (some c) db f = elim (Bool-cases (same_status c.status to_status)) [
  | inl s ↦ rw s (unchanged refl)
  | inr s ↦ elim (Bool-cases (allowed c.status to_status)) [
    | inl a ↦ rw (s, a) (moves m c to_status f a refl)
    | inr a ↦ rw (s, a) (unchanged refl)
  ]
]

named-Step :
    (is_blank : String → Bool) (m : Move) (o : Option CardStatus) (db : Lifecycle)
    → Step db (after (transition_named is_blank m o db) db)
unfolding transition_named
named-Step is_blank m none db = unchanged refl
named-Step is_blank m (some s) db = elim (Bool-cases (is_blank m.reason)) [
  | inl b ↦ rw b (unchanged refl)
  | inr b ↦ rw b (found-Step m s _ db refl)
]

transition-Step :
    (is_blank : String → Bool) (m : Move) (db : Lifecycle)
    → Step db (after (transition is_blank m db) db)
unfolding transition
transition-Step is_blank m db = named-Step is_blank m (parse_status m.to_status) db

same_status_refl : (s : CardStatus) → same_status s s ≡ true
same_status_refl proposed = refl
same_status_refl verified = refl
same_status_refl stable = refl
same_status_refl uncertain = refl
same_status_refl stale = refl
same_status_refl superseded = refl
same_status_refl rejected = refl

find-moved :
    (now : ℕ) (to_status : CardStatus) (i j : String) (cards : List Card) (c : Card)
    → find_where (has_card j) cards ≡ some c
    → find_where (has_card j) (update_where (has_card i) (set_status now to_status) cards)
      ≡ some (if has_card i c then set_status now to_status c else c)
unfolding has_card set_status
find-moved now to_status i j cards c f =
    find_where-update_where (has_card j) (has_card i) (set_status now to_status) cards (λ x. refl)
    ∙ rw f refl

-- What the events that are new say of a card
abbrev pub Accounts : String → CardStatus → Lifecycle → Lifecycle → Type 0
Accounts card_id s db db' =
    (new : List LifecycleEvent) × (c : Card) × (db'.events ≡ db.events ++ new)
    × (find_where (has_card card_id) db'.cards ≡ some c)
    × (replay card_id s new ≡ some c.status)

append-cons :
    {A : Type 0} → (xs : List A) (y : A) (ys : List A) → (xs ++ y ∷ []) ++ ys ≡ xs ++ y ∷ ys
append-cons [] y ys = refl
append-cons (x ∷ xs) y ys = ap (λ t. x ∷ t) (append-cons xs y ys)

append-[] : {A : Type 0} → (xs : List A) → xs ≡ xs ++ []
append-[] [] = refl
append-[] (x ∷ xs) = ap (λ t. x ∷ t) (append-[] xs)

-- An event for another card is passed over, one for this card starts from its status.
replay-event :
    (card_id : String) (m : Move) (b c : Card) (to_status s : CardStatus) (cards : List Card)
    (new : List LifecycleEvent)
    → find_where (has_card m.card_id) cards ≡ some b
    → find_where (has_card card_id) cards ≡ some c
    → allowed b.status to_status ≡ true
    → replay card_id (if has_card m.card_id c then set_status m.now to_status c else c).status new
      ≡ some s
    → replay card_id c.status (lifecycle_event m b.status to_status ∷ new) ≡ some s
unfolding replay lifecycle_event has_card set_status
replay-event card_id m b c to_status s cards new fb fc ok_move p =
    let own : c.card_id ≡ card_id =
      (eq_iff c.card_id card_id).0 (find_where-holds (has_card card_id) cards c fc) in
    elim (Bool-cases (m.card_id == card_id)) [
      | inl e ↦
          let same_id = (eq_iff m.card_id card_id).0 e in
          let same : b ≡ c =
            some-injective _ _ (sym fb ∙ ap (λ j. find_where (has_card j) cards) same_id ∙ fc) in
          let hit : (c.card_id == m.card_id) ≡ true =
            (eq_iff c.card_id m.card_id).1 (own ∙ sym same_id) in
          rw e (
            rw
              (
                ap (λ (z : Card). z.status) same,
                same_status_refl c.status,
                subst (λ (z : Card). allowed z.status to_status ≡ true) same ok_move,
              )
              (rw hit at p))
      | inr e ↦
          let missed : (c.card_id == m.card_id) ≡ false =
            ground (arith, e, own, eq_iff c.card_id m.card_id, eq_iff m.card_id card_id) in
          rw e (rw missed at p)
    ]

module _ (card_id : String) (db : Lifecycle) (c : Card)
    (found : find_where (has_card card_id) db.cards ≡ some c) where
  -- After a step the card is still there; the later events, put behind the step's, account for it.
  step-Accounts :
      (db1 db2 : Lifecycle)
      → Step db db1
      → ((d : Card)
          → find_where (has_card card_id) db1.cards ≡ some d
          → Accounts card_id d.status db1 db2)
      → Accounts card_id c.status db db2
  unfolding write_transition replay lifecycle_event
  step-Accounts db1 db2 (unchanged q) rest =
      let (new, d, e, f, p) = rest c (rw q found) in
      (new, d, e ∙ ap (λ (z : Lifecycle). z.events ++ new) q, f, p)
  step-Accounts db1 db2 (moves m b to_status at_move ok_move q) rest =
      let later = find-moved m.now to_status m.card_id card_id db.cards c found in
      let found1 : find_where (has_card card_id) db1.cards
          ≡ some (if has_card m.card_id c then set_status m.now to_status c else c) =
        ap (λ (z : Lifecycle). find_where (has_card card_id) z.cards) q ∙ later in
      let (new, d, e, f, p) = rest _ found1 in
      let log : db2.events ≡ db.events ++ lifecycle_event m b.status to_status ∷ new =
        e
        ∙ ap (λ (z : Lifecycle). z.events ++ new) q
        ∙ append-cons db.events (lifecycle_event m b.status to_status) new in
      (
        lifecycle_event m b.status to_status ∷ new,
        d,
        log,
        f,
        replay-event card_id m b c to_status d.status db.cards new at_move found ok_move p,
      )

-- Whatever transitions are asked for, a card that is there stays, and the lifecycle events that the
-- calls add account for its status: those that are about it form a chain from the status it had to the
-- status it has, each from the status before it along a transition that is allowed.
pub transitions_audited :
    (is_blank : String → Bool) (ms : List Move) (card_id : String) (db : Lifecycle) (c : Card)
    → find_where (has_card card_id) db.cards ≡ some c
    → Accounts card_id c.status db (run is_blank ms db)
unfolding run replay
transitions_audited is_blank [] card_id db c found = ([], c, append-[] db.events, found, refl)
transitions_audited is_blank (m ∷ ms) card_id db c found =
    let db1 = after (transition is_blank m db) db in
    step-Accounts card_id db c found db1 (run is_blank ms db1) (transition-Step is_blank m db)
      (λ d f. transitions_audited is_blank ms card_id db1 d f)

replay-superseded :
    (card_id : String) (es : List LifecycleEvent) (s : CardStatus)
    → replay card_id superseded es ≡ some s
    → s ≡ superseded
unfolding replay allowed
replay-superseded card_id [] s h = sym (some-injective _ _ h)
replay-superseded card_id (e ∷ es) s h = elim (Bool-cases (e.card_id == card_id)) [
  | inl own ↦ elim (Bool-cases (same_status e.from_status superseded)) [
    | inl t ↦ absurd (ground (arith, rw (own, t) at h))
    | inr t ↦ absurd (ground (arith, rw (own, t) at h))
  ]
  | inr other ↦ replay-superseded card_id es s (rw other at h)
]

-- No sequence of transitions brings a superseded card back: it is still there and still superseded.
pub superseded_final :
    (is_blank : String → Bool) (ms : List Move) (card_id : String) (db : Lifecycle) (c : Card)
    → find_where (has_card card_id) db.cards ≡ some c
    → c.status ≡ superseded
    → (d : Card) × (find_where (has_card card_id) (run is_blank ms db).cards ≡ some d)
      × (d.status ≡ superseded)
superseded_final is_blank ms card_id db c found s =
    let (new, d, log, f, p) = transitions_audited is_blank ms card_id db c found in
    (d, f, replay-superseded card_id new d.status (rw s at p))
