-- ===== src/Consolidation/Promotion.antt =====
-- `promote_card` on a card of each status.
use code_sementic_memory.Common.{
  ◌≡◌, String, Bool, true, false, some, [], ◌∷◌, ◌++◌, ◌==◌, find_where, Evolves,
}
use code_sementic_memory.Cards.Status.{
  Card, CardStatus, Lifecycle, Move, LifecycleEvent, has_card, proposed, stable, stale, uncertain,
  verified,
}
use code_sementic_memory.Consolidation.Runs.{promotion_target}

-- The status that a promotion leads to; `none` where it is illegal
abbrev pub promotes_to : CardStatus → CardStatus × Bool
promotes_to proposed = (stable, true)
promotes_to verified = (stable, true)
promotes_to uncertain = (stable, true)
promotes_to stale = (verified, true)
promotes_to _ = (verified, false)

abbrev pub target_move : Move → CardStatus → Move
target_move m s = record m { to_status = promotion_target s }

-- Cards with another id are as they were.
abbrev pub OthersStay : String → Card → Card → Type 0
OthersStay id j k = (j.card_id == id) ≡ false → k ≡ j

-- What a promotion to a status does
abbrev pub Promoted : Move → Lifecycle → Card → CardStatus → Lifecycle → Type 0
Promoted m db card to db' =
    ((k : Card) × (find_where (has_card m.card_id) db'.cards ≡ some k)
      × (k.status ≡ to)
      × (k.current_version ≡ card.current_version))
    × Evolves (OthersStay m.card_id) (λ k. ⊥) db.cards db'.cards
    × ((e : LifecycleEvent) × (db'.events ≡ db.events ++ e ∷ [])
        × (e.card_id ≡ m.card_id)
        × (e.from_status ≡ card.status)
        × (e.to_status ≡ to)
        × (e.reason ≡ m.reason))
