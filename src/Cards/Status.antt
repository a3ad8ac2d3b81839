-- ===== src/Cards/Status.antt =====
-- The lifecycle of a card: `CARD_STATUSES` and `transition`.
use code_sementic_memory.Common.{
  ℕ, String, Bool, true, false, Option, none, some, List, [], ◌∷◌, ◌++◌, ◌==◌, if◌then◌else◌,
  find_where, update_where, Result, ok, err, Fields,
}

pub data CardStatus : Type 0 where
  proposed verified stable uncertain stale superseded rejected : CardStatus

-- The name of a status; `none` is "unknown card status".
unfoldable pub parse_status : String → Option CardStatus
parse_status s =
    if s == "proposed"
    then some proposed
    else if s == "verified"
    then some verified
    else if s == "stable"
    then some stable
    else if s == "uncertain"
    then some uncertain
    else if s == "stale"
    then some stale
    else if s == "superseded"
    then some superseded
    else if s == "rejected"
    then some rejected
    else none

abbrev pub same_status : CardStatus → CardStatus → Bool
same_status proposed proposed = true
same_status verified verified = true
same_status stable stable = true
same_status uncertain uncertain = true
same_status stale stale = true
same_status superseded superseded = true
same_status rejected rejected = true
same_status _ _ = false

-- The dict `allowed`
unfoldable pub allowed : CardStatus → CardStatus → Bool
allowed proposed verified = true
allowed proposed stable = true
allowed proposed uncertain = true
allowed proposed rejected = true
allowed proposed stale = true
allowed verified stable = true
allowed verified stale = true
allowed verified superseded = true
allowed verified uncertain = true
allowed verified rejected = true
allowed stable stale = true
allowed stable superseded = true
allowed stable rejected = true
allowed uncertain proposed = true
allowed uncertain verified = true
allowed uncertain stable = true
allowed uncertain rejected = true
allowed uncertain stale = true
allowed stale verified = true
allowed stale stable = true
allowed stale superseded = true
allowed stale rejected = true
allowed rejected proposed = true
allowed rejected uncertain = true
allowed _ _ = false

-- `current_version` is the number in `current_version_id`; a confidence counts some fixed fraction of 1.
pub record Card : Type 0 where
  pub card_id : String
  pub project_id : String
  pub task_id : Option String
  pub kind : String
  pub canonical_key : String
  pub status : CardStatus
  pub confidence : ℕ
  pub current_version : ℕ
  pub valid_from : Option ℕ
  pub valid_until : Option ℕ
  pub created_at : ℕ
  pub updated_at : ℕ

pub record LifecycleEvent : Type 0 where
  pub lifecycle_event_id : String
  pub card_id : String
  pub from_status : CardStatus
  pub to_status : CardStatus
  pub actor : String
  pub reason : String
  pub metadata : Fields
  pub created_at : ℕ

pub record Lifecycle : Type 0 where
  pub cards : List Card
  pub events : List LifecycleEvent

pub data CardError : Type 0 where
  unknown_status : CardError
  reason_required : CardError
  illegal_transition : CardStatus → CardStatus → CardError

pub data Transition : Type 0 where
  not_found : Transition
  already_in_state : Transition
  updated : CardStatus → CardStatus → Transition

-- The arguments of `transition`, with the clock and the fresh uuid of the lifecycle event
pub record Move : Type 0 where
  pub card_id : String
  pub to_status : String
  pub reason : String
  pub actor : String
  pub metadata : Fields
  pub now : ℕ
  pub event_id : String

unfoldable pub has_card : String → Card → Bool
has_card card_id c = c.card_id == card_id

unfoldable pub set_status : ℕ → CardStatus → Card → Card
set_status now to_status c = record c { status = to_status; updated_at = now }

unfoldable pub lifecycle_event : Move → CardStatus → CardStatus → LifecycleEvent
lifecycle_event m from_status to_status = record {
  lifecycle_event_id = m.event_id;
  card_id = m.card_id;
  from_status = from_status;
  to_status = to_status;
  actor = m.actor;
  reason = m.reason;
  metadata = m.metadata;
  created_at = m.now;
}

unfoldable pub write_transition : Move → CardStatus → CardStatus → Lifecycle → Lifecycle
write_transition m from_status to_status db = record {
  cards = update_where (has_card m.card_id) (set_status m.now to_status) db.cards;
  events = db.events ++ lifecycle_event m from_status to_status ∷ [];
}

-- On the SELECT of the card
unfoldable pub transition_found :
    Move → CardStatus → Option Card → Lifecycle → Result CardError (Transition × Lifecycle)
transition_found m to_status none db = ok (not_found, db)
transition_found m to_status (some c) db =
    if same_status c.status to_status
    then ok (already_in_state, db)
    else if allowed c.status to_status
    then ok (updated c.status to_status, write_transition m c.status to_status db)
    else err (illegal_transition c.status to_status)

module _ (is_blank : String → Bool) where
  -- The checks before the transaction; `is_blank` is `not reason.strip()`.
  unfoldable pub transition_named :
      Move → Option CardStatus → Lifecycle → Result CardError (Transition × Lifecycle)
  transition_named m none db = err unknown_status
  transition_named m (some to_status) db =
      if is_blank m.reason
      then err reason_required
      else transition_found m to_status (find_where (has_card m.card_id) db.cards) db

  unfoldable pub transition : Move → Lifecycle → Result CardError (Transition × Lifecycle)
  transition m db = transition_named m (parse_status m.to_status) db
