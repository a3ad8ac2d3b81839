-- ===== src/Cards/Tests.antt =====
-- Transitions and versions of a concrete card, and the theorems at them.
use code_sementic_memory.Common.{
  ◌≡◌, refl, true, String, Bool, none, some, List, [], ◌∷◌, ◌++◌, ◌==◌, arith, end, find_where,
  update_where, ok, inl,
}
use code_sementic_memory.Cards.Status.{
  CardStatus, proposed, verified, superseded, Card, Lifecycle, Move, has_card,
}
use code_sementic_memory.Cards.Audit.{Accounts, run, transitions_audited, superseded_final}
use code_sementic_memory.Cards.Tables.{insert_unless, write_link}
use code_sementic_memory.Cards.Rows.{
  VersionId, CardVersion, CardDb, CardCodec, has_version, same_version,
}
use code_sementic_memory.Cards.Versions.{
  Observation, version_row, insert_version, attach, advanced, advance_card, supersedes_link,
  close_old, append_version,
}
use code_sementic_memory.Common.{elem}
use code_sementic_memory.Cards.Status.{parse_status}
use code_sementic_memory.Cards.Rows.{same_identity}
use code_sementic_memory.Cards.Versions.{NewCard, card_row, insert_named, insert_card}
use code_sementic_memory.Cards.Inserts.{Begins, insert_card-IsChained}
use code_sementic_memory.Cards.Complete.{HasVersions-first, is_there}
use code_sementic_memory.Cards.Chain.{IsChained, append_version-IsChained}

abbrev card : CardStatus → Card
card status = record {
  card_id = "card-1";
  project_id = "p";
  task_id = none;
  kind = "decision";
  canonical_key = "k";
  status = status;
  confidence = 50;
  current_version = 1;
  valid_from = none;
  valid_until = none;
  created_at = 1;
  updated_at = 1;
}

abbrev move : String → Move
move to_status = record {
  card_id = "card-1";
  to_status = to_status;
  reason = "review";
  actor = "operator";
  metadata = end;
  now = 9;
  event_id = "u";
}

abbrev blank : String → Bool
blank s = s == ""

abbrev moves : List Move
moves = move "verified" ∷ move "proposed" ∷ move "superseded" ∷ move "stable" ∷ []

abbrev one_card : CardStatus → Lifecycle
one_card status = record { cards = card status ∷ []; events = [] }

card_found :
    (status : CardStatus) → find_where (has_card "card-1") (card status ∷ []) ≡ some (card status)
unfolding find_where has_card
card_found status = refl

transitions_audited_example :
    Accounts "card-1" proposed (one_card proposed) (run blank moves (one_card proposed))
transitions_audited_example =
    transitions_audited blank moves "card-1" (one_card proposed) (card proposed)
      (card_found proposed)

superseded_final_example :
    (d : Card) × (find_where (has_card "card-1") (run blank moves (one_card superseded)).cards
      ≡ some d)
    × (d.status ≡ superseded)
superseded_final_example =
    superseded_final blank moves "card-1" (one_card superseded) (card superseded)
      (card_found superseded) refl

abbrev codec : CardCodec
codec = record {
  strip = λ s. s;
  fold = λ s. s;
  short_id = λ p parts. p;
  version_text = λ v. v.card_id;
  one = 100;
}

abbrev observed : Observation
observed = record {
  statement = "uses a new parser";
  aliases = "parser" ∷ [];
  confidence = 70;
  uncertainty = "low";
  candidate_id = "cand-2";
  evidence_event_ids = "e1" ∷ "e2" ∷ "e1" ∷ [];
  bindings = [];
  reason = "changed";
}

abbrev first_version : CardVersion
first_version = record {
  id = record { card_id = "card-1"; version_no = 1 };
  statement = "uses a parser";
  aliases = [];
  confidence = 50;
  uncertainty = "low";
  source_candidate_ids = "cand-1" ∷ [];
  valid_from = none;
  valid_until = none;
  supersedes = none;
  change_reason = "new";
  created_at = 1;
}

abbrev versioned : CardDb
versioned = record {
  cards = card verified ∷ [];
  versions = first_version ∷ [];
  evidence = [];
  links = [];
  bindings = [];
  decisions = [];
}

abbrev second_id : VersionId
second_id = record { card_id = "card-1"; version_no = 2 }

abbrev second_version : CardVersion
second_version = version_row codec 20 second_id none none (some first_version.id) observed

abbrev appended : CardDb
appended =
    let attached = write_link (supersedes_link codec 20 second_id first_version.id) (
      attach codec 20 second_id observed (
        close_old codec 20 first_version.id
          (record versioned { versions = versioned.versions ++ second_version ∷ [] }))) in
    record attached {
      cards = update_where (has_card "card-1") (advanced codec 20 2 70) attached.cards;
    }

appends :
    append_version codec 20 (card verified) first_version observed versioned
    ≡ ok (second_id, appended)
unfolding append_version insert_version insert_unless find_where has_version same_version
    advance_card version_row
appends = refl

has_first : is_there (record { card_id = "card-1"; version_no = 1 }) versioned.versions ≡ true
unfolding find_where has_version same_version
has_first = refl

versioned-IsChained : IsChained versioned
versioned-IsChained = (
  (
    record {
      card = card verified;
      found = card_found verified;
      first = omega arith;
      last = omega arith;
      closed = λ lt. absurd (omega (arith, lt));
      follows = inl (refl, refl);
    },
    tt,
  ),
  (HasVersions-first versioned.versions (card verified) refl has_first, tt),
)

append_version-IsChained_example :
    IsChained appended
    × (second_id ≡ record { card_id = "card-1"; version_no = 2 })
    × ((card' : Card) × (find_where (has_card "card-1") appended.cards ≡ some card')
        × (card'.current_version ≡ 2))
    × (is_there second_id appended.versions ≡ true)
append_version-IsChained_example =
    append_version-IsChained codec 20 (card verified) first_version observed versioned appended
      second_id (card_found verified) refl appends versioned-IsChained

abbrev new_card : NewCard
new_card = record {
  card_id = "card-2";
  project_id = "p";
  task_id = none;
  kind = "failure";
  canonical_key = "k2";
  status = "proposed";
  valid_from = none;
  valid_until = none;
}

abbrev third_id : VersionId
third_id = record { card_id = "card-2"; version_no = 1 }

abbrev inserted : CardDb
inserted = attach codec 30 third_id observed (record versioned {
  cards = versioned.cards ++ card_row codec 30 new_card proposed observed ∷ [];
  versions = versioned.versions ++ version_row codec 30 third_id none none none observed ∷ [];
})

inserts : insert_card codec 30 new_card observed versioned ≡ ok (third_id, inserted)
unfolding insert_card insert_named insert_unless insert_version elem parse_status find_where
    same_identity has_version same_version card_row version_row
inserts = refl

insert_card-IsChained_example :
    IsChained inserted × Begins codec 30 new_card observed versioned inserted third_id
insert_card-IsChained_example =
    insert_card-IsChained codec 30 new_card observed versioned inserted third_id inserts
      versioned-IsChained
