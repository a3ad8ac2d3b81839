-- ===== src/Cards/Versions.antt =====
-- `insert_card`, `append_version` and `record_decision`, and the chain of a card's versions.
use code_sementic_memory.Common.{
  ℕ, ◌+◌, max, String, ◌||◌, Option, none, some, List, [], ◌∷◌, ◌==◌, leb, if◌then◌else◌, elem,
  find_where, update_where, Result, ok, err, ◌>>=◌, end,
}
use code_sementic_memory.Cards.Status.{CardStatus, Card, parse_status, has_card}
use code_sementic_memory.Cards.Tables.{
  insert_or_ignore, write_link, add_evidence, add_bindings, insert_unless, close_version,
  unique_strings, clamp,
}
use code_sementic_memory.Cards.Rows.{
  VersionId, CardVersion, Link, version_target, BindingInput, Decision, CardDb, StoreError,
  unsupported_kind, unsupported_status, integrity_error, CardCodec, card_kinds, has_version,
  same_identity,
}

-- The keyword arguments that `insert_card` and `append_version` share
pub record Observation : Type 0 where
  pub statement : String
  pub aliases : List String
  pub confidence : ℕ
  pub uncertainty : String
  pub candidate_id : String
  pub evidence_event_ids : List String
  pub bindings : List BindingInput
  pub reason : String

pub record NewCard : Type 0 where
  pub card_id : String
  pub project_id : String
  pub task_id : Option String
  pub kind : String
  pub canonical_key : String
  pub status : String
  pub valid_from : Option ℕ
  pub valid_until : Option ℕ

module _ (c : CardCodec) where
  unfoldable pub card_row : ℕ → NewCard → CardStatus → Observation → Card
  card_row now n status o = record {
    card_id = n.card_id;
    project_id = n.project_id;
    task_id = n.task_id;
    kind = n.kind;
    canonical_key = n.canonical_key;
    status = status;
    confidence = clamp c o.confidence;
    current_version = 1;
    valid_from = n.valid_from;
    valid_until = n.valid_until;
    created_at = now;
    updated_at = now;
  }

  unfoldable pub version_row :
      ℕ → VersionId → Option ℕ → Option ℕ → Option VersionId → Observation → CardVersion
  version_row now v valid_from valid_until supersedes o = record {
    id = v;
    statement = o.statement;
    aliases = unique_strings c [] o.aliases;
    confidence = clamp c o.confidence;
    uncertainty = o.uncertainty;
    source_candidate_ids = o.candidate_id ∷ [];
    valid_from = valid_from;
    valid_until = valid_until;
    supersedes = supersedes;
    change_reason = o.reason;
    created_at = now;
  }

  unfoldable pub insert_version : CardVersion → CardDb → Result StoreError CardDb
  insert_version v db =
      insert_unless (find_where (has_version v.id) db.versions) v db.versions >>= λ versions.
      ok (record db { versions = versions })

  -- The rows of a version's evidence and bindings
  unfoldable pub attach : ℕ → VersionId → Observation → CardDb → CardDb
  attach now v o db =
      add_bindings c now v o.bindings
        (add_evidence now v o.candidate_id o.evidence_event_ids "supports" db)

  unfoldable pub insert_named :
      ℕ
      → NewCard
      → Option CardStatus
      → Observation
      → CardDb
      → Result StoreError (VersionId × CardDb)
  insert_named now n none o db = err unsupported_status
  insert_named now n (some status) o db =
      let v : VersionId = record { card_id = n.card_id; version_no = 1 } in
      let row = card_row now n status o in
      insert_unless (find_where (same_identity row) db.cards) row db.cards >>= λ cards.
      insert_version (version_row now v n.valid_from n.valid_until none o)
        (record db { cards = cards })
      >>= λ db'. ok (v, attach now v o db')

  -- `insert_card`
  unfoldable pub insert_card :
      ℕ → NewCard → Observation → CardDb → Result StoreError (VersionId × CardDb)
  insert_card now n o db =
      if elem n.kind card_kinds
      then insert_named now n (parse_status n.status) o db
      else err unsupported_kind

  -- The last UPDATE of `append_version`; the CHECK on the confidence refuses more than 1.
  unfoldable pub advanced : ℕ → ℕ → ℕ → Card → Card
  advanced now version_no confidence card = record card {
    current_version = version_no;
    confidence = confidence;
    updated_at = now;
  }

  unfoldable pub advance_card : ℕ → Card → ℕ → ℕ → CardDb → Result StoreError CardDb
  advance_card now card version_no confidence db =
      if leb confidence c.one
      then ok (record db {
        cards = update_where (has_card card.card_id) (advanced now version_no confidence) db.cards;
      })
      else err integrity_error

  unfoldable pub supersedes_link : ℕ → VersionId → VersionId → Link
  supersedes_link now v old = record {
    version = v;
    target = version_target old;
    relation_type = "supersedes";
    metadata = end;
    created_at = now;
  }

  unfoldable pub close_old : ℕ → VersionId → CardDb → CardDb
  close_old now old db = record db {
    versions = update_where (has_version old) (close_version now) db.versions;
  }

  -- `append_version`, on the rows of the card and of its current version
  unfoldable pub append_version :
      ℕ → Card → CardVersion → Observation → CardDb → Result StoreError (VersionId × CardDb)
  append_version now card current o db =
      let v : VersionId = record {
        card_id = card.card_id;
        version_no = current.id.version_no + 1;
      } in
      insert_version (version_row now v card.valid_from card.valid_until (some current.id) o) db
      >>= λ db'.
          advance_card now card v.version_no (max card.confidence o.confidence) (
            write_link (supersedes_link now v current.id)
              (attach now v o (close_old now current.id db')))
          >>= λ db''. ok (v, db'')

  -- `record_decision`; the id of the row is that of its key.
  unfoldable pub record_decision : Decision → CardDb → String × CardDb
  record_decision d db =
      let id = c.short_id "decision" (d.decision_key ∷ []) in
      (
        id,
        record db {
          decisions =
              insert_or_ignore (λ e. e.decision_id == id || e.decision_key == d.decision_key)
                (record d { decision_id = id }) db.decisions;
        },
      )
