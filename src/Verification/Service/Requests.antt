-- ===== src/Verification/Service/Requests.antt =====
-- What `verify` reads: the request, `_providers`, `_is_project_j`, the snapshots and `list_current_bindings`.
use code_sementic_memory.Common.{
  ℕ, max, min, String, Bool, true, false, ◌&&◌, ◌||◌, not, Option, none, some, List, [], ◌∷◌, ◌++◌,
  ◌==◌, if◌then◌else◌, eqb, ltb, elem, take, filter_where, find_where, is_some,
}
use code_sementic_memory.Cards.Status.{Card, has_card}
use code_sementic_memory.Cards.Rows.{Binding, CardDb, has_version}
use code_sementic_memory.Consolidation.Scores.{is_empty, sorted, text_lt}
use code_sementic_memory.Consolidation.Matches.{is_active}
use code_sementic_memory.Consolidation.Actions.{nonempty}
use code_sementic_memory.Verification.Manifests.{Manifest, Texts, coverage, is_ready}
use code_sementic_memory.Verification.Merge.{manifest_before, merge}
use code_sementic_memory.Verification.Evaluation.{PathTests, Subject, Verification, is_usable}
use code_sementic_memory.Verification.Runs.{
  Mode, Run, RunCounts, Snapshot, dry_run, ensure_snapshot, write,
}
use code_sementic_memory.Verification.Results.{Check, Numbers}

pub record Project : Type 0 where
  pub logical_project_id : String
  pub identity_key : String
  pub display_name : String

pub record VerifyDb : Type 0 where
  pub tables : CardDb
  pub checks : List Check
  pub runs : List Run
  pub snapshots : List Snapshot

-- The arguments of `verify` that it reads itself, with the clock, the fresh id of the run, and the raw projects
-- of the logical project
pub record VerifyRequest : Type 0 where
  pub logical_project_id : String
  pub manifests : List Manifest
  pub raw_ids : List String
  pub task_id : Option String
  pub task_ids : List String
  pub limit : ℕ
  pub include_quarantine : Bool
  pub mode : Mode
  pub now : ℕ
  pub run_id : String
  pub input_hash : String

pub data Outcome : Type 0 where
  not_applicable : Outcome
  succeeded_with : RunCounts → List Verification → Outcome
  raised : String → Outcome

-- What is asked of texts, hashes and other tables: `_manifest_is_project_j`, the id of the Project_J project,
-- the display name without blanks, the id of a snapshot, whether a card has a quarantined candidate, and the type and text of an exception that the
-- evaluation of the bindings raises
pub record Env : Type 0 where
  pub texts : Texts
  pub path_tests : PathTests
  pub numbers : Numbers
  pub manifest_is_project_j : Manifest → Bool
  pub project_j_id : String
  pub unspaced : String → String
  pub snapshot_id : String → Manifest → String
  pub is_quarantined : String → Bool
  pub stale_message : String
  pub evaluation_error : List Binding → Option String

abbrev pub project_j_names : List String
project_j_names = "project_j" ∷ "projectj" ∷ []

abbrev pub project_j_identities : List String
project_j_identities = "name:project_j" ∷ "name:projectj" ∷ []

-- The time of the last change of the binding's card
unfoldable pub card_time : List Card → Binding → ℕ
card_time cards b = elim (find_where (has_card b.version.card_id) cards) [
  | none ↦ 0
  | some card ↦ card.updated_at
]

-- ORDER BY c.updated_at DESC, b.binding_id
unfoldable pub binding_before : List Card → Binding → Binding → Bool
binding_before cards a b =
    ltb (card_time cards b) (card_time cards a)
    || (eqb (card_time cards a) (card_time cards b) && text_lt a.binding_id b.binding_id)

abbrev pub is_write : Mode → Bool
is_write write = true
is_write dry_run = false

abbrev pub subject : Binding → Subject
subject b = record {
  binding_id = b.binding_id;
  target = record { path = b.path; symbol = b.symbol; qualified_symbol = b.qualified_symbol };
}

module _ (e : Env) where
  -- `_is_project_j`
  unfoldable pub is_project_j : Project → Bool
  is_project_j p =
      p.logical_project_id == e.project_j_id
      || (elem (e.texts.casefold p.identity_key) project_j_identities
          || elem (e.texts.casefold (e.unspaced p.display_name)) project_j_names)

  unfoldable pub same_manifest : Manifest → Manifest → Bool
  same_manifest a b = a.provider == b.provider && e.texts.manifest_hash a == e.texts.manifest_hash b

  -- The deduplication of `_providers`
  unfoldable pub distinct_manifests : List Manifest → List Manifest → List Manifest
  distinct_manifests seen [] = []
  distinct_manifests seen (m ∷ ms) =
      let rest = distinct_manifests (m ∷ seen) ms in
      if is_some (find_where (same_manifest m) seen) then rest else m ∷ rest

  -- `_providers`
  unfoldable pub normalize : List Manifest → List Manifest
  normalize ms = sorted (manifest_before e.texts) (distinct_manifests [] ms)

  abbrev pub or_all : List Manifest → List Manifest → List Manifest
  or_all [] all = all
  or_all (m ∷ ms) all = m ∷ ms

  unfoldable pub composite_of : ℕ → List Manifest → Manifest
  composite_of now ms =
      merge e.texts now "Project_J"
        (or_all (filter_where (λ m. not (m.provider == "composite")) ms) ms)

  -- Absence proves something where every usable snapshot is ready and covers the whole repository.
  unfoldable pub covers_all : Manifest → Bool
  covers_all m =
      is_ready m.status && elem (coverage e.texts m) ("complete" ∷ "full" ∷ "repository" ∷ [])

  unfoldable pub absence_is_authoritative : List Manifest → Bool
  absence_is_authoritative [] = true
  absence_is_authoritative (m ∷ ms) =
      (not (is_usable m.status) || covers_all m) && absence_is_authoritative ms

  unfoldable pub same_hash : Manifest → Manifest → Bool
  same_hash a b = e.texts.manifest_hash b == e.texts.manifest_hash a

  unfoldable pub all_manifests : Manifest → List Manifest → List Manifest
  all_manifests composite ms =
      if is_some (find_where (same_hash composite) ms) then ms else ms ++ composite ∷ []

  unfoldable pub ensure_snapshots : String → List Manifest → List Snapshot → List Snapshot
  ensure_snapshots project [] snapshots = snapshots
  ensure_snapshots project (m ∷ ms) snapshots =
      ensure_snapshots project ms (ensure_snapshot (e.snapshot_id project m) project m snapshots)

  -- The id of the snapshot whose manifest has the composite's hash
  unfoldable pub composite_snapshot : String → Manifest → List Manifest → String
  composite_snapshot project composite ms = elim (find_where (same_hash composite) ms) [
    | none ↦ e.snapshot_id project composite
    | some m ↦ e.snapshot_id project m
  ]

  -- The WHERE clauses of `list_current_bindings` on the card of a binding
  unfoldable pub is_listed_card : VerifyRequest → Card → Bool
  is_listed_card q card =
      let tasks = nonempty (elim q.task_id [ none ↦ q.task_ids | some t ↦ t ∷ q.task_ids ]) in
      elem card.project_id (nonempty q.raw_ids)
      && ((is_empty tasks || elim card.task_id [ none ↦ false | some t ↦ elem t tasks ])
          && (is_active card.status
              && (q.include_quarantine || not (e.is_quarantined card.card_id))))

  unfoldable pub is_listed : VerifyRequest → CardDb → Binding → Bool
  is_listed q db b = elim (find_where (has_card b.version.card_id) db.cards) [
    | none ↦ false
    | some card ↦
        eqb card.current_version b.version.version_no
        && (is_some (find_where (has_version b.version) db.versions) && is_listed_card q card)
  ]

  -- `list_current_bindings`
  unfoldable pub list_current_bindings : VerifyRequest → CardDb → List Binding
  list_current_bindings q db =
      take (max 1 (min q.limit 100000))
        (sorted (binding_before db.cards) (filter_where (is_listed q db) db.bindings))
