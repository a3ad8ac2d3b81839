-- ===== src/Consolidation/Matches.antt =====
-- `_find_matches` and `_is_ambiguous` of src/codememory/consolidation/service.py.
use code_sementic_memory.Common.{
  ℕ, min, max, String, Bool, true, false, ◌&&◌, ◌||◌, not, Option, none, some, List, [], ◌∷◌, map,
  ◌==◌, if◌then◌else◌, leb, ltb, eqb, take, filter_where, find_where,
}
use code_sementic_memory.Cards.Status.{CardStatus, Card, rejected, superseded}
use code_sementic_memory.Cards.Rows.{
  Binding, CardVersion, CardCodec, CardDb, VersionId, has_version, same_version,
}
use code_sementic_memory.Consolidation.Rows.{Candidate}
use code_sementic_memory.Consolidation.Scores.{
  Policy, binding_overlap, binding_targets, common, is_empty, norm_text, similarity, sorted, spaced,
  text_lt, unique,
}

-- A card joined with its current version
pub record CardRow : Type 0 where
  pub card : Card
  pub version : CardVersion

pub record Match : Type 0 where
  pub row : CardRow
  pub score : ℕ
  pub text_score : ℕ
  pub binding_score : ℕ

abbrev pub current_id : Card → VersionId
current_id card = record { card_id = card.card_id; version_no = card.current_version }

-- c.status NOT IN ('rejected','superseded')
abbrev pub is_active : CardStatus → Bool
is_active rejected = false
is_active superseded = false
is_active _ = true

unfoldable pub is_eligible : Candidate → Card → Bool
is_eligible d card =
    card.project_id == d.project_id && (card.kind == d.kind && is_active card.status)

unfoldable pub join_version : Card → Option CardVersion → List CardRow → List CardRow
join_version card none rest = rest
join_version card (some v) rest = record { card = card; version = v } ∷ rest

-- The SELECT of the cards that may match, joined with their current versions
unfoldable pub candidate_rows : Candidate → List CardVersion → List Card → List CardRow
unfolding join_version is_eligible
candidate_rows d versions [] = []
candidate_rows d versions (card ∷ cards) =
    let rest = candidate_rows d versions cards in
    if is_eligible d card
    then join_version card (find_where (has_version (current_id card)) versions) rest
    else rest

-- `targets_by_version`
unfoldable pub version_targets : VersionId → List Binding → List String
unfolding unique same_version
version_targets v bindings = unique (
    filter_where (λ t. not (t == ""))
      (map (λ b. b.normalized_target) (filter_where (λ b. same_version b.version v) bindings)))

unfoldable pub is_targeted : List String → List Binding → CardRow → Bool
unfolding version_targets common
is_targeted targets bindings row = ltb 0 (common targets (version_targets row.version.id bindings))

-- The rows that share a target, where the candidate has targets and there are any such rows
unfoldable pub narrowed : List String → List Binding → List CardRow → List CardRow
unfolding is_targeted
narrowed targets bindings rows = elim (filter_where (is_targeted targets bindings) rows) [
  | [] ↦ rows
  | x ∷ xs ↦ if is_empty targets then rows else x ∷ xs
]

-- `item.score, item.text_score, item.binding_score, card_id`, greatest first
unfoldable pub match_before : Match → Match → Bool
match_before m n =
    ltb n.score m.score
    || (eqb n.score m.score
        && (ltb n.text_score m.text_score
            || (eqb n.text_score m.text_score
                && (ltb n.binding_score m.binding_score
                    || (eqb n.binding_score m.binding_score
                        && text_lt n.row.card.card_id m.row.card.card_id)))))

module _ (p : Policy) (c : CardCodec) where
  abbrev pub both : List String → List String → Bool
  both a b = not (is_empty a) && not (is_empty b)

  -- The score before the test on equal statements
  unfoldable pub blended : List String → List String → ℕ → ℕ → ℕ
  unfolding common
  blended targets card_targets text_score binding_score =
      let score =
        p.add (p.mul (p.literal "0.58") text_score) (p.mul (p.literal "0.42") binding_score) in
      if both targets card_targets
      then if ltb 0 (common targets card_targets) && leb (p.literal "0.25") text_score
        then max score (
            p.add (p.literal "0.56") (min (p.literal "0.30") (p.mul text_score (p.literal "0.30"))))
        else score
      else text_score

  unfoldable pub row_score : Candidate → List String → List String → CardRow → ℕ → ℕ → ℕ
  unfolding blended
  row_score d targets card_targets row text_score binding_score =
      if norm_text p c d.statement == norm_text p c row.version.statement
      then c.one
      else blended targets card_targets text_score binding_score

  unfoldable pub minimum : List String → List String → ℕ
  minimum targets card_targets =
      if both targets card_targets then p.literal "0.56" else p.literal "0.72"

  unfoldable pub match_of : Candidate → List Binding → CardRow → Match
  unfolding row_score
  match_of d bindings row =
      let targets = binding_targets p c d.bindings in
      let card_targets = version_targets row.version.id bindings in
      let text_score =
        similarity p c (spaced d.statement d.aliases)
          (spaced row.version.statement row.version.aliases) in
      let binding_score = binding_overlap p c targets card_targets in
      record {
        row = row;
        score = row_score d targets card_targets row text_score binding_score;
        text_score = text_score;
        binding_score = binding_score;
      }

  unfoldable pub capped : Match → Match
  capped m = record m { score = min c.one m.score }

  -- The loop over the rows
  unfoldable pub matching : Candidate → List Binding → List CardRow → List Match
  unfolding match_of minimum capped
  matching d bindings [] = []
  matching d bindings (row ∷ rows) =
      let rest = matching d bindings rows in
      let m = match_of d bindings row in
      if leb (minimum (binding_targets p c d.bindings) (version_targets row.version.id bindings))
        m.score
      then capped m ∷ rest
      else rest

  unfoldable pub find_matches : Candidate → CardDb → List Match
  unfolding matching narrowed candidate_rows sorted match_before
  find_matches d db = take 8 (
      sorted match_before (
        matching d db.bindings (
          narrowed (binding_targets p c d.bindings) db.bindings
            (candidate_rows d db.versions db.cards))))

  unfoldable pub is_ambiguous : List Match → Bool
  is_ambiguous (m ∷ n ∷ rest) =
      ltb m.score (p.literal "0.9") && ltb (p.sub m.score n.score) (p.literal "0.08")
  is_ambiguous _ = false
