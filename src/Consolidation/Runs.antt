-- ===== src/Consolidation/Runs.antt =====
-- `consolidate` and `promote_card` of
-- src/codememory/consolidation/service.py, with `list_candidates` of consolidation/store.py. A candidate that
-- raises ends the call: what the earlier transactions wrote stays.
use code_sementic_memory.Common.{
  ℕ, suc, max, min, String, Bool, true, false, ◌&&◌, ◌||◌, Option, none, some, List, [], ◌∷◌, ◌++◌,
  ◌==◌, if◌then◌else◌, eqb, ltb, elem, take, filter_where, find_where, Result, ok, err,
}
use code_sementic_memory.Cards.Status.{
  CardError, CardStatus, Lifecycle, Move, Transition, has_card, not_found, proposed, transition,
  uncertain, verified,
}
use code_sementic_memory.Cards.Rows.{CardCodec}
use code_sementic_memory.Consolidation.Rows.{
  Action, Candidate, ConsolidationDb, ConsolidationError, Item, Review, Summary, Verdict, create,
  merge, new_version, quarantine, reject, skip, uncertain_match,
}
use code_sementic_memory.Consolidation.Scores.{Policy, is_empty, sorted, text_lt}
use code_sementic_memory.Consolidation.Actions.{nonempty}
use code_sementic_memory.Consolidation.Decide.{consolidate_one, record_quarantined}

-- One round of the loop of `consolidate`: the item is counted under the key that the code gives it.
abbrev pub counted : Action → Summary → Summary
counted create s = record s { created = suc s.created }
counted merge s = record s { merged = suc s.merged }
counted new_version s = record s { new_versions = suc s.new_versions }
counted uncertain_match s = record s { uncertain = suc s.uncertain }
counted reject s = record s { rejected = suc s.rejected }
counted skip s = record s { skipped = suc s.skipped }

-- `sum(1 for item in items if item.action != SKIP)`
abbrev pub counts_as_processed : Action → Bool
counts_as_processed skip = false
counts_as_processed _ = true

abbrev pub add_item : Item → Summary → Summary
add_item item s = record s {
  processed = if counts_as_processed item.action then suc s.processed else s.processed;
  items = s.items ++ item ∷ [];
}

abbrev pub is_quarantine : Verdict → Bool
is_quarantine quarantine = true
is_quarantine _ = false

abbrev pub no_counts : ℕ → Summary
no_counts n = record {
  candidate_count = n;
  processed = 0;
  created = 0;
  merged = 0;
  new_versions = 0;
  uncertain = 0;
  skipped = 0;
  rejected = 0;
  items = [];
}

module _ (p : Policy) (c : CardCodec) (reviewed : Candidate → Review) (clock : Candidate → ℕ)
    (uuid : Candidate → String) where
  -- A quarantined candidate counts as rejected, whatever its item says.
  unfoldable pub quarantined : Candidate → Summary → ConsolidationDb → Summary × ConsolidationDb
  quarantined d s db =
      let (item, db') = record_quarantined p c (clock d) d (reviewed d) db in
      (counted reject (add_item item s), db')

  unfoldable pub consolidated :
      Summary
      → Result ConsolidationError (Item × ConsolidationDb)
      → Result ConsolidationError (Summary × ConsolidationDb)
  consolidated s (err e) = err e
  consolidated s (ok (item, db)) = ok (counted item.action (add_item item s), db)

  unfoldable pub consolidate_step :
      Candidate → Summary → ConsolidationDb → Result ConsolidationError (Summary × ConsolidationDb)
  consolidate_step d s db =
      if is_quarantine (reviewed d).decision
      then ok (quarantined d s db)
      else consolidated s (consolidate_one p c (clock d) (uuid d) d db)

  -- An error ends the loop; what was written before stays.
  unfoldable pub after_step :
      Result ConsolidationError (Summary × ConsolidationDb)
      → ConsolidationDb
      → (Summary → ConsolidationDb → Result ConsolidationError Summary × ConsolidationDb)
      → Result ConsolidationError Summary × ConsolidationDb
  after_step (err e) db next = (err e, db)
  after_step (ok (s, db')) db next = next s db'

  -- The result, and the state that the call leaves
  unfoldable pub consolidate_each :
      List Candidate
      → Summary
      → ConsolidationDb
      → Result ConsolidationError Summary × ConsolidationDb
  consolidate_each [] s db = (ok s, db)
  consolidate_each (d ∷ ds) s db = after_step (consolidate_step d s db) db (consolidate_each ds)

-- The keyword arguments of `list_candidates`; the limit is a number from 1.
pub record Selection : Type 0 where
  pub project_id : Option String
  pub task_id : Option String
  pub candidate_ids : List String
  pub limit : ℕ

abbrev pub equals_if_given : Option String → String → Bool
equals_if_given none t = true
equals_if_given (some s) t = s == "" || s == t

unfoldable pub is_selected : Selection → Candidate → Bool
unfolding elem nonempty filter_where
is_selected q d =
    equals_if_given q.project_id d.project_id
    && (equals_if_given q.task_id d.task_id
        && (is_empty (nonempty q.candidate_ids) || elem d.candidate_id (nonempty q.candidate_ids)))

-- ORDER BY created_at, candidate_id
unfoldable pub candidate_before : Candidate → Candidate → Bool
candidate_before d e =
    ltb d.created_at e.created_at
    || (eqb d.created_at e.created_at && text_lt d.candidate_id e.candidate_id)

unfoldable pub list_candidates : Selection → List Candidate → List Candidate
unfolding is_selected candidate_before sorted filter_where
list_candidates q table =
    take (max 1 (min q.limit 100000)) (sorted candidate_before (filter_where (is_selected q) table))

abbrev pub count_candidates : List Candidate → ℕ
count_candidates [] = 0
count_candidates (d ∷ ds) = suc (count_candidates ds)

-- `consolidate`
unfoldable pub consolidate :
    Policy
    → CardCodec
    → (Candidate → Review)
    → (Candidate → ℕ)
    → (Candidate → String)
    → Selection
    → List Candidate
    → ConsolidationDb
    → Result ConsolidationError Summary × ConsolidationDb
consolidate p c reviewed clock uuid q table db =
    let ds = list_candidates q table in
    consolidate_each p c reviewed clock uuid ds (no_counts (count_candidates ds)) db

abbrev pub promotion_target : CardStatus → String
promotion_target proposed = "stable"
promotion_target verified = "stable"
promotion_target uncertain = "stable"
promotion_target _ = "verified"

-- `promote_card`
unfoldable pub promote_card :
    (String → Bool) → Move → Lifecycle → Result CardError (Transition × Lifecycle)
promote_card is_blank m db = elim (find_where (has_card m.card_id) db.cards) [
  | none ↦ ok (not_found, db)
  | some card ↦ transition is_blank (record m { to_status = promotion_target card.status }) db
]
