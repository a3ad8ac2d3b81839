-- ===== src/Consolidation/Counts.antt =====
-- The counts of a consolidation that finishes.
use code_sementic_memory.Common.{
  ℕ, suc, ◌+◌, ◌≤◌, ◌≡◌, refl, sym, subst, ◌∙◌, Bool, true, false, if◌then◌else◌, List, [], ◌∷◌,
  ◌++◌, arith, String, Bool-cases, inl, inr, length, length-append, count_where, Result, ok, err,
}
use code_sementic_memory.Cards.Rows.{CardCodec}
use code_sementic_memory.Consolidation.Rows.{
  Action, Candidate, ConsolidationDb, ConsolidationError, Item, Review, Summary, create, merge,
  new_version, reject, skip, uncertain_match,
}
use code_sementic_memory.Consolidation.Scores.{Policy}
use code_sementic_memory.Consolidation.Decide.{consolidate_one, record_quarantined}
use code_sementic_memory.Consolidation.Runs.{
  Selection, add_item, after_step, consolidate, consolidate_each, consolidate_step, consolidated,
  count_candidates, counted, counts_as_processed, is_quarantine, list_candidates, no_counts,
  quarantined,
}

abbrev pub is_skip : Item → Bool
is_skip i = if counts_as_processed i.action then false else true

-- `k` candidates are counted.
pub record Tallied (k : ℕ) (s : Summary) : Type 0 where
  pub total : s.created + s.merged + s.new_versions + s.uncertain + s.skipped + s.rejected ≡ k
  pub listed : length s.items ≡ k
  pub split : s.processed + count_where is_skip s.items ≡ k
  pub skips : s.skipped ≤ count_where is_skip s.items

count_where-snoc :
    (i : Item) (xs : List Item)
    → count_where is_skip (xs ++ i ∷ []) ≡ count_where is_skip xs + (if is_skip i then 1 else 0)
unfolding count_where
count_where-snoc i [] = omega arith
count_where-snoc i (x ∷ xs) = omega (arith, count_where-snoc i xs)

-- An item that is counted under its own action
add-Tallied :
    (k : ℕ) (i : Item) (a : Action) (s : Summary)
    → i.action ≡ a
    → Tallied k s
    → Tallied (suc k) (counted a (add_item i s))
add-Tallied k i create s e t =
    ground (arith, count_where-snoc i s.items, length-append s.items (i ∷ []))
add-Tallied k i merge s e t =
    ground (arith, count_where-snoc i s.items, length-append s.items (i ∷ []))
add-Tallied k i new_version s e t =
    ground (arith, count_where-snoc i s.items, length-append s.items (i ∷ []))
add-Tallied k i reject s e t =
    ground (arith, count_where-snoc i s.items, length-append s.items (i ∷ []))
add-Tallied k i uncertain_match s e t =
    ground (arith, count_where-snoc i s.items, length-append s.items (i ∷ []))
add-Tallied k i skip s e t =
    ground (arith, count_where-snoc i s.items, length-append s.items (i ∷ []))

-- A quarantined candidate counts as rejected.
reject-Tallied :
    (k : ℕ) (i : Item) (s : Summary) → Tallied k s → Tallied (suc k) (counted reject (add_item i s))
reject-Tallied k i s t = ground (arith, count_where-snoc i s.items, length-append s.items (i ∷ []))

counted-count :
    (a : Action) (i : Item) (s : Summary)
    → (counted a (add_item i s)).candidate_count ≡ s.candidate_count
counted-count create i s = refl
counted-count merge i s = refl
counted-count new_version i s = refl
counted-count reject i s = refl
counted-count uncertain_match i s = refl
counted-count skip i s = refl

module _ (p : Policy) (c : CardCodec) (reviewed : Candidate → Review) (clock : Candidate → ℕ)
    (uuid : Candidate → String) where
  abbrev Counted : ℕ → Summary → Summary → Type 0
  Counted k s s' = Tallied k s' × (s'.candidate_count ≡ s.candidate_count)

  step-Counted :
      (k : ℕ) (d : Candidate) (s s' : Summary) (db db' : ConsolidationDb)
      → consolidate_step p c reviewed clock uuid d s db ≡ ok (s', db')
      → Tallied k s
      → Counted (suc k) s s'
  unfolding consolidate_step quarantined
  step-Counted k d s s' db db' h t = elim (Bool-cases (is_quarantine (reviewed d).decision)) [
    | inl e ↦
        let i = (record_quarantined p c (clock d) d (reviewed d) db).0 in
        let same : counted reject (add_item i s) ≡ s' = ground (arith, rw e at h) in
        rw (← same) (reject-Tallied k i s t, refl)
    | inr e ↦ one (consolidate_one p c (clock d) (uuid d) d db) (rw e at h)
  ]
    where
      one :
          (r : Result ConsolidationError (Item × ConsolidationDb))
          → consolidated p c reviewed clock uuid s r ≡ ok (s', db')
          → Counted (suc k) s s'
      one (err e) f = unfold consolidated in ground (arith, f)
      one (ok (i, db1)) f =
          let same : counted i.action (add_item i s) ≡ s' =
            unfold consolidated in ground (arith, f) in
          rw (← same) (add-Tallied k i i.action s refl t, counted-count i.action i s)

  each-Counted :
      (k : ℕ) (ds : List Candidate) (s s' : Summary) (db : ConsolidationDb)
      → (consolidate_each p c reviewed clock uuid ds s db).0 ≡ ok s'
      → Tallied k s
      → Counted (k + count_candidates ds) s s'
  unfolding consolidate_each
  each-Counted k [] s s' db h t =
      let same : s ≡ s' = ground (arith, h) in
      let n : k + 0 ≡ k = omega arith in rw (n, ← same) (t, refl)
  each-Counted k (d ∷ ds) s s' db h t =
      after (consolidate_step p c reviewed clock uuid d s db) refl h
        (λ s1 db1. each-Counted (suc k) ds s1 s' db1)
    where
      after :
          (r : Result ConsolidationError (Summary × ConsolidationDb))
          → consolidate_step p c reviewed clock uuid d s db ≡ r
          → (after_step p c reviewed clock uuid r db
              (consolidate_each p c reviewed clock uuid ds)).0
            ≡ ok s'
          → ((s1 : Summary) (db1 : ConsolidationDb)
              → (consolidate_each p c reviewed clock uuid ds s1 db1).0 ≡ ok s'
              → Tallied (suc k) s1
              → Counted (suc k + count_candidates ds) s1 s')
          → Counted (k + suc (count_candidates ds)) s s'
      after (err e) f g rest = unfold after_step in ground (arith, g)
      after (ok (s1, db1)) f g rest =
          let one = step-Counted k d s s1 db db1 f t in
          let all : Counted (suc k + count_candidates ds) s1 s' =
            unfold after_step in rest s1 db1 g one.0 in
          let n : k + suc (count_candidates ds) ≡ suc k + count_candidates ds = omega arith in
          rw n (all.0, all.1 ∙ one.1)

-- A consolidation that finishes has counted each selected candidate once: the six counts add up to
-- candidate_count, which is the number of selected candidates, there is one item for each, processed counts
-- the items that are not skips, and skipped counts at most those that are.
pub consolidate_counts :
    (p : Policy) (c : CardCodec) (reviewed : Candidate → Review) (clock : Candidate → ℕ)
    (uuid : Candidate → String) (q : Selection) (table : List Candidate) (db : ConsolidationDb)
    (s : Summary)
    → (consolidate p c reviewed clock uuid q table db).0 ≡ ok s
    → Tallied s.candidate_count s × (s.candidate_count ≡ count_candidates (list_candidates q table))
unfolding consolidate
consolidate_counts p c reviewed clock uuid q table db s h =
    let ds = list_candidates q table in
    let start : Tallied 0 (no_counts (count_candidates ds)) = unfold count_where in ground arith in
    let r =
      each-Counted p c reviewed clock uuid 0 ds (no_counts (count_candidates ds)) s db h start in
    let n : 0 + count_candidates ds ≡ count_candidates ds = omega arith in
    let total : s.candidate_count ≡ 0 + count_candidates ds = r.1 ∙ sym n in
    (subst (λ (k : ℕ). Tallied k s) (sym total) r.0, r.1)
