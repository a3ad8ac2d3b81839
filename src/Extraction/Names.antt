-- ===== src/Extraction/Names.antt =====
-- `_available_candidate_id` ends, with an id that no candidate has.
use code_sementic_memory.Common.{
  ℕ, zero, suc, ◌+◌, ◌≤◌, ◌<◌, ◌≡◌, ◌≢◌, refl, sym, ap, ◌∙◌, String, Bool, true, false, false≢true,
  not, Option, none, some, List, [], ◌∷◌, ◌==◌, arith, ==-eq, inl, inr, Bool-cases, length, join,
  clip, find_where, filter_where, is_some,
}
use code_sementic_memory.Consolidation.Scores.{text_length}
use code_sementic_memory.Extraction.Candidates.{
  CandidateRow, available_candidate_id, candidate_name, has_candidate, search_name,
}

join-cancel : (a x y : String) → join a x ≡ join a y → x ≡ y
unfolding join
join-cancel String.[] x y h = h
join-cancel (String.◌∷◌ c a) x y h = join-cancel a x y (ground (arith, h))

join-nil : (a : String) → join a "" ≡ a
unfolding join
join-nil String.[] = refl
join-nil (String.◌∷◌ c a) = ap (String.◌∷◌ c) (join-nil a)

join-ne : (a x : String) → x ≢ "" → join a x ≢ a
join-ne a x h q = h (join-cancel a x "" (q ∙ sym (join-nil a)))

dashed-ne : (x : String) → join "-" x ≢ ""
unfolding join text_length
dashed-ne x h = absurd (omega (arith, ap text_length h))

module _ (decimal : ℕ → String) (distinct : (i j : ℕ) → decimal i ≡ decimal j → i ≡ j)
    (base suffix : String) where
  -- Different attempts try different ids.
  names_differ :
      (i j : ℕ)
      → candidate_name decimal base suffix i ≡ candidate_name decimal base suffix j
      → i ≡ j
  unfolding candidate_name
  names_differ zero zero h = refl
  names_differ zero (suc zero) h = absurd (join-ne base _ (dashed-ne suffix) (sym h))
  names_differ zero (suc (suc j)) h = absurd (join-ne base _ (dashed-ne _) (sym h))
  names_differ (suc zero) zero h = absurd (join-ne base _ (dashed-ne suffix) h)
  names_differ (suc (suc i)) zero h = absurd (join-ne base _ (dashed-ne _) h)
  names_differ (suc zero) (suc zero) h = refl
  names_differ (suc zero) (suc (suc j)) h =
      absurd (join-ne suffix _ (dashed-ne _) (sym (join-cancel "-" _ _ (join-cancel base _ _ h))))
  names_differ (suc (suc i)) (suc zero) h =
      absurd (join-ne suffix _ (dashed-ne _) (join-cancel "-" _ _ (join-cancel base _ _ h)))
  names_differ (suc (suc i)) (suc (suc j)) h =
      distinct (suc (suc i)) (suc (suc j)) (
        join-cancel "-" _ _ (join-cancel suffix _ _ (join-cancel "-" _ _ (join-cancel base _ _ h))))

  abbrev is_taken : ℕ → List CandidateRow → Bool
  is_taken k rows = is_some (find_where (has_candidate (candidate_name decimal base suffix k)) rows)

  -- The rows that have another id than that of attempt `k`
  abbrev others : ℕ → List CandidateRow → List CandidateRow
  others k rows =
      filter_where (λ r. not (has_candidate (candidate_name decimal base suffix k) r)) rows

  length-others-le : (k : ℕ) (rows : List CandidateRow) → length (others k rows) ≤ length rows
  unfolding filter_where
  length-others-le k [] = omega arith
  length-others-le k (r ∷ rows) =
      elim (Bool-cases (has_candidate (candidate_name decimal base suffix k) r)) [
        | inl e ↦ rw e (omega (arith, length-others-le k rows))
        | inr e ↦ rw e (omega (arith, length-others-le k rows))
      ]

  length-others-lt :
      (k : ℕ) (rows : List CandidateRow)
      → is_taken k rows ≡ true
      → length (others k rows) < length rows
  unfolding filter_where find_where
  length-others-lt k [] h = absurd (false≢true h)
  length-others-lt k (r ∷ rows) h =
      elim (Bool-cases (has_candidate (candidate_name decimal base suffix k) r)) [
        | inl e ↦ rw e (omega (arith, length-others-le k rows))
        | inr e ↦ let t = rw e at h in rw e (omega (arith, length-others-lt k rows t))
      ]

  -- Another attempt's id is taken in all rows exactly when it is taken in the others.
  taken-others :
      (k j : ℕ) (rows : List CandidateRow) → k ≢ j → is_taken j (others k rows) ≡ is_taken j rows
  unfolding filter_where find_where has_candidate
  taken-others k j [] ne = refl
  taken-others k j (r ∷ rows) ne =
      elim (Bool-cases (r.candidate_id == candidate_name decimal base suffix k)) [
        | inr e ↦ rw e (elim (Bool-cases (r.candidate_id == candidate_name decimal base suffix j)) [
          | inl h ↦ rw h refl
          | inr h ↦ rw h (taken-others k j rows ne)
        ])
        | inl e ↦
            let other : (r.candidate_id == candidate_name decimal base suffix j) ≡ false =
              elim (Bool-cases (r.candidate_id == candidate_name decimal base suffix j)) [
                | inr h ↦ h
                | inl h ↦ absurd (ne (names_differ k j (sym (==-eq _ _ e) ∙ ==-eq _ _ h)))
              ] in
            rw (e, other) (taken-others k j rows ne)
      ]

  -- Among more attempts than rows one is free.
  free_attempt :
      (fuel k : ℕ) (rows : List CandidateRow)
      → length rows < fuel
      → (i : ℕ) × (i < fuel) × (is_taken (k + i) rows ≡ false)
  free_attempt zero k rows h = absurd (omega (arith, h))
  free_attempt (suc fuel) k rows h = elim (Bool-cases (is_taken k rows)) [
    | inr e ↦ (0, omega arith, let z : k + 0 ≡ k = omega arith in rw z e)
    | inl e ↦
        let (i, lt, free) =
          free_attempt fuel (suc k) (others k rows) (omega (arith, h, length-others-lt k rows e)) in
        let next : k + suc i ≡ suc k + i = omega arith in
        (
          suc i,
          omega (arith, lt),
          rw next (sym (taken-others k (suc k + i) rows (λ q. absurd (omega (arith, q)))) ∙ free),
        )
  ]

  untaken : (o : Option CandidateRow) → is_some o ≡ false → o ≡ none
  untaken none h = refl
  untaken (some r) h = absurd (false≢true (sym h))

  -- What a search that ends gives
  abbrev Finds : Option String → List CandidateRow → Type 0
  Finds o rows = (id : String) × (o ≡ some id) × (find_where (has_candidate id) rows ≡ none)

  search-free :
      (fuel k i : ℕ) (rows : List CandidateRow)
      → i < fuel
      → is_taken (k + i) rows ≡ false
      → Finds (search_name decimal fuel k base suffix rows) rows
  unfolding search_name
  search-free zero k i rows lt free = absurd (omega (arith, lt))
  search-free (suc fuel) k zero rows lt free =
      let z : k + 0 ≡ k = omega arith in
      let e : is_taken k rows ≡ false = rw z at free in
      (
        candidate_name decimal base suffix k,
        rw e refl,
        untaken (find_where (has_candidate (candidate_name decimal base suffix k)) rows) e,
      )
  search-free (suc fuel) k (suc i) rows lt free = elim (Bool-cases (is_taken k rows)) [
    | inr e ↦ (
      candidate_name decimal base suffix k,
      rw e refl,
      untaken (find_where (has_candidate (candidate_name decimal base suffix k)) rows) e,
    )
    | inl e ↦
        let next : k + suc i ≡ suc k + i = omega arith in
        let (id, found, fresh) =
          search-free fuel (suc k) i rows (omega (arith, lt)) (rw next at free) in
        (id, rw e found, fresh)
  ]

-- With different numerals for different numbers, the search for a candidate id ends in one more try than there are
-- rows, and no row has the id that it gives.
pub available_candidate_id-free :
    (decimal : ℕ → String)
    → ((i j : ℕ) → decimal i ≡ decimal j → i ≡ j)
    → (base run_id : String) (rows : List CandidateRow)
    → (id : String) × (available_candidate_id decimal base run_id rows ≡ some id)
      × (find_where (has_candidate id) rows ≡ none)
unfolding available_candidate_id
available_candidate_id-free decimal distinct base run_id rows =
    let (i, lt, free) =
      free_attempt decimal distinct base (clip 8 run_id) (suc (length rows)) 0 rows (omega arith) in
    search-free decimal distinct base (clip 8 run_id) (suc (length rows)) 0 i rows lt free
