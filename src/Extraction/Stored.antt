-- ===== src/Extraction/Stored.antt =====
-- What `record_success` leaves in the table of candidates.
use code_sementic_memory.Common.{
  ℕ, ◌≡◌, ◌≢◌, refl, sym, ap, ◌∙◌, subst, String, Bool, true, false≢true, ◌&&◌, not, Option, none,
  some, List, [], ◌∷◌, ◌++◌, map, arith, eq_iff, if◌then◌else◌, inl, inr, Bool-cases, All, All-imp,
  Unique, Unique-append, elem, filter_where, find_where, find_where-none, find_where-extend,
}
use mathlib.Core.List.{append_assoc, append-nil}
use code_sementic_memory.Extraction.Batch.{Batch, BatchCandidate}
use code_sementic_memory.Extraction.Candidates.{
  CandidateDb, CandidateRow, add_link, add_supersedes, any_cited, candidate_row, delete_run,
  has_candidate, insert_candidate, insert_candidates, of_run, prior_ids, record_success,
}
use code_sementic_memory.Extraction.Runs.{finish_run}
use code_sementic_memory.Extraction.Names.{available_candidate_id-free}
use code_sementic_memory.Extraction.Kept.{
  Unique-filtered, cited-protects, content_of, evidence_keeps, find_where-filter_where, hints_keep,
  id_of, links_keep,
}

module _ (decimal : ℕ → String) (now : ℕ) (run_id : String) (b : Batch) where
  inserted :
      (protected : Bool) (prior : List String) (c : BatchCandidate) (id : String) (db : CandidateDb)
      → (insert_candidate decimal now run_id b protected prior c id db).candidates
        ≡ db.candidates ++ candidate_row decimal now run_id b id c ∷ []
  unfolding insert_candidate add_supersedes add_link
  inserted protected prior c id db =
      hints_keep id c.relation_hints _
      ∙ links_keep id c.bindings _
      ∙ evidence_keeps id 0 c.evidence_event_ids _
      ∙ (elim (Bool-cases (protected && elem c.candidate_id prior)) [
        | inl e ↦ rw e refl
        | inr e ↦ rw e refl
      ])

  -- What an insertion of candidates gives: rows for them, in their order, under the ids that it lists
  abbrev pub Stores :
      List BatchCandidate
      → List String
      → List CandidateRow
      → Option (List String × CandidateDb)
      → Type 0
  Stores cs stored rows o =
      (added : List CandidateRow) × (db' : CandidateDb) × (o
        ≡ some (stored ++ map id_of added, db'))
      × (map content_of added ≡ cs)
      × (db'.candidates ≡ rows ++ added)
      × Unique id_of db'.candidates

  module _ (distinct : (i j : ℕ) → decimal i ≡ decimal j → i ≡ j) where
    new_id :
        (id : String) (rows : List CandidateRow)
        → find_where (has_candidate id) rows ≡ none
        → All (λ x. x.candidate_id ≢ id) rows
    unfolding has_candidate
    new_id id rows h =
        All-imp rows (λ x e q. ground (arith, eq_iff x.candidate_id id, e, q))
          (find_where-none (has_candidate id) rows h)

    insert_candidates-Stores :
        (protected : Bool) (prior : List String) (cs : List BatchCandidate) (stored : List String)
        (db : CandidateDb)
        → Unique id_of db.candidates
        → Stores cs stored db.candidates
            (insert_candidates decimal now run_id b protected prior cs stored db)
    unfolding insert_candidates candidate_row
    insert_candidates-Stores protected prior [] stored db u = (
      [],
      db,
      ap (λ s. some (s, db)) (sym (append-nil stored)),
      refl,
      sym (append-nil db.candidates),
      u,
    )
    insert_candidates-Stores protected prior (c ∷ cs) stored db u =
        let (id, e, fresh) =
          available_candidate_id-free decimal distinct c.candidate_id run_id db.candidates in
        let row = candidate_row decimal now run_id b id c in
        let db1 = insert_candidate decimal now run_id b protected prior c id db in
        let one : db1.candidates ≡ db.candidates ++ row ∷ [] = inserted protected prior c id db in
        let u1 : Unique id_of db1.candidates =
          subst (Unique id_of) (sym one)
            (Unique-append id_of db.candidates row (new_id id db.candidates fresh) u) in
        let (added, db', o, contents, rows, u') =
          insert_candidates-Stores protected prior cs (stored ++ id ∷ []) db1 u1 in
        (
          row ∷ added,
          db',
          rw e (o ∙ ap (λ s. some (s, db')) (append_assoc stored (id ∷ []) (map id_of added))),
          ap (λ x. c ∷ x) contents,
          rows ∙ ap (λ x. x ++ added) one ∙ append_assoc db.candidates (row ∷ []) added,
          u',
        )

    -- The rows that `record_success` keeps
    abbrev pub kept : CandidateDb → List CandidateRow
    kept db =
        if any_cited db.cited (prior_ids run_id db.candidates)
        then db.candidates
        else filter_where (λ r. not (of_run run_id r)) db.candidates

    cited_kept :
        (db : CandidateDb) (id : String) (r : CandidateRow)
        → elem id db.cited ≡ true
        → find_where (has_candidate id) db.candidates ≡ some r
        → find_where (has_candidate id) (kept db) ≡ some r
    cited_kept db id r cited found =
        elim (Bool-cases (any_cited db.cited (prior_ids run_id db.candidates))) [
          | inl e ↦ rw e found
          | inr e ↦ rw e (elim (Bool-cases (of_run run_id r)) [
            | inl o ↦ absurd (
                false≢true
                  (sym e ∙ cited-protects db.cited run_id id db.candidates r found cited o))
            | inr o ↦
                find_where-filter_where (has_candidate id) (λ x. not (of_run run_id x))
                  db.candidates r found (rw o refl)
          ])
        ]

    -- Where candidate ids are unique and different numbers have different numerals, record_success succeeds. It
    -- keeps the candidates of other runs, and those of this run if any of them is cited, and appends one row for
    -- each candidate of the batch, in order, under the ids that it answers with. Ids are unique afterwards, and
    -- a candidate that is cited is there as it was.
    pub record_success-Stores :
        (result : List String → String) (db : CandidateDb)
        → Unique id_of db.candidates
        → (added : List CandidateRow) × (db' : CandidateDb) × (record_success decimal now run_id b
              result db
            ≡ some (map id_of added, db'))
          × (map content_of added ≡ b.candidates)
          × (db'.candidates ≡ kept db ++ added)
          × Unique id_of db'.candidates
          × ((id : String) (r : CandidateRow)
              → elem id db.cited ≡ true
              → find_where (has_candidate id) db.candidates ≡ some r
              → find_where (has_candidate id) db'.candidates ≡ some r)
    unfolding record_success delete_run
    record_success-Stores result db u =
        let prior = prior_ids run_id db.candidates in
        let protected = any_cited db.cited prior in
        let start = if protected then db else delete_run run_id db in
        let same : start.candidates ≡ kept db = elim (Bool-cases protected) [
          | inl e ↦ rw e refl
          | inr e ↦ rw e refl
        ] in
        let clean : Unique id_of (kept db) = elim (Bool-cases protected) [
          | inl e ↦ rw e u
          | inr e ↦ rw e (Unique-filtered (λ r. not (of_run run_id r)) db.candidates u)
        ] in
        let (added, db', o, contents, rows, u') =
          insert_candidates-Stores protected prior b.candidates [] start
            (subst (Unique id_of) (sym same) clean) in
        let rows' : db'.candidates ≡ kept db ++ added = rows ∙ ap (λ x. x ++ added) same in
        (
          added,
          record db' { runs = finish_run now run_id (result (map id_of added)) db'.runs },
          rw o refl,
          contents,
          rows',
          u',
          (λ id r cited found.
              subst (λ x. find_where (has_candidate id) x ≡ some r) (sym rows')
                (find_where-extend (has_candidate id) (kept db) added r
                  (cited_kept db id r cited found))),
        )
