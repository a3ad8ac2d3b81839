-- ===== src/Extraction/Kept.antt =====
-- What the statements of `record_success` leave alone: links and evidence keep the candidates, a deletion keeps
-- the rows of other runs, and a cited candidate protects its run.
use code_sementic_memory.Common.{
  ℕ, suc, ◌≡◌, ◌≢◌, refl, sym, ap, ◌∙◌, subst, String, Bool, true, ◌&&◌, ◌||◌, some, some-injective,
  List, [], ◌∷◌, ◌==◌, arith, ==-eq, inl, inr, Bool-cases, All-filter_where, Unique, elem, truthy,
  filter_where, find_where,
}
use code_sementic_memory.Consolidation.Rows.{Hint}
use code_sementic_memory.Extraction.Batch.{BatchBinding, BatchCandidate}
use code_sementic_memory.Extraction.Candidates.{
  CandidateDb, CandidateRow, add_binding_links, add_evidence, add_hints, add_link, any_cited,
  has_candidate, hint_targets, of_run, or_given, prior_ids,
}

-- The links and the evidence of a candidate leave the candidates alone.
pub links_keep :
    (id : String) (bs : List BatchBinding) (db : CandidateDb)
    → (add_binding_links id bs db).candidates ≡ db.candidates
unfolding add_binding_links add_link
links_keep id [] db = refl
links_keep id (b ∷ bs) db = links_keep id bs _ ∙ (elim (Bool-cases (truthy b.path)) [
  | inl e ↦ rw e (elim (Bool-cases (truthy b.symbol || truthy b.qualified_symbol)) [
    | inl h ↦ rw h refl
    | inr h ↦ rw h refl
  ])
  | inr e ↦ rw e (elim (Bool-cases (truthy b.symbol || truthy b.qualified_symbol)) [
    | inl h ↦ rw h refl
    | inr h ↦ rw h refl
  ])
])

pub evidence_keeps :
    (id : String) (n : ℕ) (xs : List String) (db : CandidateDb)
    → (add_evidence id n xs db).candidates ≡ db.candidates
unfolding add_evidence add_link
evidence_keeps id n [] db = refl
evidence_keeps id n (x ∷ xs) db = evidence_keeps id (suc n) xs _

pub hints_keep :
    (id : String) (hs : List Hint) (db : CandidateDb)
    → (add_hints id hs db).candidates ≡ db.candidates
unfolding add_hints add_link
hints_keep id [] db = refl
hints_keep id (h ∷ hs) db =
    hints_keep id hs _
    ∙ (elim (Bool-cases
        (truthy h.target_id && elem (or_given h.target_type "candidate") hint_targets)) [
          | inl e ↦ rw e refl
          | inr e ↦ rw e refl
        ])

abbrev pub id_of : CandidateRow → String
id_of r = r.candidate_id

abbrev pub content_of : CandidateRow → BatchCandidate
content_of r = r.content

pub Unique-filtered :
    (p : CandidateRow → Bool) (rows : List CandidateRow)
    → Unique id_of rows
    → Unique id_of (filter_where p rows)
unfolding filter_where
Unique-filtered p [] u = tt
Unique-filtered p (r ∷ rows) u = elim (Bool-cases (p r)) [
  | inl e ↦ rw e (
    All-filter_where p (λ y. r.candidate_id ≢ y.candidate_id) (λ y. r.candidate_id ≢ y.candidate_id)
        rows (λ y n h. n) u.0,
    Unique-filtered p rows u.1,
  )
  | inr e ↦ rw e (Unique-filtered p rows u.1)
]

pub find_where-filter_where :
    (p q : CandidateRow → Bool) (rows : List CandidateRow) (r : CandidateRow)
    → find_where p rows ≡ some r
    → q r ≡ true
    → find_where p (filter_where q rows) ≡ some r
unfolding find_where filter_where
find_where-filter_where p q [] r h k = h
find_where-filter_where p q (x ∷ rows) r h k = elim (Bool-cases (p x)) [
  | inl e ↦
      let same : x ≡ r = some-injective _ _ (rw e at h) in
      let kept : q x ≡ true = subst (λ y. q y ≡ true) (sym same) k in rw kept (rw e (ap some same))
  | inr e ↦
      let rest = find_where-filter_where p q rows r (rw e at h) k in
      elim (Bool-cases (q x)) [ inl f ↦ rw f (rw e rest) | inr f ↦ rw f rest ]
]

-- A cited candidate of the run protects it.
pub cited-protects :
    (cited : List String) (run_id id : String) (rows : List CandidateRow) (r : CandidateRow)
    → find_where (has_candidate id) rows ≡ some r
    → elem id cited ≡ true
    → of_run run_id r ≡ true
    → any_cited cited (prior_ids run_id rows) ≡ true
unfolding find_where filter_where prior_ids any_cited has_candidate
cited-protects cited run_id id [] r h c o = ground (arith, h)
cited-protects cited run_id id (x ∷ rows) r h c o = elim (Bool-cases (x.candidate_id == id)) [
  | inl e ↦
      let same : x ≡ r = some-injective _ _ (rw e at h) in
      let own : of_run run_id x ≡ true = subst (λ y. of_run run_id y ≡ true) (sym same) o in
      let known : elem x.candidate_id cited ≡ true =
        subst (λ y. elem y cited ≡ true) (sym (==-eq _ _ e)) c in
      rw own (rw known refl)
  | inr e ↦
      let rest = cited-protects cited run_id id rows r (rw e at h) c o in
      elim (Bool-cases (of_run run_id x)) [
        | inl f ↦ rw f (ground (arith, rest))
        | inr f ↦ rw f rest
      ]
]
