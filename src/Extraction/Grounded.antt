-- ===== src/Extraction/Grounded.antt =====
-- The batches that pass `_validate_batch`, described without its order of checks.
use code_sementic_memory.Common.{
  ◌≡◌, ◌≢◌, ◌↔◌, refl, sym, String, true, false, false≢true, Option, none, some, List, [], ◌∷◌,
  ◌==◌, arith, inl, inr, Bool-cases, All, Unique, elem, eq_iff, ==-eq,
}
use code_sementic_memory.Extraction.Batch.{
  Batch, BatchBinding, BatchCandidate, BatchError, Context, check_binding, check_bindings,
  check_candidate, check_candidates, check_header, first_error, has_target, is_empty_list,
  same_extractor, same_option, subset, validate_batch,
}

abbrev pub Within : List String → List String → Type 0
Within xs ys = All (λ x. elem x ys ≡ true) xs

-- Every binding has evidence among the candidate's and names a target.
pub record BindingGrounded (events : List String) (b : BatchBinding) : Type 0 where
  pub some_evidence : is_empty_list b.evidence ≡ false
  pub evidence : Within b.evidence events
  pub target : has_target b ≡ true

-- A candidate has evidence, all of it known and declared as a source, and its bindings are grounded.
pub record CandidateGrounded (known sources : List String) (c : BatchCandidate) : Type 0 where
  pub some_evidence : is_empty_list c.evidence_event_ids ≡ false
  pub known_evidence : Within c.evidence_event_ids known
  pub declared : Within c.evidence_event_ids sources
  pub bindings : All (BindingGrounded c.evidence_event_ids) c.bindings

-- The batch answers the leased run, its sources are events of the context, and its candidates are grounded and
-- have different ids.
pub record IsGrounded (x : Context) (b : Batch) : Type 0 where
  pub run : b.extraction_run_id ≡ x.extraction_run_id
  pub project : b.project_id ≡ x.project_id
  pub task : b.task_id ≡ x.task_id
  pub session : same_option b.session_id x.session_id ≡ true
  pub extractor : same_extractor b.extractor x.extractor ≡ true
  pub some_source : is_empty_list b.source_event_ids ≡ false
  pub sources : Within b.source_event_ids x.event_ids
  pub candidates : All (CandidateGrounded x.event_ids b.source_event_ids) b.candidates
  pub distinct : Unique (λ (c : BatchCandidate). c.candidate_id) b.candidates

subset_iff : (xs ys : List String) → (subset xs ys ≡ true) ↔ Within xs ys
unfolding subset
subset_iff [] ys = ((λ h. tt), (λ h. refl))
subset_iff (x ∷ xs) ys = elim (Bool-cases (elem x ys)) [
  | inl e ↦ rw e ((λ h. (refl, (subset_iff xs ys).0 h)), (λ h. (subset_iff xs ys).1 h.1))
  | inr e ↦ rw e ((λ h. absurd (false≢true h)), (λ h. absurd (false≢true h.0)))
]

first_error-none : (a b : Option BatchError) → (first_error a b ≡ none) ↔ ((a ≡ none) × (b ≡ none))
first_error-none none b = ((λ h. (refl, h)), (λ h. h.1))
first_error-none (some e) b = ((λ h. ground (arith, h)), (λ h. ground (arith, h.0)))

check_binding_iff :
    (id : String) (events : List String) (b : BatchBinding)
    → (check_binding id events b ≡ none) ↔ BindingGrounded events b
unfolding check_binding
check_binding_iff id events b = (
  (λ h. record {
    some_evidence = ground (arith, h);
    evidence = (subset_iff b.evidence events).0 (ground (arith, h));
    target = ground (arith, h);
  }),
  (λ g.
      let s = (subset_iff b.evidence events).1 g.evidence in
      rw (g.some_evidence, s, g.target) refl),
)

check_bindings_iff :
    (id : String) (events : List String) (bs : List BatchBinding)
    → (check_bindings id events bs ≡ none) ↔ All (BindingGrounded events) bs
unfolding check_bindings
check_bindings_iff id events [] = ((λ h. tt), (λ h. refl))
check_bindings_iff id events (b ∷ bs) =
    let both = first_error-none (check_binding id events b) (check_bindings id events bs) in
    let one = check_binding_iff id events b in
    let rest = check_bindings_iff id events bs in
    ((λ h. let (a, k) = both.0 h in (one.0 a, rest.0 k)), (λ h. both.1 (one.1 h.0, rest.1 h.1)))

check_candidate_iff :
    (known sources seen : List String) (c : BatchCandidate)
    → (check_candidate known sources seen c ≡ none) ↔ (
        (elem c.candidate_id seen ≡ false)
        × (is_empty_list c.evidence_event_ids ≡ false)
        × Within c.evidence_event_ids known
        × Within c.evidence_event_ids sources)
unfolding check_candidate
check_candidate_iff known sources seen c = (
  (λ h. (
    ground (arith, h),
    ground (arith, h),
    (subset_iff c.evidence_event_ids known).0 (ground (arith, h)),
    (subset_iff c.evidence_event_ids sources).0 (ground (arith, h)),
  )),
  (λ (fresh, filled, k, s).
      let k' = (subset_iff c.evidence_event_ids known).1 k in
      let s' = (subset_iff c.evidence_event_ids sources).1 s in rw (fresh, k', filled, s') refl),
)

abbrev candidate_key : BatchCandidate → String
candidate_key c = c.candidate_id

abbrev Fresh : List String → List BatchCandidate → Type 0
Fresh seen cs = All (λ c. elem (candidate_key c) seen ≡ false) cs

-- Ids that are not in a longer list are not in the shorter one, and differ from its head.
Fresh-cons :
    (id : String) (seen : List String) (cs : List BatchCandidate)
    → Fresh (id ∷ seen) cs ↔ (All (λ c. id ≢ candidate_key c) cs × Fresh seen cs)
unfolding elem
Fresh-cons id seen [] = ((λ h. (tt, tt)), (λ h. tt))
Fresh-cons id seen (c ∷ cs) =
    let rest = Fresh-cons id seen cs in
    (
      (λ h.
          let (differ, others) = rest.0 h.1 in
          (
            ((λ q. absurd (ground (arith, h.0, (eq_iff c.candidate_id id).1 (sym q)))), differ),
            (ground (arith, h.0), others),
          )),
      (λ h. (
        elim (Bool-cases (c.candidate_id == id)) [
          | inl e ↦ absurd (h.0.0 (sym (==-eq c.candidate_id id e)))
          | inr e ↦ rw e h.1.0
        ],
        rest.1 (h.0.1, h.1.1),
      )),
    )

abbrev Passes : List String → List String → List String → List BatchCandidate → Type 0
Passes known sources seen cs =
    All (CandidateGrounded known sources) cs × Unique candidate_key cs × Fresh seen cs

check_candidates_iff :
    (known sources seen : List String) (cs : List BatchCandidate)
    → (check_candidates known sources seen cs ≡ none) ↔ Passes known sources seen cs
unfolding check_candidates
check_candidates_iff known sources seen [] = ((λ h. (tt, tt, tt)), (λ h. refl))
check_candidates_iff known sources seen (c ∷ cs) =
    let outer = first_error-none (check_candidate known sources seen c) (
      first_error (check_bindings c.candidate_id c.evidence_event_ids c.bindings)
        (check_candidates known sources (c.candidate_id ∷ seen) cs)) in
    let inner =
      first_error-none (check_bindings c.candidate_id c.evidence_event_ids c.bindings)
        (check_candidates known sources (c.candidate_id ∷ seen) cs) in
    let one = check_candidate_iff known sources seen c in
    let bound = check_bindings_iff c.candidate_id c.evidence_event_ids c.bindings in
    let rest = check_candidates_iff known sources (c.candidate_id ∷ seen) cs in
    let fresh = Fresh-cons c.candidate_id seen cs in
    (
      (λ h.
          let (a, k) = outer.0 h in
          let (b, r) = inner.0 k in
          let (new, filled, in_known, in_sources) = one.0 a in
          let (grounded, unique, unseen) = rest.0 r in
          let (differ, others) = fresh.0 unseen in
          (
            (
              record {
                some_evidence = filled;
                known_evidence = in_known;
                declared = in_sources;
                bindings = bound.0 b;
              },
              grounded,
            ),
            (differ, unique),
            (new, others),
          )),
      (λ (grounded, unique, new).
          let g = grounded.0 in
          outer.1 (
            one.1 (new.0, g.some_evidence, g.known_evidence, g.declared),
            inner.1 (bound.1 g.bindings, rest.1 (grounded.1, unique.1, fresh.1 (unique.0, new.1))),
          )),
    )

check_header_iff :
    (x : Context) (b : Batch)
    → (check_header x b ≡ none) ↔ (
        (b.extraction_run_id ≡ x.extraction_run_id)
        × (b.project_id ≡ x.project_id)
        × (b.task_id ≡ x.task_id)
        × (same_option b.session_id x.session_id ≡ true)
        × (same_extractor b.extractor x.extractor ≡ true)
        × (is_empty_list b.source_event_ids ≡ false)
        × Within b.source_event_ids x.event_ids)
unfolding check_header
check_header_iff x b = (
  (λ h. (
    ==-eq b.extraction_run_id x.extraction_run_id (ground (arith, h)),
    ==-eq b.project_id x.project_id (ground (arith, h)),
    ==-eq b.task_id x.task_id (ground (arith, h)),
    ground (arith, h),
    ground (arith, h),
    ground (arith, h),
    (subset_iff b.source_event_ids x.event_ids).0 (ground (arith, h)),
  )),
  (λ (run, project, task, session, extractor, filled, sources).
      let r = (eq_iff b.extraction_run_id x.extraction_run_id).1 run in
      let p = (eq_iff b.project_id x.project_id).1 project in
      let t = (eq_iff b.task_id x.task_id).1 task in
      let s = (subset_iff b.source_event_ids x.event_ids).1 sources in
      rw (r, p, t, session, extractor, filled, s) refl),
)

-- A batch passes the validation exactly when it is grounded: it answers the leased run, project, task, session
-- and extractor; it has sources, all of them events of the context; its candidates have different ids, each has
-- evidence, all of it known and declared, and each binding has a target and evidence among its candidate's.
pub validate_batch_iff : (x : Context) (b : Batch) → (validate_batch x b ≡ none) ↔ IsGrounded x b
unfolding validate_batch
validate_batch_iff x b =
    let both =
      first_error-none (check_header x b)
        (check_candidates x.event_ids b.source_event_ids [] b.candidates) in
    let header = check_header_iff x b in
    let cs = check_candidates_iff x.event_ids b.source_event_ids [] b.candidates in
    (
      (λ h.
          let (a, k) = both.0 h in
          let (run, project, task, session, extractor, filled, sources) = header.0 a in
          let (grounded, unique, fresh) = cs.0 k in
          record {
            run = run;
            project = project;
            task = task;
            session = session;
            extractor = extractor;
            some_source = filled;
            sources = sources;
            candidates = grounded;
            distinct = unique;
          }),
      (λ g. both.1 (
        header.1 (g.run, g.project, g.task, g.session, g.extractor, g.some_source, g.sources),
        cs.1 (g.candidates, g.distinct, unseen b.candidates),
      )),
    )
  where
    unseen : (cs : List BatchCandidate) → Fresh [] cs
    unseen [] = tt
    unseen (c ∷ cs) = (unfold elem in refl, unseen cs)
