-- ===== src/Outbox/Granted.antt =====
-- What a lease does to the attempts of the jobs that it hands out.
use mathlib.Core.Option
use code_sementic_memory.Common.{
  ℕ, ◌+◌, ◌≤◌, ◌≡◌, refl, sym, ◌∙◌, String, Bool, true, false, false≢true, Option, none, some, List,
  [], ◌∷◌, ◌≢◌, arith, All, All-of, sort_by, Bool-cases, inl, inr, elem, map, ◌==◌, eq_iff, eq_refl,
  if◌then◌else◌, Option-cases, Evolves, update_where, filter_where, find_where, find_where-holds,
  find_where-none, find_where-update_where, All-find_where, All-update_where, All-filter_where,
  All-sort_by, subst,
}
use code_sementic_memory.Outbox.{
  OutboxJob, Outbox, expire, lease, created, has_id_in, lease_ids, return_expired, lease_first,
  waits_as, is_waiting, lease_expired,
}
use code_sementic_memory.Outbox.Calls.{Call, RowSteps}
use code_sementic_memory.Outbox.Evolution.{IsFresh}
use code_sementic_memory.Outbox.Selection.{id_of}
use code_sementic_memory.Outbox.Lifecycle.{RowSteps-JobHistory}

abbrev pub one_or_none : Option OutboxJob → List OutboxJob
one_or_none none = []
one_or_none (some j) = j ∷ []

abbrev pub times : Bool → ℕ
times true = 1
times false = 0

abbrev pub has_id : String → OutboxJob → Bool
has_id i j = j.job_id == i

abbrev pub attempts_or_none : Option OutboxJob → ℕ
attempts_or_none none = 0
attempts_or_none (some j) = j.attempts

-- The attempts of the job with an id; 0 where there is none
abbrev pub attempts_in : String → Outbox → ℕ
attempts_in i t = attempts_or_none (find_where (has_id i) t)

pub attempts-Evolves :
    (c : Call) (i : String) (t u : Outbox)
    → Evolves (RowSteps c) IsFresh t u
    → attempts_in i t ≤ attempts_in i u
unfolding find_where
attempts-Evolves c i [] u e = omega arith
attempts-Evolves c i (j ∷ js) [] e = absurd e
attempts-Evolves c i (j ∷ js) (k ∷ ks) e =
    let w = RowSteps-JobHistory c j k e.0 in
    elim (Bool-cases (j.job_id == i)) [
      | inl h ↦ rw (w.same_id, h) w.attempts_grow
      | inr h ↦ rw (w.same_id, h) (attempts-Evolves c i js ks e.1)
    ]

elem-All :
    (P : String → Type 0) (i : String) (jobs : Outbox)
    → elem i (map id_of jobs) ≡ true
    → All (λ j. P j.job_id) jobs
    → P i
unfolding elem
elem-All P i [] h a = absurd (false≢true h)
elem-All P i (j ∷ js) h a = elim (Bool-cases (i == j.job_id)) [
  | inl e ↦ subst P (sym ((eq_iff i j.job_id).0 e)) a.0
  | inr e ↦ elem-All P i js (rw e at h) a.1
]

-- A lease of the rows that pass `q`, where a job that is handed out is there and passes
leased-attempts :
    (i : String) (q : OutboxJob → Bool) (now until : ℕ) (b : Bool) (t : Outbox)
    → (b ≡ true → (x : OutboxJob) × (find_where (has_id i) t ≡ some x) × (q x ≡ true))
    → times b + attempts_in i t ≤ attempts_in i (update_where q (lease now until) t)
unfolding lease
leased-attempts i q now until b t h =
    rw (find_where-update_where (has_id i) q (lease now until) t (λ x. refl)) (elim (Bool-cases b) [
      | inl e ↦ let (x, found, passes) = h e in rw (e, found) (rw passes (omega arith))
      | inr e ↦ rw e (omega (arith, kept (find_where (has_id i) t)))
    ])
  where
    kept :
        (o : Option OutboxJob)
        → attempts_or_none o
          ≤ attempts_or_none (Option.map (λ x. if q x then lease now until x else x) o)
    kept none = omega arith
    kept (some x) = elim (Bool-cases (q x)) [
      | inl p ↦ rw p (omega arith)
      | inr p ↦ rw p (omega arith)
    ]

pub expired-attempts :
    (i : String) (now : ℕ) (t : Outbox) → attempts_in i t ≤ attempts_in i (return_expired now t)
unfolding return_expired expire
expired-attempts i now t =
    rw (find_where-update_where (has_id i) _ (expire now) t (λ x. refl))
      (kept (find_where (has_id i) t))
  where
    kept :
        (o : Option OutboxJob)
        → attempts_or_none o
          ≤ attempts_or_none (Option.map (λ x. if lease_expired now x then expire now x else x) o)
    kept none = omega arith
    kept (some x) = elim (Bool-cases (lease_expired now x)) [
      | inl p ↦ rw p (omega arith)
      | inr p ↦ rw p (omega arith)
    ]

pub lease_ids-attempts :
    (now until : ℕ) (ids : List String) (t : Outbox) (i : String)
    → times (elem i (map id_of (lease_ids now until ids t).0)) + attempts_in i t
      ≤ attempts_in i (lease_ids now until ids t).1
unfolding lease_ids lease
lease_ids-attempts now until [] t i = unfold elem in omega arith
lease_ids-attempts now until (d ∷ ids) t i =
    leased-attempts i (has_id_in (d ∷ ids)) now until _ t handed
  where
    u : Outbox
    u = update_where (has_id_in (d ∷ ids)) (lease now until) t

    rows : List OutboxJob
    rows = filter_where (has_id_in (d ∷ ids)) u

    handed :
        elem i (map id_of (sort_by created rows)) ≡ true
        → (x : OutboxJob) × (find_where (has_id i) t ≡ some x) × (has_id_in (d ∷ ids) x ≡ true)
    handed h = elim (Option-cases (find_where (has_id i) t)) [
      | inl e ↦
          let k : (i == i) ≡ false =
            elem-All (λ k. (k == i) ≡ false) i (sort_by created rows) h
              (All-sort_by created _ rows (
                All-filter_where (has_id_in (d ∷ ids)) (λ x. has_id i x ≡ false) _ u (λ x a b. a)
                  (All-update_where (has_id_in (d ∷ ids)) (lease now until)
                    (λ x. has_id i x ≡ false) _ t (λ x a b. a) (λ x a b. a)
                    (find_where-none (has_id i) t e)))) in
          absurd (false≢true (sym k ∙ eq_refl i))
      | inr (x, e) ↦
          let own : x.job_id ≡ i = (eq_iff x.job_id i).0 (find_where-holds (has_id i) t x e) in
          (
            x,
            e,
            subst (λ k. elem k (d ∷ ids) ≡ true) (sym own)
                (elem-All (λ k. elem k (d ∷ ids) ≡ true) i (sort_by created rows) h
                  (All-sort_by created _ rows (
                    All-filter_where (has_id_in (d ∷ ids)) (λ _. Unit {0}) _ u (λ x a b. b)
                      (All-of u (λ x. tt))))),
          )
    ]

pub lease_first-attempts :
    (now until : ℕ) (o : Option OutboxJob) (t : Outbox) (i : String)
    → ((j : OutboxJob) → o ≡ some j → All (λ k. k.job_id ≡ j.job_id → is_waiting k.status ≡ true) t)
    → times (elem i (map id_of (one_or_none (lease_first now until o t).0))) + attempts_in i t
      ≤ attempts_in i (lease_first now until o t).1
unfolding lease_first lease waits_as
lease_first-attempts now until none t i waits = unfold elem in omega arith
lease_first-attempts now until (some j) t i waits =
    leased-attempts i (waits_as j.job_id) now until _ t
      (handed (find_where (has_id j.job_id) u) refl)
  where
    gone : (y : OutboxJob) → some y ≢ none
    gone y e = ground (arith, e)

    u : Outbox
    u = update_where (waits_as j.job_id) (lease now until) t

    handed :
        (o : Option OutboxJob)
        → find_where (has_id j.job_id) u ≡ o
        → elem i (map id_of (one_or_none o)) ≡ true
        → (x : OutboxJob) × (find_where (has_id i) t ≡ some x) × (waits_as j.job_id x ≡ true)
    handed none f h = absurd (false≢true (unfold elem in h))
    handed (some y) f h =
        let same : i ≡ j.job_id =
          (eq_iff i y.job_id).0 (unfold elem in ground (arith, h))
          ∙ (eq_iff y.job_id j.job_id).0 (find_where-holds (has_id j.job_id) u y f) in
        elim (Option-cases (find_where (has_id j.job_id) t)) [
          | inl e ↦
              let q =
                find_where-update_where (has_id j.job_id) (waits_as j.job_id) (lease now until) t
                  (λ x. refl) in
              absurd (gone y (sym f ∙ q ∙ rw e refl))
          | inr (x, e) ↦
              let own = find_where-holds (has_id j.job_id) t x e in
              (
                x,
                subst (λ k. find_where (has_id k) t ≡ some x) (sym same) e,
                rw
                    (
                      own,
                      All-find_where (has_id j.job_id) _ t x e (waits j refl)
                          ((eq_iff x.job_id j.job_id).0 own),
                    )
                    refl,
              )
        ]
