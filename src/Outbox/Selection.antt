-- ===== src/Outbox/Selection.antt =====
-- The states of the jobs that the claims and the bulk operations of the outbox select.
use code_sementic_memory.Common.{
  ℕ, ◌≤◌, ◌≡◌, sym, ◌∙◌, ◌≢◌, ◌⊎◌, inl, inr, String, true, false, Option, some, [], ◌∷◌, map, arith,
  All, All-imp, All-map, All-take, All-sort_by, subst, Option-cases, Bool-cases, false≢true,
  filter_where, Unique, Unique-filter_where, elem-false, take, sort_by, some-injective, eq_iff,
}
use code_sementic_memory.Outbox.{
  OutboxJob, Outbox, is_waiting, is_processing, has_id_in, is_ready, created, claim_limit,
  ready_ids, waits_for_task, waits_as, is_ready_for_task, holds_lease, comes_before, first_job,
}

abbrev pub id_of : OutboxJob → String
id_of j = j.job_id

pub is_ready-waiting :
    (now : ℕ) (ty : Option String) (j : OutboxJob)
    → is_ready now ty j ≡ true
    → (is_waiting j.status ≡ true) × (j.available_at ≤ now)
unfolding is_ready
is_ready-waiting now ty j h = ground arith

pub waits_for_task-waiting :
    (ty task : String) (j : OutboxJob)
    → waits_for_task ty task j ≡ true
    → is_waiting j.status ≡ true
unfolding waits_for_task
waits_for_task-waiting ty task j h = ground arith

pub is_ready_for_task-available :
    (now : ℕ) (ty task : String) (j : OutboxJob)
    → is_ready_for_task now ty task j ≡ true
    → j.available_at ≤ now
unfolding is_ready_for_task
is_ready_for_task-available now ty task j h = ground arith

pub waits_as-waiting :
    (i : String) (j : OutboxJob)
    → waits_as i j ≡ true
    → (j.job_id ≡ i) × (is_waiting j.status ≡ true)
unfolding waits_as
waits_as-waiting i j h = ground (arith, eq_iff j.job_id i)

pub holds_lease-processing :
    (i : String) (j : OutboxJob)
    → holds_lease i j ≡ true
    → (j.job_id ≡ i) × (is_processing j.status ≡ true)
unfolding holds_lease
holds_lease-processing i j h = ground (arith, eq_iff j.job_id i)

-- The rows that bear a selected id are the rows that were ready.
pub ready_ids-is_ready :
    (now limit : ℕ) (ty : Option String) (t : Outbox)
    → Unique id_of t
    → All (λ j. has_id_in (ready_ids now limit ty t) j ≡ true → is_ready now ty j ≡ true) t
unfolding ready_ids
ready_ids-is_ready now limit ty t u =
    All-imp t
      (λ j other h. elim (Bool-cases (is_ready now ty j)) [
        | inl e ↦ e
        | inr e ↦ absurd (false≢true (sym (elem-false j.job_id _ (not_selected j (other e))) ∙ h))
      ])
      (Unique-filter_where id_of (is_ready now ty) t u)
  where
    not_selected :
        (j : OutboxJob)
        → All (λ k. j.job_id ≢ k.job_id) (filter_where (is_ready now ty) t)
        → All
            (λ i. j.job_id ≢ i)
            (map
              (λ k. k.job_id)
              (take (claim_limit limit) (sort_by created (filter_where (is_ready now ty) t))))
    not_selected j h =
        All-map (λ i. j.job_id ≢ i) (λ k. k.job_id) _
          (All-take (λ k. j.job_id ≢ k.job_id) (claim_limit limit) _
            (All-sort_by created (λ k. j.job_id ≢ k.job_id) _ h))

first_job-cons :
    (k : OutboxJob) (ks : Outbox) (j : OutboxJob)
    → first_job (k ∷ ks) ≡ some j
    → (k ≡ j) ⊎ (first_job ks ≡ some j)
unfolding first_job
first_job-cons k ks j h = elim (Option-cases (first_job ks)) [
  | inl e ↦ inl (some-injective _ _ (rw e at h))
  | inr (l, e) ↦ elim (Bool-cases (comes_before l k)) [
    | inl b ↦ inr (e ∙ rw b at (rw e at h))
    | inr b ↦ inl (some-injective _ _ (rw b at (rw e at h)))
  ]
]

All-first_job {κ} :
    (P : OutboxJob → Type κ) (l : Outbox) (j : OutboxJob) → first_job l ≡ some j → All P l → P j
All-first_job P [] j h a = absurd (nothing_first j h)
  where
    nothing_first : (k : OutboxJob) → first_job [] ≡ some k → ⊥
    nothing_first k q = unfold first_job in cc q
All-first_job P (k ∷ ks) j h a = elim (first_job-cons k ks j h) [
  | inl e ↦ subst P e a.0
  | inr e ↦ All-first_job P ks j e a.1
]

-- A row with the id of the one that a task's claim selects is ready for the task.
pub first_job-ready :
    (now : ℕ) (ty task : String) (t : Outbox) (j : OutboxJob)
    → Unique id_of t
    → first_job (filter_where (is_ready_for_task now ty task) t) ≡ some j
    → All (λ k. k.job_id ≡ j.job_id → is_ready_for_task now ty task k ≡ true) t
first_job-ready now ty task t j u h =
    All-imp t (λ k other. ready k other)
      (Unique-filter_where id_of (is_ready_for_task now ty task) t u)
  where
    ready :
        (k : OutboxJob)
        → (is_ready_for_task now ty task k ≡ false
            → All (λ l. k.job_id ≢ l.job_id) (filter_where (is_ready_for_task now ty task) t))
        → k.job_id ≡ j.job_id
        → is_ready_for_task now ty task k ≡ true
    ready k other same = elim (Bool-cases (is_ready_for_task now ty task k)) [
      | inl e ↦ e
      | inr e ↦ absurd (All-first_job (λ l. k.job_id ≢ l.job_id) _ j h (other e) same)
    ]

-- The row that a task's claim leases was available.
pub first_job-available :
    (now : ℕ) (ty task : String) (t : Outbox) (j : OutboxJob)
    → Unique id_of t
    → first_job (filter_where (is_ready_for_task now ty task) t) ≡ some j
    → All (λ k. waits_as j.job_id k ≡ true → k.available_at ≤ now) t
first_job-available now ty task t j u h =
    All-imp t
      (λ k ready w.
        is_ready_for_task-available now ty task k (ready (waits_as-waiting j.job_id k w).0))
      (first_job-ready now ty task t j u h)
