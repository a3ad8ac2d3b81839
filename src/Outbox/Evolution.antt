-- ===== src/Outbox/Evolution.antt =====
-- Each call moves each job along the steps of `Calls`, once the job ids are unique.
use code_sementic_memory.Common.{
  ℕ, ◌+◌, ◌≤◌, ◌<◌, ◌≡◌, refl, sym, ◌∙◌, ap, ◌⊎◌, inl, inr, max, String, Bool, true, false, Option,
  none, some, List, [], ◌∷◌, arith, All, All-of, All-imp, Evolves, Evolves-refl, Evolves-append,
  Evolves-comp, Evolves-update_where, Evolves-imp, subst, Option-cases, update_where, find_where,
  Unique, Unique-update_where, find_where-only, if◌then◌else◌,
}
use code_sementic_memory.Outbox.{
  JobStatus, retry, dead, OutboxJob, JobPayload, Outbox, expire, return_expired, next_status,
  is_processing, has_id_in, is_ready, lease_ids, claim_outbox, waits_as, lease_first,
  claim_outbox_for_task, complete_outbox_for_task, fail_outbox_for_task, holds_lease,
  complete_outbox, release_outbox, park, fail_outbox, event_job, insert_job, same_job,
  insert_unless, fail_found,
}
use code_sementic_memory.Outbox.Calls.{
  Call, enqueue, claim, claim_for_task, complete_for_task, fail_for_task, complete, release, fail,
  step, RowStep, expires, leases, acknowledges, parks, completes, releases, fails, RowSteps, stays,
  moves, reclaims, IsClaim, or_unchanged,
}
use code_sementic_memory.Outbox.Selection.{
  first_job-available, holds_lease-processing, id_of, is_ready-waiting, ready_ids-is_ready,
  waits_as-waiting, waits_for_task-waiting,
}

abbrev either : Bool → JobStatus
either is_dead = if is_dead then dead else retry

either-cases : (b : Bool) → (either b ≡ retry) ⊎ (either b ≡ dead)
either-cases true = inr refl
either-cases false = inl refl

-- A row that an `enqueue` added
unfoldable pub IsFresh : OutboxJob → Type 0
IsFresh k =
    (job_id : String) × (payload : JobPayload) × (now : ℕ) × (k ≡ event_job job_id payload now)

-- Every row moves, and no row is added.
abbrev pub Moves : Call → Outbox → Outbox → Type 0
Moves c = Evolves (RowSteps c) (λ _. ⊥)

-- The rows of one UPDATE
data Moved (c : Call) (j k : OutboxJob) : Type 0 where
  rests : k ≡ j → Moved c j k
  shifts : RowStep c j k → Moved c j k

abbrev Update : Call → Outbox → Outbox → Type 0
Update c = Evolves (Moved c) (λ _. ⊥)

Moved-RowSteps : (c : Call) (j k : OutboxJob) → Moved c j k → RowSteps c j k
Moved-RowSteps c j k (rests e) = stays e
Moved-RowSteps c j k (shifts s) = moves s

Moved-claim :
    (c : Call) → IsClaim c → (i j k : OutboxJob) → Moved c i j → Moved c j k → RowSteps c i k
Moved-claim c h i j k (rests e) (rests q) = stays (q ∙ e)
Moved-claim c h i j k (rests e) (shifts s) = moves (subst (λ (l : OutboxJob). RowStep c l k) e s)
Moved-claim c h i j k (shifts r) (rests q) =
    moves (subst (λ (l : OutboxJob). RowStep c i l) (sym q) r)
Moved-claim c h i j k (shifts r) (shifts s) = reclaims h j r s

Update-Moves : (c : Call) (t u : Outbox) → Update c t u → Moves c t u
Update-Moves c t u =
    Evolves-imp (Moved c) (RowSteps c) (λ _. ⊥) (λ _. ⊥) t u (Moved-RowSteps c) (λ k n. n)

module _ (c : Call) where
  -- An update whose guarded rows make a step
  Update-Evolves :
      (p : OutboxJob → Bool) (f : OutboxJob → OutboxJob) (t : Outbox)
      → All (λ j. p j ≡ true → RowStep c j (f j)) t
      → Update c t (update_where p f t)
  Update-Evolves p f t h =
      Evolves-update_where p f (λ j. p j ≡ true → RowStep c j (f j)) (Moved c) (λ _. ⊥) t
        (λ j s e. shifts (s e)) (λ j s e. rests refl) h

  return_expired-Evolves : (now : ℕ) (t : Outbox) → Update c t (return_expired now t)
  unfolding return_expired
  return_expired-Evolves now t = Update-Evolves _ _ t (All-of t (λ j e. expires now e refl))

  lease_ids-Evolves :
      (now until : ℕ) (ty : Option String) (ids : List String) (t : Outbox)
      → now < until
      → All (λ j. has_id_in ids j ≡ true → is_ready now ty j ≡ true) t
      → Update c t (lease_ids now until ids t).1
  unfolding lease_ids
  lease_ids-Evolves now until ty [] t lt h = Evolves-refl (Moved c) (λ _. ⊥) t (λ j. rests refl)
  lease_ids-Evolves now until ty (i ∷ ids) t lt h = Update-Evolves _ _ t (
      All-imp t
        (λ j r e. let (w, a) = is_ready-waiting now ty j (r e) in leases now until w a lt refl) h)

  lease_first-Evolves :
      (now until : ℕ) (o : Option OutboxJob) (t : Outbox)
      → now < until
      → ((j : OutboxJob)
          → o ≡ some j
          → All (λ k. waits_as j.job_id k ≡ true → k.available_at ≤ now) t)
      → Update c t (lease_first now until o t).1
  unfolding lease_first
  lease_first-Evolves now until none t lt h = Evolves-refl (Moved c) (λ _. ⊥) t (λ j. rests refl)
  lease_first-Evolves now until (some j) t lt h = Update-Evolves _ _ t (
      All-imp t (λ k a e. leases now until (waits_as-waiting j.job_id k e).1 (a e) lt refl)
        (h j refl))

  claimed : (s t u : Outbox) → IsClaim c → Update c s t → Update c t u → Moves c s u
  claimed s t u h =
      Evolves-comp (Moved c) (Moved c) (RowSteps c) (λ _. ⊥) s t u (Moved-claim c h)
        (λ j k _ none_new. absurd none_new)

pub return_expired-Unique :
    (now : ℕ) (t : Outbox) → Unique id_of t → Unique id_of (return_expired now t)
unfolding return_expired expire
return_expired-Unique now t u = Unique-update_where id_of _ _ t (λ j. refl) u

fails_alike :
    (c : Call) (now until : ℕ) (is_dead : Bool) (error : String) (row j : OutboxJob)
    → j ≡ row
    → is_processing j.status ≡ true
    → RowStep c j (park now (next_status is_dead row) until error j)
fails_alike c now until is_dead error row j e p =
    fails now until is_dead error p
      (ap (λ (r : OutboxJob). park now (next_status is_dead r) until error j) (sym e))

fail-Evolves :
    (c : Call) (now later : ℕ) (job_id error : String) (retry_at delay : Option ℕ) (is_dead : Bool)
    (t : Outbox)
    → Unique id_of t
    → Update c t (fail_outbox now later job_id error retry_at delay is_dead t).1
unfolding fail_outbox fail_found
fail-Evolves c now later job_id error retry_at delay is_dead t u =
    elim (Option-cases (find_where (holds_lease job_id) t)) [
      | inl e ↦ rw e (Evolves-refl (Moved c) (λ _. ⊥) t (λ j. rests refl))
      | inr (row, e) ↦ rw e (
          Update-Evolves c _ _ t (
            All-imp t
              (λ j only q.
                fails_alike c now _ is_dead error row j (only q)
                  (holds_lease-processing job_id j q).1)
              (find_where-only id_of (holds_lease job_id) job_id t row
                (λ j q. (holds_lease-processing job_id j q).0) u e)))
    ]

abbrev pub IsEnqueue : Call → Type 0
IsEnqueue (enqueue job_id payload now) = Unit
IsEnqueue _ = ⊥

pub step-Moves : (c : Call) (t : Outbox) → Unique id_of t → ¬ IsEnqueue c → Moves c t (step c t)
unfolding step
step-Moves (enqueue job_id payload now) t u other = absurd (other tt)
step-Moves (claim now limit seconds ty) t u other =
    unfold claim_outbox in
    let c = claim now limit seconds ty in
    let t' = return_expired now t in
    claimed c t t' _ tt (return_expired-Evolves c now t) (
      lease_ids-Evolves c now (now + max 1 seconds) ty _ t' (omega arith)
        (ready_ids-is_ready now limit ty t' (return_expired-Unique now t u)))
step-Moves (claim_for_task now seconds ty task) t u other =
    unfold claim_outbox_for_task in
    let c = claim_for_task now seconds ty task in
    let t' = return_expired now t in
    claimed c t t' _ tt (return_expired-Evolves c now t) (
      lease_first-Evolves c now (now + max 1 seconds) _ t' (omega arith)
        (λ j e. first_job-available now ty task t' j (return_expired-Unique now t u) e))
step-Moves (complete_for_task now ty task) t u other =
    unfold complete_outbox_for_task in
    Update-Moves _ t _ (
      Update-Evolves _ _ _ t
        (All-of t (λ j e. acknowledges now (waits_for_task-waiting ty task j e) refl)))
step-Moves (fail_for_task now ty task error is_dead delay) t u other =
    unfold fail_outbox_for_task in
    Update-Moves _ t _ (
      Update-Evolves _ _ _ t (
        All-of t (λ j e.
          parks now _ _ error (waits_for_task-waiting ty task j e) (either-cases is_dead) refl)))
step-Moves (complete now job_id) t u other =
    unfold complete_outbox in
    Update-Moves _ t _ (
      Update-Evolves _ _ _ t
        (All-of t (λ j e. completes now (holds_lease-processing job_id j e).1 refl)))
step-Moves (release now job_id) t u other =
    unfold release_outbox in
    Update-Moves _ t _ (
      Update-Evolves _ _ _ t (
        All-of t (λ j e.
          releases now (ap (release now) (sym (holds_lease-processing job_id j e).0))
            (holds_lease-processing job_id j e).1 refl)))
step-Moves (fail now later job_id error retry_at delay is_dead) t u other =
    Update-Moves _ t _ (fail-Evolves _ now later job_id error retry_at delay is_dead t u)

moved :
    (c : Call) (t : Outbox)
    → Unique id_of t
    → ¬ IsEnqueue c
    → Evolves (RowSteps c) IsFresh t (step c t)
moved c t u other =
    Evolves-imp (RowSteps c) (RowSteps c) (λ _. ⊥) IsFresh t _ (λ j k r. r)
      (λ k none_new. absurd none_new) (step-Moves c t u other)

enqueue-Evolves :
    (job_id : String) (payload : JobPayload) (now : ℕ) (t : Outbox)
    → Evolves
        (RowSteps (enqueue job_id payload now))
        IsFresh
        t
        (step (enqueue job_id payload now) t)
unfolding step insert_job
enqueue-Evolves job_id payload now t =
    inserted (find_where (same_job (event_job job_id payload now)) t)
  where
    inserted :
        (o : Option OutboxJob)
        → Evolves
            (RowSteps (enqueue job_id payload now))
            IsFresh
            t
            (or_unchanged (insert_unless o (event_job job_id payload now) t) t)
    inserted none =
        unfold insert_unless IsFresh in
        Evolves-append _ _ t (event_job job_id payload now ∷ []) (λ k. stays refl)
          ((job_id, payload, now, refl), tt)
    inserted (some k) = unfold insert_unless in Evolves-refl _ _ t (λ k. stays refl)

-- With unique job ids, a call leaves every job in its place, moved along the steps; it may add one.
pub step-Evolves :
    (c : Call) (t : Outbox) → Unique id_of t → Evolves (RowSteps c) IsFresh t (step c t)
step-Evolves (enqueue job_id payload now) t u = enqueue-Evolves job_id payload now t
step-Evolves (claim now limit seconds ty) t u = moved _ t u (λ e. e)
step-Evolves (claim_for_task now seconds ty task) t u = moved _ t u (λ e. e)
step-Evolves (complete_for_task now ty task) t u = moved _ t u (λ e. e)
step-Evolves (fail_for_task now ty task error is_dead delay) t u = moved _ t u (λ e. e)
step-Evolves (complete now job_id) t u = moved _ t u (λ e. e)
step-Evolves (release now job_id) t u = moved _ t u (λ e. e)
step-Evolves (fail now later job_id error retry_at delay is_dead) t u = moved _ t u (λ e. e)
