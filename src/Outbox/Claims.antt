-- ===== src/Outbox/Claims.antt =====
-- How often the claims answer with a job: each time its attempts grow by one.
use code_sementic_memory.Common.{
  ℕ, ◌+◌, ◌≤◌, ◌≡◌, refl, String, true, false, List, [], ◌∷◌, ◌≢◌, arith, All, All-zip, All-imp,
  Bool-cases, inl, inr, elem, map, ◌==◌, eq_iff, eq_refl, max, filter_where, find_where, Unique,
}
use code_sementic_memory.Outbox.{
  OutboxJob, Outbox, ready_ids, return_expired, claim_outbox, claim_outbox_for_task,
  is_ready_for_task, is_waiting, first_job, waits_for_task,
}
use code_sementic_memory.Outbox.Calls.{
  Call, enqueue, claim, claim_for_task, complete_for_task, fail_for_task, complete, release, fail,
  step, run,
}
use code_sementic_memory.Outbox.Evolution.{step-Evolves, return_expired-Unique}
use code_sementic_memory.Outbox.Selection.{first_job-ready, id_of}
use code_sementic_memory.Outbox.Lifecycle.{IsValid, step-IsValid}
use code_sementic_memory.Outbox.Granted.{
  times, one_or_none, attempts_in, attempts-Evolves, expired-attempts, lease_ids-attempts,
  lease_first-attempts,
}

-- The jobs that a call hands to a worker
abbrev pub handed_out : Call → Outbox → List OutboxJob
handed_out (claim now limit seconds ty) t = (claim_outbox now limit seconds ty t).0
handed_out (claim_for_task now seconds ty task) t =
    one_or_none (claim_outbox_for_task now seconds ty task t).0
handed_out _ t = []

-- The calls that hand out the job, each made on the table that the calls before it leave
unfoldable pub claims_of : List Call → Outbox → String → ℕ
claims_of [] t i = 0
claims_of (c ∷ cs) t i =
    let later = claims_of cs (step c t) i in times (elem i (map id_of (handed_out c t))) + later

ready-waiting :
    (now : ℕ) (ty task : String) (k : OutboxJob)
    → is_ready_for_task now ty task k ≡ true
    → is_waiting k.status ≡ true
unfolding is_ready_for_task waits_for_task
ready-waiting now ty task k h = ground (arith, h)

no_claim :
    (c : Call) (t : Outbox) (i : String)
    → IsValid t
    → times (elem i []) + attempts_in i t ≤ attempts_in i (step c t)
unfolding elem
no_claim c t i v =
    let grows : attempts_in i t ≤ attempts_in i (step c t) =
      attempts-Evolves c i t (step c t) (step-Evolves c t v.ids) in
    omega (arith, grows)

step-claims :
    (c : Call) (t : Outbox) (i : String)
    → IsValid t
    → times (elem i (map id_of (handed_out c t))) + attempts_in i t ≤ attempts_in i (step c t)
unfolding step
step-claims (claim now limit seconds ty) t i v =
    unfold claim_outbox in
    let t' = return_expired now t in
    omega (
      arith,
      expired-attempts i now t,
      lease_ids-attempts now (now + max 1 seconds) (ready_ids now limit ty t') t' i,
    )
step-claims (claim_for_task now seconds ty task) t i v =
    unfold claim_outbox_for_task in
    let t' = return_expired now t in
    omega (
      arith,
      expired-attempts i now t,
      lease_first-attempts now (now + max 1 seconds)
          (first_job (filter_where (is_ready_for_task now ty task) t')) t' i
          (λ j e.
            All-imp t' (λ k ready same. ready-waiting now ty task k (ready same))
              (first_job-ready now ty task t' j (return_expired-Unique now t v.ids) e)),
    )
step-claims (enqueue job_id payload now) t i v = no_claim (enqueue job_id payload now) t i v
step-claims (complete_for_task now ty task) t i v = no_claim (complete_for_task now ty task) t i v
step-claims (fail_for_task now ty task error is_dead delay) t i v =
    no_claim (fail_for_task now ty task error is_dead delay) t i v
step-claims (complete now job_id) t i v = no_claim (complete now job_id) t i v
step-claims (release now job_id) t i v = no_claim (release now job_id) t i v
step-claims (fail now later job_id error retry_at delay is_dead) t i v =
    no_claim (fail now later job_id error retry_at delay is_dead) t i v

-- Every claim that hands out a job is one of its attempts.
pub claims-attempts :
    (cs : List Call) (t : Outbox) (i : String)
    → IsValid t
    → claims_of cs t i + attempts_in i t ≤ attempts_in i (run cs t)
unfolding claims_of run
claims-attempts [] t i v = omega arith
claims-attempts (c ∷ cs) t i v =
    omega (arith, step-claims c t i v, claims-attempts cs (step c t) i (step-IsValid c t v))

-- The attempts under the id of a row are the row's.
pub own-attempts : (t : Outbox) → Unique id_of t → All (λ j. attempts_in j.job_id t ≡ j.attempts) t
unfolding find_where
own-attempts [] u = tt
own-attempts (j ∷ js) u =
    (rw (eq_refl j.job_id) refl, All-zip js (λ k n e. rw (apart k n) e) u.0 (own-attempts js u.1))
  where
    apart : (k : OutboxJob) → j.job_id ≢ k.job_id → (j.job_id == k.job_id) ≡ false
    apart k n = elim (Bool-cases (j.job_id == k.job_id)) [
      | inl e ↦ absurd (n ((eq_iff j.job_id k.job_id).0 e))
      | inr e ↦ e
    ]
