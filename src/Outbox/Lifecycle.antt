-- ===== src/Outbox/Lifecycle.antt =====
-- What holds of every job after any calls, and what a job keeps of its past.
use code_sementic_memory.Common.{
  ◌≤◌, ◌<◌, ◌≡◌, refl, sym, ◌∙◌, ◌≢◌, String, true, false, Option, none, some, List, [], ◌∷◌, arith,
  All, All-imp, All-zip, All-append, subst, Unique, Unique-append, Unique-Evolves, Evolves,
  Evolves-refl, Evolves-comp, All-Evolves, Evolves-imp, find_where, find_where-none, is_some,
  eq_iff,
}
use code_sementic_memory.Outbox.{
  JobStatus, completed, dead, OutboxJob, Outbox, is_processing, lease_expired, expire, lease,
  finish, give_back, park, next_status, event_job, same_job, insert_job, insert_unless,
}
use code_sementic_memory.Outbox.Calls.{
  Call, enqueue, claim, claim_for_task, complete_for_task, fail_for_task, complete, release, fail,
  step, run, RowStep, expires, leases, acknowledges, parks, completes, releases, fails, RowSteps,
  stays, moves, reclaims, or_unchanged,
}
use code_sementic_memory.Outbox.Evolution.{IsFresh, Moves, step-Moves, step-Evolves}
use code_sementic_memory.Outbox.Selection.{id_of}

-- A job that no call touches again
abbrev pub IsSettled : JobStatus → Type 0
IsSettled completed = Unit
IsSettled dead = Unit
IsSettled _ = ⊥

-- What a later state of a job keeps of an earlier one
pub record JobHistory (j k : OutboxJob) : Type 0 where
  pub same_id : k.job_id ≡ j.job_id
  pub same_type : k.job_type ≡ j.job_type
  pub same_key : k.dedupe_key ≡ j.dedupe_key
  pub same_payload : k.payload ≡ j.payload
  pub same_max : k.max_attempts ≡ j.max_attempts
  pub same_created : k.created_at ≡ j.created_at
  pub attempts_grow : j.attempts ≤ k.attempts
  pub settled : IsSettled j.status → k ≡ j

JobHistory-refl : (j : OutboxJob) → JobHistory j j
JobHistory-refl j = ground arith

JobHistory-trans : (i j k : OutboxJob) → JobHistory i j → JobHistory j k → JobHistory i k
JobHistory-trans i j k h g = record {
  same_id = g.same_id ∙ h.same_id;
  same_type = g.same_type ∙ h.same_type;
  same_key = g.same_key ∙ h.same_key;
  same_payload = g.same_payload ∙ h.same_payload;
  same_max = g.same_max ∙ h.same_max;
  same_created = g.same_created ∙ h.same_created;
  attempts_grow = omega (arith, h.attempts_grow, g.attempts_grow);
  settled = λ s.
      let e = h.settled s in
      g.settled (subst (λ (l : OutboxJob). IsSettled l.status) (sym e) s) ∙ e;
}

-- The fields that `JobHistory` compares, of a row that changes status
module _ (c : Call) where
  RowStep-JobHistory : (j k : OutboxJob) → RowStep c j k → JobHistory j k
  unfolding expire lease finish give_back park lease_expired
  RowStep-JobHistory j k (expires now p e) = ground arith
  RowStep-JobHistory j k (leases now until w a lt e) = ground arith
  RowStep-JobHistory j k (acknowledges now w e) = ground arith
  RowStep-JobHistory j k (parks now until s error w o e) = ground arith
  RowStep-JobHistory j k (completes now p e) = ground arith
  RowStep-JobHistory j k (releases now q p e) = ground arith
  RowStep-JobHistory j k (fails now until d error p e) = ground arith

  pub RowSteps-JobHistory : (j k : OutboxJob) → RowSteps c j k → JobHistory j k
  RowSteps-JobHistory j k (stays e) = subst (JobHistory j) (sym e) (JobHistory-refl j)
  RowSteps-JobHistory j k (moves s) = RowStep-JobHistory j k s
  RowSteps-JobHistory j k (reclaims h i r s) =
      JobHistory-trans j i k (RowStep-JobHistory j i r) (RowStep-JobHistory i k s)

-- A lease is held exactly while the job is processed, and a processed job has been claimed.
pub record JobIsValid (j : OutboxJob) : Type 0 where
  pub leased : is_some j.lease_until ≡ is_processing j.status
  pub attempted : is_processing j.status ≡ true → 0 < j.attempts
  pub capacity : 0 < j.max_attempts

module _ (c : Call) where
  RowStep-JobIsValid : (j k : OutboxJob) → RowStep c j k → JobIsValid j → JobIsValid k
  unfolding expire lease finish give_back park next_status
  RowStep-JobIsValid j k (expires now p e) v = ground arith
  RowStep-JobIsValid j k (leases now until w a lt e) v = ground arith
  RowStep-JobIsValid j k (acknowledges now w e) v = ground arith
  RowStep-JobIsValid j k (parks now until s error w o e) v = ground arith
  RowStep-JobIsValid j k (completes now p e) v = ground arith
  RowStep-JobIsValid j k (releases now q p e) v = ground arith
  RowStep-JobIsValid j k (fails now until d error p e) v = ground arith

  RowSteps-JobIsValid : (j k : OutboxJob) → RowSteps c j k → JobIsValid j → JobIsValid k
  RowSteps-JobIsValid j k (stays e) v = subst JobIsValid (sym e) v
  RowSteps-JobIsValid j k (moves s) v = RowStep-JobIsValid j k s v
  RowSteps-JobIsValid j k (reclaims h i r s) v =
      RowStep-JobIsValid i k s (RowStep-JobIsValid j i r v)

IsFresh-JobIsValid : (j : OutboxJob) → IsFresh j → JobIsValid j
unfolding IsFresh event_job
IsFresh-JobIsValid j (job_id, payload, now, e) = rw e (ground arith)

abbrev key_of : OutboxJob → String
key_of j = j.dedupe_key

-- The table between two transactions: valid jobs, unique ids, and one job for each event.
pub record IsValid (t : Outbox) : Type 0 where
  pub jobs : All JobIsValid t
  pub types : All (λ j. j.job_type ≡ "event.ingested") t
  pub ids : Unique id_of t
  pub once : Unique key_of t

same_job-false :
    (j k : OutboxJob)
    → j.job_type ≡ "event.ingested"
    → k.job_type ≡ "event.ingested"
    → same_job j k ≡ false
    → (k.job_id ≢ j.job_id) × (k.dedupe_key ≢ j.dedupe_key)
unfolding same_job
same_job-false j k a b h = ground (
  arith,
  eq_iff j.job_id k.job_id,
  eq_iff j.job_type k.job_type,
  eq_iff j.dedupe_key k.dedupe_key,
)

IsFresh-typed : (j : OutboxJob) → IsFresh j → j.job_type ≡ "event.ingested"
unfolding IsFresh event_job
IsFresh-typed j (job_id, payload, now, e) = rw e refl

insert-IsValid :
    (j : OutboxJob) (o : Option OutboxJob) (t : Outbox)
    → IsFresh j
    → find_where (same_job j) t ≡ o
    → IsValid t
    → IsValid (or_unchanged (insert_unless o j t) t)
unfolding insert_unless
insert-IsValid j (some k) t f e v = v
insert-IsValid j none t f e v =
    let distinct =
      All-zip t (λ k ty no_match. same_job-false j k (IsFresh-typed j f) ty no_match) v.types
        (find_where-none (same_job j) t e) in
    record {
      jobs = All-append JobIsValid t (j ∷ []) v.jobs (IsFresh-JobIsValid j f, tt);
      types = All-append _ t (j ∷ []) v.types (IsFresh-typed j f, tt);
      ids = Unique-append id_of t j (All-imp t (λ k d. d.0) distinct) v.ids;
      once = Unique-append key_of t j (All-imp t (λ k d. d.1) distinct) v.once;
    }

Moves-IsValid : (c : Call) (t u : Outbox) → Moves c t u → IsValid t → IsValid u
Moves-IsValid c t u m v = record {
  jobs =
      All-Evolves (RowSteps c) _ JobIsValid JobIsValid t u
        (λ j k r w. RowSteps-JobIsValid c j k r w) (λ k none_new. absurd none_new) m v.jobs;
  types =
      All-Evolves (RowSteps c) _ _ _ t u (λ j k r ty. (RowSteps-JobHistory c j k r).same_type ∙ ty)
        (λ k none_new. absurd none_new) m v.types;
  ids =
      Unique-Evolves id_of (RowSteps c) t u (λ j k r. (RowSteps-JobHistory c j k r).same_id) m
        v.ids;
  once =
      Unique-Evolves key_of (RowSteps c) t u (λ j k r. (RowSteps-JobHistory c j k r).same_key) m
        v.once;
}

-- Every call keeps a valid table valid.
pub step-IsValid : (c : Call) (t : Outbox) → IsValid t → IsValid (step c t)
step-IsValid (enqueue job_id payload now) t v =
    unfold step insert_job IsFresh in insert-IsValid _ _ t (job_id, payload, now, refl) refl v
step-IsValid (claim now limit seconds ty) t v =
    Moves-IsValid _ t _ (step-Moves _ t v.ids (λ e. e)) v
step-IsValid (claim_for_task now seconds ty task) t v =
    Moves-IsValid _ t _ (step-Moves _ t v.ids (λ e. e)) v
step-IsValid (complete_for_task now ty task) t v =
    Moves-IsValid _ t _ (step-Moves _ t v.ids (λ e. e)) v
step-IsValid (fail_for_task now ty task error is_dead delay) t v =
    Moves-IsValid _ t _ (step-Moves _ t v.ids (λ e. e)) v
step-IsValid (complete now job_id) t v = Moves-IsValid _ t _ (step-Moves _ t v.ids (λ e. e)) v
step-IsValid (release now job_id) t v = Moves-IsValid _ t _ (step-Moves _ t v.ids (λ e. e)) v
step-IsValid (fail now later job_id error retry_at delay is_dead) t v =
    Moves-IsValid _ t _ (step-Moves _ t v.ids (λ e. e)) v

run_from-IsValid : (cs : List Call) (t : Outbox) → IsValid t → IsValid (run cs t)
unfolding run
run_from-IsValid [] t v = v
run_from-IsValid (c ∷ cs) t v = run_from-IsValid cs (step c t) (step-IsValid c t v)

-- After any sequence of calls from an empty outbox, job ids and event keys are unique, every job
-- holds a lease exactly if it is processed, and every processed job has been claimed at least once.
pub run-IsValid : (cs : List Call) → IsValid (run cs [])
run-IsValid cs = run_from-IsValid cs [] (record { jobs = tt; types = tt; ids = tt; once = tt })

-- Whatever calls follow, a valid table keeps each job at its place with its id, type, key, payload,
-- attempt limit and creation time; its attempts never fall; a completed or dead job never changes.
pub run-JobHistory :
    (cs : List Call) (t : Outbox) → IsValid t → Evolves JobHistory (λ k. Unit {0}) t (run cs t)
unfolding run
run-JobHistory [] t v = Evolves-refl JobHistory _ t JobHistory-refl
run-JobHistory (c ∷ cs) t v =
    Evolves-comp JobHistory JobHistory JobHistory _ t (step c t) _ JobHistory-trans (λ j k _ _. tt)
      (Evolves-imp (RowSteps c) JobHistory IsFresh _ t _ (RowSteps-JobHistory c) (λ k _. tt)
        (step-Evolves c t v.ids))
      (run-JobHistory cs (step c t) (step-IsValid c t v))
