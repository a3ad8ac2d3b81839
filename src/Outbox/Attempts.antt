-- ===== src/Outbox/Attempts.antt =====
-- How often a job can be claimed: `max_attempts` bounds the attempts up to the calls of
-- `release_outbox`, which return a job for another claim and take no attempt back.
use code_sementic_memory.Common.{
  ℕ, ◌+◌, ◌≤◌, ◌<◌, ◌≡◌, refl, sym, String, true, List, [], ◌∷◌, arith, All, All-imp, All-zip,
  All-Evolves, ◌==◌, eq_refl, if◌then◌else◌, subst,
}
use native.Mathlib.Nat.{add-zero, add_assoc}
use code_sementic_memory.Outbox.{
  OutboxJob, Outbox, is_waiting, lease_expired, expire, lease, finish, give_back, park, next_status,
  event_job,
}
use code_sementic_memory.Outbox.Calls.{
  Call, claim, claim_for_task, release, step, run, RowStep, expires, leases, acknowledges, parks,
  completes, releases, fails, RowSteps, stays, moves, reclaims, IsClaim,
}
use code_sementic_memory.Outbox.Evolution.{IsFresh, step-Evolves}
use code_sementic_memory.Outbox.Lifecycle.{IsValid, run-IsValid, step-IsValid, RowSteps-JobHistory}
use code_sementic_memory.Outbox.Claims.{claims_of, claims-attempts, own-attempts}

-- The calls that release the job
released : Call → String → ℕ
released (release now i) job_id = if i == job_id then 1 else 0
released _ job_id = 0

unfoldable pub releases_of : List Call → String → ℕ
unfolding released
releases_of [] job_id = 0
releases_of (c ∷ cs) job_id = released c job_id + releases_of cs job_id

released_once : (c : Call) (now : ℕ) (i : String) → c ≡ release now i → released c i ≡ 1
unfolding released
released_once c now i e = rw e (rw (eq_refl i))

claim-released : (c : Call) (i : String) → IsClaim c → released c i ≡ 0
unfolding released
claim-released (claim now limit seconds ty) i h = refl
claim-released (claim_for_task now seconds ty task) i h = refl
claim-released _ i h = absurd h

-- `r` releases leave room for one more claim exactly while the job waits.
record HasRoom (r : ℕ) (j : OutboxJob) : Type 0 where
  within : j.attempts ≤ j.max_attempts + r
  waiting : is_waiting j.status ≡ true → j.attempts < j.max_attempts + r

module _ (c : Call) (r : ℕ) where
  RowStep-HasRoom :
      (j k : OutboxJob) → RowStep c j k → HasRoom r j → HasRoom (r + released c j.job_id) k
  unfolding expire lease finish give_back park next_status lease_expired
  RowStep-HasRoom j k (expires now p e) v = ground arith
  RowStep-HasRoom j k (leases now until w a lt e) v = ground arith
  RowStep-HasRoom j k (acknowledges now w e) v = ground arith
  RowStep-HasRoom j k (parks now until s error w o e) v = ground arith
  RowStep-HasRoom j k (completes now p e) v = ground arith
  RowStep-HasRoom j k (releases now q p e) v = ground (arith, released_once c now j.job_id q)
  RowStep-HasRoom j k (fails now until d error p e) v = ground arith

  RowSteps-HasRoom :
      (j k : OutboxJob) → RowSteps c j k → HasRoom r j → HasRoom (r + released c k.job_id) k
  RowSteps-HasRoom j k (stays e) v = ground arith
  RowSteps-HasRoom j k (moves s) v =
      subst (λ i. HasRoom (r + released c i) k) (sym (RowSteps-JobHistory c j k (moves s)).same_id)
        (RowStep-HasRoom j k s v)
  RowSteps-HasRoom j k (reclaims h i a b) v =
      subst (λ n. HasRoom n k) (sym (no_release k.job_id))
        (subst (λ n. HasRoom n k) (no_release i.job_id)
          (RowStep-HasRoom i k b
            (subst (λ n. HasRoom n i) (no_release j.job_id) (RowStep-HasRoom j i a v))))
    where
      no_release : (l : String) → r + released c l ≡ r
      no_release l = rw (claim-released c l h) (omega arith)

IsFresh-HasRoom : (r : ℕ) (j : OutboxJob) → IsFresh j → HasRoom r j
unfolding IsFresh event_job
IsFresh-HasRoom r j (job_id, payload, now, e) = rw e (ground arith)

run-HasRoom :
    (cs : List Call) (t : Outbox) (r : String → ℕ)
    → IsValid t
    → All (λ j. HasRoom (r j.job_id) j) t
    → All (λ j. HasRoom (r j.job_id + releases_of cs j.job_id) j) (run cs t)
unfolding run releases_of
run-HasRoom [] t r v h = All-imp t (λ j room. rw add-zero room) h
run-HasRoom (c ∷ cs) t r v h =
    All-imp (run cs (step c t))
      (λ j room. rw (← add_assoc (r j.job_id) (released c j.job_id) _) room)
      (run-HasRoom cs (step c t) (λ i. r i + released c i) (step-IsValid c t v)
        (All-Evolves (RowSteps c) IsFresh (λ j. HasRoom (r j.job_id) j) _ t _
          (λ j k s room.
            subst (λ i. HasRoom (r i + released c k.job_id) k)
              (sym (RowSteps-JobHistory c j k s).same_id)
              (RowSteps-HasRoom c (r j.job_id) j k s room))
          (λ j f. IsFresh-HasRoom _ j f) (step-Evolves c t v.ids) h))

-- After any calls from an empty outbox, the claims that have handed out a job are at most its attempts, and
-- these are at most `max_attempts` and one more for each call of `release_outbox` with its id, whether or not the
-- job was leased then.
pub attempts_bounded :
    (cs : List Call)
    → All
        (λ j.
          (claims_of cs [] j.job_id ≤ j.attempts)
          × (j.attempts ≤ j.max_attempts + releases_of cs j.job_id))
        (run cs [])
attempts_bounded cs =
    All-zip (run cs [])
      (λ j own room.
        (omega (arith, own, claims-attempts cs [] j.job_id valid), omega (arith, room.within)))
      (own-attempts (run cs []) (run-IsValid cs).ids) (run-HasRoom cs [] (λ i. 0) valid tt)
  where
    valid : IsValid []
    valid = record { jobs = tt; types = tt; ids = tt; once = tt }
