-- ===== src/Outbox/Calls.antt =====
-- The calls that the ingest transaction and the workers make of the outbox, in any order, and what
-- no call changes about a job.
use code_sementic_memory.Common.{
  ℕ, ◌≤◌, ◌<◌, ◌≡◌, ◌⊎◌, String, Bool, true, Option, none, some, List, [], ◌∷◌,
}
use code_sementic_memory.Outbox.{
  JobStatus, retry, dead, OutboxJob, JobPayload, Outbox, lease_expired, expire, finish, give_back,
  next_status, is_waiting, is_processing, lease, claim_outbox, claim_outbox_for_task,
  complete_outbox_for_task, fail_outbox_for_task, complete_outbox, release_outbox, park,
  fail_outbox, event_job, insert_job,
}

pub data Call : Type 0 where
  enqueue : String → JobPayload → ℕ → Call
  claim : ℕ → ℕ → ℕ → Option String → Call
  claim_for_task : ℕ → ℕ → String → String → Call
  complete_for_task : ℕ → String → String → Call
  fail_for_task : ℕ → String → String → String → Bool → ℕ → Call
  complete : ℕ → String → Call
  release : ℕ → String → Call
  fail : ℕ → ℕ → String → String → Option ℕ → Option ℕ → Bool → Call

-- A transaction that raises leaves the table as it was.
abbrev pub or_unchanged : Option Outbox → Outbox → Outbox
or_unchanged none t = t
or_unchanged (some t') t = t'

unfoldable pub step : Call → Outbox → Outbox
step (enqueue job_id payload now) t = or_unchanged (insert_job (event_job job_id payload now) t) t
step (claim now limit seconds ty) t = (claim_outbox now limit seconds ty t).1
step (claim_for_task now seconds ty task) t = (claim_outbox_for_task now seconds ty task t).1
step (complete_for_task now ty task) t = (complete_outbox_for_task now ty task t).1
step (fail_for_task now ty task error is_dead delay) t =
    (fail_outbox_for_task now ty task error is_dead delay t).1
step (complete now job_id) t = (complete_outbox now job_id t).1
step (release now job_id) t = (release_outbox now job_id t).1
step (fail now later job_id error retry_at delay is_dead) t =
    (fail_outbox now later job_id error retry_at delay is_dead t).1

unfoldable pub run : List Call → Outbox → Outbox
run [] t = t
run (c ∷ cs) t = run cs (step c t)

-- What one call does to one job.
pub data RowStep (c : Call) (j k : OutboxJob) : Type 0 where
  expires : (now : ℕ) → lease_expired now j ≡ true → k ≡ expire now j → RowStep c j k
  leases :
      (now until : ℕ)
      → is_waiting j.status ≡ true
      → j.available_at ≤ now
      → now < until
      → k ≡ lease now until j
      → RowStep c j k
  acknowledges : (now : ℕ) → is_waiting j.status ≡ true → k ≡ finish now j → RowStep c j k
  parks :
      (now until : ℕ) (s : JobStatus) (error : String)
      → is_waiting j.status ≡ true
      → (s ≡ retry) ⊎ (s ≡ dead)
      → k ≡ park now s until error j
      → RowStep c j k
  completes : (now : ℕ) → is_processing j.status ≡ true → k ≡ finish now j → RowStep c j k
  releases :
      (now : ℕ)
      → c ≡ release now j.job_id
      → is_processing j.status ≡ true
      → k ≡ give_back now j
      → RowStep c j k
  fails :
      (now until : ℕ) (is_dead : Bool) (error : String)
      → is_processing j.status ≡ true
      → k ≡ park now (next_status is_dead j) until error j
      → RowStep c j k

-- Only a claim makes two steps: it returns an expired lease and leases the job again.
abbrev pub IsClaim : Call → Type 0
IsClaim (claim now limit seconds ty) = Unit
IsClaim (claim_for_task now seconds ty task) = Unit
IsClaim _ = ⊥

pub data RowSteps (c : Call) (j k : OutboxJob) : Type 0 where
  stays : k ≡ j → RowSteps c j k
  moves : RowStep c j k → RowSteps c j k
  reclaims : IsClaim c → (i : OutboxJob) → RowStep c j i → RowStep c i k → RowSteps c j k
