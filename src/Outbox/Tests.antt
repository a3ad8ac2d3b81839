-- ===== src/Outbox/Tests.antt =====
-- Outbox runs on concrete jobs, and the theorems at them.
use code_sementic_memory.Common.{
  ◌+◌, ◌≤◌, ◌≡◌, refl, ◌≢◌, none, some, List, [], ◌∷◌, arith, All, Evolves,
}
use code_sementic_memory.Outbox.{
  OutboxJob, JobPayload, Outbox, claim_outbox, event_job, retry_delay,
}
use code_sementic_memory.Outbox.Calls.{Call, enqueue, claim, complete, release, run}
use code_sementic_memory.Outbox.Lifecycle.{IsValid, JobHistory, run-IsValid, run-JobHistory}
use code_sementic_memory.Outbox.Leases.{IsLive, claim_exclusive, claims_disjoint}
use code_sementic_memory.Outbox.Claims.{claims_of}
use code_sementic_memory.Outbox.Attempts.{attempts_bounded, releases_of}
use code_sementic_memory.Outbox.Exhaustion.{Failed, rounds, exhaustion}

abbrev payload : JobPayload
payload = record {
  event_id = "e1";
  event_type = "user_message";
  project_id = "p";
  task_id = "t";
  session_id = some "s";
}

abbrev story : List Call
story =
    enqueue "j1" payload 10
    ∷ enqueue "j2" payload 10
    ∷ claim 12 20 60 none
    ∷ release 13 "j1"
    ∷ claim 14 20 60 none
    ∷ complete 15 "j1"
    ∷ []

abbrev one_job : Outbox
one_job = run (enqueue "j1" payload 10 ∷ []) []

run-IsValid_example : IsValid (run story [])
run-IsValid_example = run-IsValid story

run-JobHistory_example : Evolves JobHistory (λ k. Unit {0}) one_job (run story one_job)
run-JobHistory_example = run-JobHistory story one_job (run-IsValid (enqueue "j1" payload 10 ∷ []))

claim_exclusive_example :
    let (jobs, t') = claim_outbox 20 5 60 none (run story []) in
    Evolves (λ j k. IsLive 20 j → k ≡ j) (λ _. ⊥) (run story []) t'
    × All (λ j. IsLive 20 j → All (λ k. k.job_id ≢ j.job_id) jobs) (run story [])
claim_exclusive_example = claim_exclusive 20 5 60 none (run story []) (run-IsValid story)

claims_disjoint_example :
    let (jobs, t') = claim_outbox 20 5 60 none one_job in
    let (jobs', t'') = claim_outbox 30 5 60 none t' in
    All (λ j. All (λ k. k.job_id ≢ j.job_id) jobs') jobs
claims_disjoint_example =
    claims_disjoint 20 5 60 none 30 5 60 none one_job (run-IsValid (enqueue "j1" payload 10 ∷ []))
      (omega arith)

attempts_bounded_example :
    All
      (λ j.
        (claims_of story [] j.job_id ≤ j.attempts)
        × (j.attempts ≤ j.max_attempts + releases_of story j.job_id))
      (run story [])
attempts_bounded_example = attempts_bounded story

abbrev job : OutboxJob
job = record (event_job "j1" payload 10) { max_attempts = 2 }

exhaustion_example : Failed job 2 (run (rounds (20 ∷ 30 ∷ []) "j1" "boom") (job ∷ []))
unfolding event_job retry_delay
exhaustion_example = exhaustion 20 (30 ∷ []) "boom" job refl (omega arith) (omega arith)
