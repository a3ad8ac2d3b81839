-- ===== src/Outbox/Exhaustion.antt =====
-- A job that every worker fails is dead-lettered after `max_attempts` rounds and not before.
use code_sementic_memory.Common.{
  ℕ, suc, ◌+◌, ◌≤◌, ◌<◌, ◌≡◌, refl, ap, ◌∙◌, String, true, false, none, List, [], ◌∷◌, ◌++◌, arith,
  length, elem, sort_by, update_where, filter_where, find_where, leb, eq_refl, if◌then◌else◌,
  le→leb, lt→leb,
}
use code_sementic_memory.Outbox.{
  retry, dead, OutboxJob, Outbox, is_waiting, is_processing, lease_expired, return_expired, lease,
  is_ready, ready_ids, lease_ids, claim_outbox, holds_lease, retry_delay, next_available,
  next_status, park, fail_found, fail_outbox,
}
use code_sementic_memory.Outbox.Calls.{Call, claim, fail, step, run}

-- One round: a worker claims at `now` and its work fails in the same second.
abbrev pub round : ℕ → String → String → List Call
round now job_id error = claim now 20 60 none ∷ fail now now job_id error none none false ∷ []

abbrev after : ℕ → String → OutboxJob → OutboxJob
after now error j =
    let claimed = lease now (now + 60) j in
    park now (next_status false claimed) (now + retry_delay (j.attempts + 1)) error claimed

return_expired_alone :
    (now : ℕ) (j : OutboxJob) → is_waiting j.status ≡ true → return_expired now (j ∷ []) ≡ j ∷ []
unfolding return_expired update_where lease_expired
return_expired_alone now j w = ground arith

ready_ids_alone :
    (now : ℕ) (j : OutboxJob)
    → is_waiting j.status ≡ true
    → j.available_at ≤ now
    → ready_ids now 20 none (j ∷ []) ≡ j.job_id ∷ []
unfolding ready_ids filter_where is_ready sort_by
ready_ids_alone now j w a = rw w (rw (le→leb j.available_at now a) refl)

lease_ids_alone :
    (now until : ℕ) (j : OutboxJob)
    → (lease_ids now until (j.job_id ∷ []) (j ∷ [])).1 ≡ lease now until j ∷ []
unfolding lease_ids update_where elem
lease_ids_alone now until j = rw (eq_refl j.job_id) refl

claim_alone :
    (now : ℕ) (j : OutboxJob)
    → is_waiting j.status ≡ true
    → j.available_at ≤ now
    → (claim_outbox now 20 60 none (j ∷ [])).1 ≡ lease now (now + 60) j ∷ []
unfolding claim_outbox
claim_alone now j w a =
    rw (return_expired_alone now j w)
      (rw (ready_ids_alone now j w a) (lease_ids_alone now (now + 60) j))

fail_alone :
    (now : ℕ) (error : String) (j : OutboxJob)
    → is_processing j.status ≡ true
    → (fail_outbox now now j.job_id error none none false (j ∷ [])).1
      ≡ park now (next_status false j) (now + retry_delay j.attempts) error j ∷ []
unfolding fail_outbox fail_found find_where update_where holds_lease next_available
fail_alone now error j p = ground (arith, eq_refl j.job_id)

round_alone :
    (now : ℕ) (error : String) (j : OutboxJob)
    → is_waiting j.status ≡ true
    → j.available_at ≤ now
    → run (round now j.job_id error) (j ∷ []) ≡ after now error j ∷ []
unfolding run step lease
round_alone now error j w a =
    rw (claim_alone now j w a) (fail_alone now error (lease now (now + 60) j) refl)

-- Rounds at the given times
unfoldable pub rounds : List ℕ → String → String → List Call
rounds [] job_id error = []
rounds (now ∷ times) job_id error = round now job_id error ++ rounds times job_id error

-- Each round starts when the delay of the one before is over.
abbrev pub Spaced : ℕ → ℕ → List ℕ → Type 0
Spaced available attempts [] = Unit
Spaced available attempts (now ∷ times) =
    (available ≤ now) × Spaced (now + retry_delay (attempts + 1)) (attempts + 1) times

-- What the job looks like after some failed rounds
abbrev pub Failed : OutboxJob → ℕ → Outbox → Type 0
Failed j n (k ∷ []) =
    (k.attempts ≡ j.attempts + n)
    × (k.status ≡ (if leb j.max_attempts k.attempts then dead else retry))
Failed j n _ = ⊥

after_status :
    (now : ℕ) (error : String) (j : OutboxJob)
    → (after now error j).status ≡ (if leb j.max_attempts (j.attempts + 1) then dead else retry)
unfolding lease park next_status
after_status now error j = refl

run-append : (cs ds : List Call) (t : Outbox) → run (cs ++ ds) t ≡ run ds (run cs t)
unfolding run
run-append [] ds t = refl
run-append (c ∷ cs) ds t = run-append cs ds (step c t)

Failed-suc :
    (j k : OutboxJob) (n : ℕ) (t : Outbox)
    → k.attempts ≡ j.attempts + 1
    → k.max_attempts ≡ j.max_attempts
    → Failed k n t
    → Failed j (suc n) t
Failed-suc j k n [] a m f = f
Failed-suc j k n (l ∷ []) a m f = (omega (arith, f.0), rw (← m) f.1)
Failed-suc j k n (l ∷ _ ∷ _) a m f = f

after_waiting :
    (now : ℕ) (error : String) (j : OutboxJob)
    → j.attempts + 1 < j.max_attempts
    → is_waiting (after now error j).status ≡ true
after_waiting now error j lt = rw (after_status now error j) (rw (lt→leb _ _ lt) refl)

rounds-cons :
    (now : ℕ) (times : List ℕ) (error : String) (j : OutboxJob)
    → is_waiting j.status ≡ true
    → j.available_at ≤ now
    → run (rounds (now ∷ times) j.job_id error) (j ∷ [])
      ≡ run (rounds times j.job_id error) (after now error j ∷ [])
unfolding rounds
rounds-cons now times error j w a =
    run-append (round now j.job_id error) (rounds times j.job_id error) (j ∷ [])
    ∙ ap (run (rounds times j.job_id error)) (round_alone now error j w a)

-- A waiting job, alone in the outbox, whose every claim fails, with the default delays kept, has made
-- one attempt in each round; while at most `max_attempts` rounds are made it is dead after the last one allowed, and
-- waits for a retry after any other.
pub exhaustion :
    (now : ℕ) (times : List ℕ) (error : String) (j : OutboxJob)
    → is_waiting j.status ≡ true
    → Spaced j.available_at j.attempts (now ∷ times)
    → j.attempts + length (now ∷ times) ≤ j.max_attempts
    → Failed j (length (now ∷ times)) (run (rounds (now ∷ times) j.job_id error) (j ∷ []))
unfolding lease park
exhaustion now [] error j w s b =
    rw (rounds-cons now [] error j w s.0) (unfold rounds run next_status in (refl, refl))
exhaustion now (now' ∷ times) error j w s b = rw (rounds-cons now (now' ∷ times) error j w s.0) (
    Failed-suc j (after now error j) _ _ refl refl (
      exhaustion now' times error (after now error j) (after_waiting now error j (omega (arith, b)))
        s.1 (omega (arith, b))))
