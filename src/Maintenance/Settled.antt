-- ===== src/Maintenance/Settled.antt =====
-- What holds after any calls, and what a completed request keeps.
use code_sementic_memory.Common.{
  ◌≡◌, refl, ◌∙◌, true, List, [], ◌∷◌, arith, Evolves, Evolves-refl, Evolves-comp, Evolves-imp,
}
use code_sementic_memory.Maintenance.Table.{
  Maintenance, Requests, is_completed, retried, supersede, complete_row, fail_row,
}
use code_sementic_memory.Maintenance.Calls.{
  Call, step, run, RowStep, stays, retries, supersedes, completes, fails, IsValid, IsNew,
}
use code_sementic_memory.Maintenance.Evolution.{step-Keeps}

run_from-IsValid : (cs : List Call) (t : Requests) → IsValid t → IsValid (run cs t)
unfolding run
run_from-IsValid [] t v = v
run_from-IsValid (c ∷ cs) t v = run_from-IsValid cs (step c t) (step-Keeps c t v).1

-- After any calls from an empty table, ids and (cycle, evidence hash) pairs are unique, and every
-- request has been attempted at least once and at most `max_attempts` times.
pub requests-IsValid : (cs : List Call) → IsValid (run cs [])
requests-IsValid cs = run_from-IsValid cs [] (record { rows = tt; ids = tt; keys = tt })

-- What a row keeps once it is completed
pub record StaysCompleted (m n : Maintenance) : Type 0 where
  pub same_id : n.maintenance_id ≡ m.maintenance_id
  pub status : is_completed m.status ≡ true → is_completed n.status ≡ true
  pub attempts : is_completed m.status ≡ true → n.attempts ≡ m.attempts
  pub limit : is_completed m.status ≡ true → n.max_attempts ≡ m.max_attempts

StaysCompleted-refl : (m : Maintenance) → StaysCompleted m m
StaysCompleted-refl m = record {
  same_id = refl;
  status = λ h. h;
  attempts = λ h. refl;
  limit = λ h. refl;
}

StaysCompleted-trans :
    (l m n : Maintenance) → StaysCompleted l m → StaysCompleted m n → StaysCompleted l n
StaysCompleted-trans l m n a b = record {
  same_id = b.same_id ∙ a.same_id;
  status = λ h. b.status (a.status h);
  attempts = λ h. b.attempts (a.status h) ∙ a.attempts h;
  limit = λ h. b.limit (a.status h) ∙ a.limit h;
}

RowStep-StaysCompleted : (c : Call) (m n : Maintenance) → RowStep c m n → StaysCompleted m n
unfolding retried supersede complete_row fail_row
RowStep-StaysCompleted c m n (stays e) = ground arith
RowStep-StaysCompleted c m n (retries now r u lt e) = ground arith
RowStep-StaysCompleted c m n (supersedes now p e) = ground arith
RowStep-StaysCompleted c m n (completes now model a b q e) = ground arith
RowStep-StaysCompleted c m n (fails now error u e) = ground arith

-- Whatever calls follow on a valid table, a completed request stays completed with the attempts and
-- the limit that it had: no retry, no failure and no newer evidence reopens it.
pub run-StaysCompleted :
    (cs : List Call) (t : Requests)
    → IsValid t
    → Evolves StaysCompleted (λ n. Unit {0}) t (run cs t)
unfolding run
run-StaysCompleted [] t v = Evolves-refl StaysCompleted _ t StaysCompleted-refl
run-StaysCompleted (c ∷ cs) t v =
    let (e, v') = step-Keeps c t v in
    Evolves-comp StaysCompleted StaysCompleted StaysCompleted _ t (step c t) _ StaysCompleted-trans
      (λ m n _ _. tt)
      (Evolves-imp (RowStep c) StaysCompleted IsNew _ t _ (RowStep-StaysCompleted c) (λ m _. tt) e)
      (run-StaysCompleted cs (step c t) v')
