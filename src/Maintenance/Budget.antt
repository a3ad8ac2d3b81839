-- ===== src/Maintenance/Budget.antt =====
-- What `request_agent_memory_maintenance` returns for evidence that was requested before.
use code_sementic_memory.Common.{
  ℕ, ◌+◌, ◌≤◌, ◌≡◌, refl, ◌∙◌, max, min, String, false, ◌||◌, some, List, [], ◌∷◌, arith, length,
  leb, find_where-update_where, update_where, ok, ◌==◌, eq_refl, leb→le, leb→lt, map, Bool-cases,
  inl, inr, if◌then◌else◌,
}
use code_sementic_memory.Maintenance.Table.{
  Maintenance, Requests, Request, is_completed, has_key, get_maintenance, maximum, retried,
  request_found, request_maintenance, read_back, found_or_raise,
}
use code_sementic_memory.Maintenance.Calls.{request, step, run}

-- The table after the UPDATE of a retry
abbrev pub retried_table : ℕ → Request → Maintenance → Requests → Requests
retried_table now r m t =
    update_where (λ n. n.maintenance_id == m.maintenance_id) (retried now r m) t

retried-has_key :
    (now : ℕ) (r : Request) (m n : Maintenance) (c i : String)
    → has_key c i (retried now r m n) ≡ has_key c i n
unfolding has_key retried
retried-has_key now r m n c i = refl

-- The read-back finds the row that was updated.
get-retried :
    (now : ℕ) (r : Request) (t : Requests) (m : Maintenance)
    → get_maintenance r.cycle_id r.input_hash t ≡ some m
    → get_maintenance r.cycle_id r.input_hash (retried_table now r m t) ≡ some (retried now r m m)
unfolding get_maintenance
get-retried now r t m e =
    find_where-update_where (has_key r.cycle_id r.input_hash) _ _ t
      (λ n. retried-has_key now r m n r.cycle_id r.input_hash)
    ∙ rw e (rw (eq_refl m.maintenance_id) refl)

existing-branches :
    (now : ℕ) (r : Request) (t : Requests) (m : Maintenance)
    → get_maintenance r.cycle_id r.input_hash t ≡ some m
    → request_maintenance now r t ≡ (
        if is_completed m.status || leb (maximum r m) m.attempts
        then ok (m, t)
        else ok (retried now r m m, retried_table now r m t))
unfolding request_maintenance request_found read_back found_or_raise
existing-branches now r t m e =
    rw e (elim (Bool-cases (is_completed m.status || leb (maximum r m) m.attempts)) [
      | inl h ↦ rw h refl
      | inr h ↦ rw h (rw (get-retried now r t m e) refl)
    ])

-- Rows with another id are as they were.
abbrev pub OthersStay : String → Maintenance → Maintenance → Type 0
OthersStay id j k = (j.maintenance_id == id) ≡ false → k ≡ j

get-request :
    (now : ℕ) (r : Request) (t : Requests) (m : Maintenance)
    → get_maintenance r.cycle_id r.input_hash t ≡ some m
    → get_maintenance r.cycle_id r.input_hash (step (request now r) t)
      ≡ some
          (if is_completed m.status || leb (maximum r m) m.attempts then m else retried now r m m)
unfolding step
get-request now r t m e =
    rw (existing-branches now r t m e)
      (elim (Bool-cases (is_completed m.status || leb (maximum r m) m.attempts)) [
        | inl h ↦ rw h e
        | inr h ↦ rw h (get-retried now r t m e)
      ])

-- The row after one more request with the same limit
attempted :
    (now : ℕ) (r : Request) (m : Maintenance)
    → is_completed m.status ≡ false
    → m.attempts ≤ m.max_attempts
    → maximum r m ≡ m.max_attempts
    → let n =
        if is_completed m.status || leb (maximum r m) m.attempts then m else retried now r m m in
      (is_completed n.status ≡ false)
      × (n.attempts ≡ min (m.attempts + 1) m.max_attempts)
      × (n.max_attempts ≡ m.max_attempts)
unfolding retried
attempted now r m u le same = rw u (elim (Bool-cases (leb (maximum r m) m.attempts)) [
  | inl h ↦ rw h (u, omega (arith, leb→le _ _ h), refl)
  | inr h ↦ rw h (refl, omega (arith, leb→lt _ _ h), same)
])

-- Asking again for the same evidence, which is in the table, not completed and within its limit, by a
-- request whose own limit is no larger: after `n` more calls it has min(attempts + n, max_attempts)
-- attempts, the same limit, and is still not completed.
pub request_budget :
    (times : List ℕ) (r : Request) (t : Requests) (m : Maintenance)
    → get_maintenance r.cycle_id r.input_hash t ≡ some m
    → is_completed m.status ≡ false
    → m.attempts ≤ m.max_attempts
    → max 1 r.max_attempts ≤ m.max_attempts
    → (n : Maintenance) × (get_maintenance r.cycle_id r.input_hash
          (run (map (λ now. request now r) times) t)
        ≡ some n)
      × (n.attempts ≡ min (m.attempts + length times) m.max_attempts)
      × (n.max_attempts ≡ m.max_attempts)
      × (is_completed n.status ≡ false)
unfolding run maximum
request_budget [] r t m e u le lim = (m, e, omega arith, refl, u)
request_budget (now ∷ times) r t m e u le lim =
    let n =
      if is_completed m.status || leb (maximum r m) m.attempts then m else retried now r m m in
    let (u', a, same) = attempted now r m u le (omega arith) in
    let (k, found, attempts, limit, unfinished) =
      request_budget times r (step (request now r) t) n (get-request now r t m e) u'
        (omega (arith, a, same)) (omega (arith, same, lim)) in
    (k, found, omega (arith, attempts, a, same), limit ∙ same, unfinished)
