-- ===== src/Maintenance/Tests.antt =====
-- Requests on concrete evidence, and the theorems at them.
use code_sementic_memory.Common.{
  ◌≡◌, refl, String, true, false, none, some, List, [], ◌∷◌, arith, eq_iff, All, Evolves,
  find_where, map, ok,
}
use code_sementic_memory.Maintenance.Table.{
  Maintenance, Requests, Request, pending, is_completed, new_row, request_maintenance,
  get_maintenance, has_key,
}
use code_sementic_memory.Maintenance.Calls.{Call, request, complete, run, IsValid}
use code_sementic_memory.Maintenance.Settled.{StaysCompleted, requests-IsValid, run-StaysCompleted}
use code_sementic_memory.Maintenance.Budget.{request_budget}
use code_sementic_memory.Maintenance.Supersede.{
  IsFresh, request_new, OnlyPending, SupersededExactly,
}

abbrev evidence : String → String → Request
evidence id hash = record {
  maintenance_id = id;
  cycle_id = "c";
  project_id = "p";
  task_id = "t";
  session_id = "s";
  source_thread_id = "th";
  request_turn_id = "tu";
  input_hash = hash;
  max_attempts = 2;
  provider = "agent";
  model = none;
  metadata = none;
  references_exist = true;
}

abbrev two_requests : List Call
two_requests =
    request 10 (evidence "m1" "h1")
    ∷ request 20 (evidence "m2" "h2")
    ∷ complete 30 "c" "h2" "gpt" 3 2
    ∷ []

abbrev requested : Requests
requested = new_row 10 (evidence "m1" "h1") ∷ []

requests-IsValid_example : IsValid (run two_requests [])
requests-IsValid_example = requests-IsValid two_requests

run-StaysCompleted_example :
    Evolves StaysCompleted
      (λ n. Unit {0})
      (run two_requests [])
      (run two_requests (run two_requests []))
run-StaysCompleted_example =
    run-StaysCompleted two_requests (run two_requests []) (requests-IsValid two_requests)

got : get_maintenance "c" "h1" requested ≡ some (new_row 10 (evidence "m1" "h1"))
unfolding get_maintenance find_where has_key new_row
got = refl

request_budget_example :
    (n : Maintenance) × (get_maintenance "c" "h1"
        (run (map (λ now. request now (evidence "m1" "h1")) (15 ∷ 16 ∷ 17 ∷ [])) requested)
      ≡ some n)
    × (n.attempts ≡ 2)
    × (n.max_attempts ≡ 2)
    × (is_completed n.status ≡ false)
unfolding new_row
request_budget_example =
    request_budget (15 ∷ 16 ∷ 17 ∷ []) (evidence "m1" "h1") requested
      (new_row 10 (evidence "m1" "h1")) got refl (omega arith) (omega arith)

evidence-IsFresh : All (IsFresh (evidence "m2" "h2")) requested
unfolding new_row has_key
evidence-IsFresh = ((refl, λ e. ground (arith, eq_iff "m1" "m2", e)), tt)

request_new_example :
    (t' : Requests) × (request_maintenance 20 (evidence "m2" "h2") requested
      ≡ ok (new_row 20 (evidence "m2" "h2"), t'))
    × All (OnlyPending 20 (evidence "m2" "h2")) t'
    × Evolves
        (SupersededExactly 20 (evidence "m2" "h2"))
        (λ n. n ≡ new_row 20 (evidence "m2" "h2"))
        requested
        t'
    × ((new_row 20 (evidence "m2" "h2")).status ≡ pending)
    × ((new_row 20 (evidence "m2" "h2")).attempts ≡ 1)
request_new_example = request_new 20 (evidence "m2" "h2") requested refl evidence-IsFresh
