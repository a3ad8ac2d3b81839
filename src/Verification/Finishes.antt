-- ===== src/Verification/Finishes.antt =====
-- A verification ends its run, and touches nothing outside its scope.
use code_sementic_memory.Common.{
  ℕ, ◌≡◌, refl, ◌∙◌, String, true, false, Option, none, some, List, [], ◌∷◌, arith, inl, inr,
  Bool-cases, eq_refl, find_where, find_where-append, find_where-update_where, update_where,
  is_some,
}
use code_sementic_memory.Verification.Manifests.{Manifest}
use code_sementic_memory.Cards.Rows.{Binding}
use code_sementic_memory.Verification.Evaluation.{Verification}
use code_sementic_memory.Verification.Runs.{
  RunCounts, Run, RunRequest, RunState, clipped_error, failed, finish_run, finished, Snapshot,
  has_run, interrupted, is_stale_run, new_run, recover_stale_runs, start_run, succeeded,
}
use code_sementic_memory.Verification.Results.{no_results}
use code_sementic_memory.Verification.Applied.{dry_results}
use code_sementic_memory.Verification.Service.{
  Env, Outcome, Project, VerifyDb, VerifyRequest, all_manifests, composite_of, is_mismatched,
  is_project_j, is_write, list_current_bindings, normalize, not_applicable, run_request, end_run,
  fail_run, raised, record_run, succeeded_with, verify, verify_applicable,
}

-- Recovery keeps the ids of the runs.
recovered-none :
    (now age : ℕ) (message id : String) (runs : List Run)
    → find_where (has_run id) runs ≡ none
    → find_where (has_run id) (recover_stale_runs now age message runs).1 ≡ none
unfolding recover_stale_runs has_run interrupted
recovered-none now age message id runs h =
    find_where-update_where (has_run id) (is_stale_run now age) (interrupted now message) runs
      (λ r. refl)
    ∙ rw h refl

-- A run under a fresh id is found when it starts.
started :
    (now : ℕ) (message : String) (q : RunRequest) (runs : List Run)
    → find_where (has_run q.run_id) runs ≡ none
    → find_where (has_run q.run_id) (start_run now message q runs) ≡ some (new_run now q)
unfolding start_run find_where has_run new_run
started now message q runs h =
    rw
      (find_where-append (has_run q.run_id) (recover_stale_runs now 300 message runs).1
        (new_run now q ∷ []) (recovered-none now 300 message q.run_id runs h))
      (rw (eq_refl q.run_id) refl)

-- A run that was found has ended after the UPDATE of `finish_run`.
ended :
    (now : ℕ) (id : String) (status : RunState) (counts : Option RunCounts) (error : Option String)
    (runs : List Run) (r : Run)
    → find_where (has_run id) runs ≡ some r
    → has_run id r ≡ true
    → find_where (has_run id) (update_where (has_run id) (finished now status counts error) runs)
      ≡ some (finished now status counts error r)
unfolding finished has_run
ended now id status counts error runs r found own =
    find_where-update_where (has_run id) (has_run id) (finished now status counts error) runs
      (λ x. refl)
    ∙ rw found (rw own refl)

-- The run of the request has ended in a state, with counts and an error.
abbrev pub RunEnds : VerifyRequest → RunState → Option RunCounts → Option String → List Run → Type 0
RunEnds q status counts error runs =
    (r : Run) × (find_where (has_run q.run_id) runs ≡ some r)
    × (r.status ≡ status)
    × (r.counts ≡ counts)
    × (r.error ≡ error)
    × (r.finished_at ≡ some q.now)

-- What a verification with an outcome leaves
abbrev pub Ends : VerifyRequest → VerifyDb → Outcome × VerifyDb → Type 0
Ends q db (not_applicable, db') = db' ≡ db
Ends q db (raised message, db') =
    RunEnds q failed none (clipped_error (some message)) db'.runs
    × (db'.tables ≡ db.tables)
    × (db'.checks ≡ db.checks)
Ends q db (succeeded_with counts results, db') =
    RunEnds q succeeded (some counts) none db'.runs
    × (is_write q.mode ≡ false → db'.tables.bindings ≡ db.tables.bindings)
    × (db'.tables.cards ≡ db.tables.cards)
    × (db'.tables.versions ≡ db.tables.versions)

module _ (e : Env) (q : VerifyRequest) (db : VerifyDb)
    (fresh : find_where (has_run q.run_id) db.runs ≡ none) where
  end_run-Ends :
      (o : Option String) (all : List Manifest) (snapshot_id : String) (bindings : List Binding)
      (results : List Verification) (snapshots : List Snapshot)
      → Ends q db (
          end_run e o q all snapshot_id bindings results
            (start_run q.now e.stale_message (run_request e q all) db.runs)
            snapshots
            db)
  unfolding end_run fail_run record_run finish_run run_request has_run new_run finished
  end_run-Ends (some message) all snapshot_id bindings results snapshots = (
    (
      _,
      ended q.now q.run_id failed none (some message) _ (new_run q.now (run_request e q all))
          (started q.now e.stale_message (run_request e q all) db.runs fresh) (eq_refl q.run_id),
      refl,
      refl,
      refl,
      refl,
    ),
    refl,
    refl,
  )
  end_run-Ends none all snapshot_id bindings results snapshots = (
    (
      _,
      ended q.now q.run_id succeeded _ none _ (new_run q.now (run_request e q all))
          (started q.now e.stale_message (run_request e q all) db.runs fresh) (eq_refl q.run_id),
      refl,
      refl,
      refl,
      refl,
    ),
    (λ dry.
        dry_results e.numbers q.run_id snapshot_id q.now (is_write q.mode) bindings results
          no_results _ dry),
    refl,
    refl,
  )

  applicable-Ends : (ms : List Manifest) → Ends q db (verify_applicable e q ms db)
  unfolding verify_applicable
  applicable-Ends ms =
      end_run-Ends _ (all_manifests e (composite_of e q.now ms) ms) _
        (list_current_bindings e q db.tables) _ _

  -- A verification under a fresh run id ends. It is not applicable, and then nothing has changed; or its run is
  -- there, has succeeded with the counts of the outcome and has the time of its end; or the evaluation raised, its
  -- run is there, has failed with the clipped text of the exception and has the time of its end, and no row of the
  -- cards' tables and no check has changed. It never changes a card or a version, and a dry run changes no binding.
  -- For a project that is not there or is not Project_J, and for a manifest of another project, it is not
  -- applicable.
  pub verify-Ends :
      (p : Option Project)
      → Ends q db (verify e q p db)
        × ((elim p [ none ↦ false | some x ↦ is_project_j e x ]) ≡ false
            → (verify e q p db).0 ≡ not_applicable)
        × (is_some (find_where (is_mismatched e) (normalize e q.manifests)) ≡ true
            → (verify e q p db).0 ≡ not_applicable)
  unfolding verify
  verify-Ends none = (refl, (λ _. refl), (λ _. refl))
  verify-Ends (some x) = elim (Bool-cases (is_project_j e x)) [
    | inr h ↦ rw h (refl, (λ _. refl), (λ _. refl))
    | inl h ↦ elim (Bool-cases (is_some (find_where (is_mismatched e) (normalize e q.manifests)))) [
      | inl m ↦ rw (h, m) (refl, (λ _. refl), (λ _. refl))
      | inr m ↦
          rw (h, m)
            (
              applicable-Ends (normalize e q.manifests),
              (λ k. ground (arith, k)),
              (λ k. ground (arith, k)),
            )
    ]
  ]
