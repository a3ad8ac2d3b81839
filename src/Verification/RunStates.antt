-- ===== src/Verification/RunStates.antt =====
-- The runs of the verification store under any calls.
use code_sementic_memory.Common.{
  ℕ, ◌-◌, ◌≤◌, ◌≡◌, refl, String, true, false≢true, not, Option, none, some, List, [], ◌∷◌, arith,
  All, All-append, All-update_where, is_some, All-of,
}
use code_sementic_memory.Verification.Runs.{
  RunCounts, Run, RunRequest, RunState, failed, finish_run, finished, has_run, interrupted,
  is_running, is_stale_run, new_run, not_applicable, recover_stale_runs, running, set_run_snapshots,
  start_run, succeeded, with_snapshots,
}

-- The calls that change the runs
pub data Call : Type 0 where
  start : ℕ → String → RunRequest → Call
  recover : ℕ → ℕ → String → Call
  snapshots : String → List String → Call
  finish : ℕ → String → RunState → Option RunCounts → Option String → Call

-- A call that raises changes nothing.
abbrev pub or_same : Option (List Run) → List Run → List Run
or_same none runs = runs
or_same (some runs') runs = runs'

unfoldable pub call : Call → List Run → List Run
call (start now message q) runs = start_run now message q runs
call (recover now age message) runs = (recover_stale_runs now age message runs).1
call (snapshots id ids) runs = set_run_snapshots id ids runs
call (finish now id status counts error) runs =
    or_same (finish_run now id status counts error runs) runs

unfoldable pub run_calls : List Call → List Run → List Run
run_calls [] runs = runs
run_calls (c ∷ cs) runs = run_calls cs (call c runs)

-- A run has the time of its end exactly when it is not running.
abbrev pub IsDated : Run → Type 0
IsDated r = is_some r.finished_at ≡ not (is_running r.status)

finish-IsDated :
    (now : ℕ) (id : String) (s : RunState) (counts : Option RunCounts) (error : Option String)
    (runs : List Run)
    → All IsDated runs
    → All IsDated (or_same (finish_run now id s counts error runs) runs)
unfolding finish_run finished
finish-IsDated now id running counts error runs h = h
finish-IsDated now id succeeded counts error runs h =
    All-update_where (has_run id) (finished now succeeded counts error) IsDated IsDated runs
      (λ r k e. refl) (λ r k e. k) h
finish-IsDated now id failed counts error runs h =
    All-update_where (has_run id) (finished now failed counts error) IsDated IsDated runs
      (λ r k e. refl) (λ r k e. k) h
finish-IsDated now id not_applicable counts error runs h =
    All-update_where (has_run id) (finished now not_applicable counts error) IsDated IsDated runs
      (λ r k e. refl) (λ r k e. k) h

recover-IsDated :
    (now age : ℕ) (message : String) (runs : List Run)
    → All IsDated runs
    → All IsDated (recover_stale_runs now age message runs).1
unfolding recover_stale_runs interrupted
recover-IsDated now age message runs h =
    All-update_where (is_stale_run now age) (interrupted now message) IsDated IsDated runs
      (λ r k e. refl) (λ r k e. k) h

call-IsDated : (c : Call) (runs : List Run) → All IsDated runs → All IsDated (call c runs)
unfolding call start_run new_run set_run_snapshots with_snapshots
call-IsDated (start now message q) runs h =
    All-append IsDated _ (new_run now q ∷ []) (recover-IsDated now 300 message runs h) (refl, tt)
call-IsDated (recover now age message) runs h = recover-IsDated now age message runs h
call-IsDated (snapshots id ids) runs h =
    All-update_where (has_run id) (with_snapshots ids) IsDated IsDated runs (λ r k e. k)
      (λ r k e. k) h
call-IsDated (finish now id status counts error) runs h =
    finish-IsDated now id status counts error runs h

calls-IsDated :
    (ds : List Call) (runs : List Run) → All IsDated runs → All IsDated (run_calls ds runs)
unfolding run_calls
calls-IsDated [] runs h = h
calls-IsDated (d ∷ ds) runs h = calls-IsDated ds (call d runs) (call-IsDated d runs h)

-- After any calls from an empty table, a run has the time of its end exactly when it is not running.
pub run_calls-IsDated : (cs : List Call) → All IsDated (run_calls cs [])
run_calls-IsDated cs = calls-IsDated cs [] tt

-- A run that is running began at the time or later.
abbrev pub RunsFrom : ℕ → Run → Type 0
RunsFrom t r = is_running r.status ≡ true → t ≤ r.started_at

-- When a run starts, every run that is left running, the new one included, began in the last 300 seconds:
-- older ones have failed.
pub start_run-RunsFrom :
    (now : ℕ) (message : String) (q : RunRequest) (runs : List Run)
    → All (RunsFrom (now - 300)) (start_run now message q runs)
unfolding start_run recover_stale_runs interrupted new_run is_stale_run
start_run-RunsFrom now message q runs =
    All-append (RunsFrom (now - 300)) _ (new_run now q ∷ [])
      (All-update_where (is_stale_run now 300) (interrupted now message) (λ r. Unit {0})
        (RunsFrom (now - 300)) runs (λ r k e h. absurd (false≢true h))
        (λ r k e h. ground (arith, e, h)) (All-of runs (λ r. tt)))
      ((λ h. omega arith), tt)
