-- ===== src/Extraction/Budget.antt =====
-- How often the provider is called for one input.
use code_sementic_memory.Common.{
  ℕ, ◌+◌, ◌-◌, ◌≤◌, ◌<◌, ◌≡◌, refl, sym, ap, ◌∙◌, subst, true, false, false≢true, Option, none,
  some, List, [], ◌∷◌, ◌++◌, leb, if◌then◌else◌, arith, Bool-cases, inl, inr, All, eq_refl,
  find_where, find_where-append, find_where-update_where, update_where,
}
use code_sementic_memory.Extraction.Runs.{
  RunStatus, running, succeeded, retry, dead, RunKey, Run, RunRequest, RunStart, same_key, has_run,
  is_closed, restarted, new_run, begin_found, begin_run, failed_run, record_failure, succeeded_run,
  finish_run, ExtractionStatus, extracted, failed, Outcome, stored, raised, settle_run, execute_run,
  extract_task, idle_status,
}

-- The calls that reach the provider
abbrev pub executed : ExtractionStatus → ℕ
executed extracted = 1
executed failed = 1
executed _ = 0

-- Calls of `extract_task`, one after the other, and how many of them reach the provider
unfoldable pub executions : List (ℕ × RunRequest × Outcome) → List Run → ℕ
executions [] t = 0
executions ((now, q, o) ∷ rest) t =
    let (status, t') = extract_task now q o t in executed status + executions rest t'

-- The calls that are left to the run of a key
abbrev pub allowance : Option Run → ℕ
allowance none = 3
allowance (some r) = if is_closed r.status then 0 else 3 - r.attempts

-- A run that waits for a retry has made fewer than three attempts.
abbrev pub Waits : Option Run → Type 0
Waits none = Unit
Waits (some r) = is_closed r.status ≡ false → r.attempts < 3

module _ (now : ℕ) (q : RunRequest) where
  -- What an UPDATE by the run's id makes of the row that the key finds
  find-updated :
      (f : Run → Run) (r : Run) (t : List Run)
      → ((x : Run) → same_key q.key (f x) ≡ same_key q.key x)
      → find_where (same_key q.key) t ≡ some r
      → find_where (same_key q.key) (update_where (has_run r.run_id) f t) ≡ some (f r)
  unfolding has_run
  find-updated f r t same e =
      find_where-update_where (same_key q.key) (has_run r.run_id) f t same
      ∙ rw e (rw (eq_refl r.run_id) refl)

  find-new :
      (t : List Run)
      → find_where (same_key q.key) t ≡ none
      → find_where (same_key q.key) (t ++ new_run now q ∷ []) ≡ some (new_run now q)
  unfolding find_where same_key new_run
  find-new t e = rw (find_where-append (same_key q.key) t (new_run now q ∷ []) e) (
      rw
        (
          eq_refl q.key.task_id,
          eq_refl q.key.input_hash,
          eq_refl q.key.extractor_version,
          eq_refl q.key.prompt_version,
          eq_refl q.key.schema_version,
        )
        refl)

  -- A started run with `n` attempts that was left open with fewer, after its outcome
  settled :
      (o : Outcome) (start : RunStart) (r : Run) (t : List Run)
      → find_where (same_key q.key) t ≡ some r
      → start.run_id ≡ r.run_id
      → start.attempts ≡ r.attempts
      → r.attempts ≤ 3
      → let (status, t') = settle_run now start o t in
        let found = find_where (same_key q.key) t' in
        Waits found × (executed status + allowance found ≤ 4 - r.attempts)
  unfolding settle_run finish_run record_failure succeeded_run failed_run same_key
  settled (stored result) start r t e same_id same_attempts le = rw same_id (
      rw (find-updated (succeeded_run now result) r t (λ x. refl) e)
        (λ closed. ground (arith, closed), omega (arith, le)))
  settled (raised message) start r t e same_id same_attempts le =
      elim (Bool-cases (leb 3 start.attempts)) [
        | inl d ↦
            rw (d, same_id)
              (rw (find-updated (failed_run now message true) r t (λ x. refl) e)
                (λ closed. ground (arith, closed), omega (arith, le)))
        | inr d ↦
            rw (d, same_id)
              (rw (find-updated (failed_run now message false) r t (λ x. refl) e)
                (λ closed. ground (arith, d, same_attempts), omega (arith, le)))
      ]

  idle-executed : (s : RunStatus) → is_closed s ≡ true → executed (idle_status s) ≡ 0
  idle-executed running h = refl
  idle-executed succeeded h = refl
  idle-executed retry h = absurd (false≢true h)
  idle-executed dead h = refl

  -- A call without `force` uses up of the allowance what it executes.
  spends :
      (o : Outcome) (t : List Run) (was : Option Run)
      → q.force ≡ false
      → find_where (same_key q.key) t ≡ was
      → Waits was
      → let (status, t') = execute_run now o (begin_found now q was t) in
        let found = find_where (same_key q.key) t' in
        Waits found × (executed status + allowance found ≤ allowance was)
  unfolding execute_run begin_found new_run restarted same_key
  spends o t none unforced e w =
      settled o _ (new_run now q) (t ++ new_run now q ∷ []) (find-new t e) refl refl (omega arith)
  spends o t (some r) unforced e w = elim (Bool-cases (is_closed r.status)) [
    | inl c ↦ rw (unforced, c) (rw e (w, rw (c, idle-executed r.status c) (omega arith)))
    | inr c ↦
        let below = w c in
        let (waits, spent) =
          settled o
            (record {
              run_id = r.run_id;
              status = running;
              created = false;
              execute = true;
              attempts = r.attempts + 1;
              input_hash = q.key.input_hash;
            })
            (restarted now q (r.attempts + 1) r)
            (update_where (has_run r.run_id) (restarted now q (r.attempts + 1)) t)
            (find-updated (restarted now q (r.attempts + 1)) r t (λ x. refl) e) refl refl
            (omega (arith, below)) in
        rw (unforced, c) (waits, omega (arith, spent))
  ]

-- The calls are for one key and without `force`.
abbrev pub Unforced : RunKey → ℕ × RunRequest × Outcome → Type 0
Unforced k (now, q, o) = (q.key ≡ k) × (q.force ≡ false)

-- Calls for one key without `force`, on a table where the run of that key, if it waits for a retry, has
-- made fewer than three attempts: whatever the outcomes, the provider is called at most three times when
-- there is no run yet, at most as often as its attempts are short of three when it waits, and not at
-- all once it has succeeded, died or is being run.
pub executions_bounded :
    (k : RunKey) (calls : List (ℕ × RunRequest × Outcome)) (t : List Run)
    → All (Unforced k) calls
    → Waits (find_where (same_key k) t)
    → executions calls t ≤ allowance (find_where (same_key k) t)
unfolding executions extract_task begin_run
executions_bounded k [] t h w = omega arith
executions_bounded k ((now, q, o) ∷ rest) t ((same, unforced), others) w =
    let t' : List Run = (extract_task now q o t).1 in
    let (waits, spent) =
      spends now q o t (find_where (same_key q.key) t) unforced refl
        (subst (λ z. Waits (find_where (same_key z) t)) (sym same) w) in
    let later =
      executions_bounded k rest t' others
        (subst (λ z. Waits (find_where (same_key z) t')) same waits) in
    let after : allowance (find_where (same_key q.key) t')
        ≡ allowance (find_where (same_key k) t') =
      ap (λ z. allowance (find_where (same_key z) t')) same in
    let before : allowance (find_where (same_key q.key) t) ≡ allowance (find_where (same_key k) t) =
      ap (λ z. allowance (find_where (same_key z) t)) same in
    omega (arith, later, spent, after, before)
