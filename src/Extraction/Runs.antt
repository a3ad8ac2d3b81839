-- ===== src/Extraction/Runs.antt =====
-- The table extraction_runs and the operations on it.
use code_sementic_memory.Common.{
  ℕ, ◌+◌, String, Bool, true, false, not, ◌&&◌, Option, none, some, List, [], ◌∷◌, ◌++◌, ◌==◌, leb,
  clip, if◌then◌else◌, find_where, update_where,
}

pub data RunStatus : Type 0 where
  running succeeded retry dead : RunStatus

-- The columns of UNIQUE(task_id, input_hash, extractor_version, prompt_version, schema_version)
pub record RunKey : Type 0 where
  pub task_id : String
  pub input_hash : String
  pub extractor_version : String
  pub prompt_version : String
  pub schema_version : String

pub record Run : Type 0 where
  pub run_id : String
  pub key : RunKey
  pub project_id : String
  pub session_id : Option String
  pub provider : String
  pub model : String
  pub status : RunStatus
  pub input_json : String
  pub result : Option String
  pub error : Option String
  pub attempts : ℕ
  pub created_at : ℕ
  pub updated_at : ℕ

-- What `begin_run` is called with, with the fresh uuid of a new run
pub record RunRequest : Type 0 where
  pub key : RunKey
  pub project_id : String
  pub session_id : Option String
  pub provider : String
  pub model : String
  pub input_json : String
  pub force : Bool
  pub run_id : String

pub record RunStart : Type 0 where
  pub run_id : String
  pub status : RunStatus
  pub created : Bool
  pub execute : Bool
  pub attempts : ℕ
  pub input_hash : String

unfoldable pub same_key : RunKey → Run → Bool
same_key k r =
    r.key.task_id == k.task_id
    && (r.key.input_hash == k.input_hash
        && (r.key.extractor_version == k.extractor_version
            && (r.key.prompt_version == k.prompt_version
                && r.key.schema_version == k.schema_version)))

unfoldable pub has_run : String → Run → Bool
has_run run_id r = r.run_id == run_id

-- The statuses that are not started again without `force`
abbrev pub is_closed : RunStatus → Bool
is_closed succeeded = true
is_closed running = true
is_closed dead = true
is_closed retry = false

unfoldable pub restarted : ℕ → RunRequest → ℕ → Run → Run
restarted now q attempts r = record r {
  status = running;
  attempts = attempts;
  error = none;
  updated_at = now;
  provider = q.provider;
  model = q.model;
}

unfoldable pub new_run : ℕ → RunRequest → Run
new_run now q = record {
  run_id = q.run_id;
  key = q.key;
  project_id = q.project_id;
  session_id = q.session_id;
  provider = q.provider;
  model = q.model;
  status = running;
  input_json = q.input_json;
  result = none;
  error = none;
  attempts = 1;
  created_at = now;
  updated_at = now;
}

-- On the SELECT by the key
unfoldable pub begin_found : ℕ → RunRequest → Option Run → List Run → RunStart × List Run
begin_found now q none t = (
  record {
    run_id = q.run_id;
    status = running;
    created = true;
    execute = true;
    attempts = 1;
    input_hash = q.key.input_hash;
  },
  t ++ new_run now q ∷ [],
)
begin_found now q (some r) t =
    if is_closed r.status && not q.force
    then (
      record {
        run_id = r.run_id;
        status = r.status;
        created = false;
        execute = false;
        attempts = r.attempts;
        input_hash = q.key.input_hash;
      },
      t,
    )
    else (
      record {
        run_id = r.run_id;
        status = running;
        created = false;
        execute = true;
        attempts = r.attempts + 1;
        input_hash = q.key.input_hash;
      },
      update_where (has_run r.run_id) (restarted now q (r.attempts + 1)) t,
    )

unfoldable pub begin_run : ℕ → RunRequest → List Run → RunStart × List Run
begin_run now q t = begin_found now q (find_where (same_key q.key) t) t

unfoldable pub failed_run : ℕ → String → Bool → Run → Run
failed_run now error is_dead r = record r {
  status = if is_dead then dead else retry;
  error = some (clip 4000 error);
  updated_at = now;
}

-- The result of `record_failure` is not used by its caller.
unfoldable pub record_failure : ℕ → String → String → Bool → List Run → List Run
record_failure now run_id error is_dead t =
    update_where (has_run run_id) (failed_run now error is_dead) t

unfoldable pub succeeded_run : ℕ → String → Run → Run
succeeded_run now result r = record r {
  status = succeeded;
  result = some result;
  error = none;
  updated_at = now;
}

-- The UPDATE of the run at the end of `record_success`
unfoldable pub finish_run : ℕ → String → String → List Run → List Run
finish_run now run_id result t = update_where (has_run run_id) (succeeded_run now result) t

pub data ExtractionStatus : Type 0 where
  extracted duplicate in_progress dead_run failed : ExtractionStatus

-- What the provider, the validation and the insertion of the candidates come to
pub data Outcome : Type 0 where
  stored : String → Outcome
  raised : String → Outcome

abbrev pub idle_status : RunStatus → ExtractionStatus
idle_status dead = dead_run
idle_status succeeded = duplicate
idle_status _ = in_progress

unfoldable pub settle_run : ℕ → RunStart → Outcome → List Run → ExtractionStatus × List Run
settle_run now run (stored result) t = (extracted, finish_run now run.run_id result t)
settle_run now run (raised message) t =
    (failed, record_failure now run.run_id message (leb 3 run.attempts) t)

-- After `begin_run`
unfoldable pub execute_run : ℕ → Outcome → RunStart × List Run → ExtractionStatus × List Run
execute_run now o (run, t) =
    if run.execute then settle_run now run o t else (idle_status run.status, t)

-- `extract_task`
unfoldable pub extract_task : ℕ → RunRequest → Outcome → List Run → ExtractionStatus × List Run
extract_task now q o t = execute_run now o (begin_run now q t)
