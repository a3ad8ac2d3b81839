-- ===== src/Maintenance/Table.antt =====
-- The rows, and the operations of src/codememory/storage/repository.py on them.
use code_sementic_memory.Common.{
  ℕ, ◌+◌, max, String, Bool, true, false, not, ◌&&◌, ◌||◌, Option, none, some, List, [], ◌∷◌, ◌++◌,
  leb, ltb, eqb, ◌==◌, if◌then◌else◌, coalesce, clip, update_where, find_where, Fields, end, field,
  Result, ok, err, ◌>>=◌,
}

-- The CHECK of agent_memory_maintenance.status
pub data MaintenanceStatus : Type 0 where
  pending completed failed superseded : MaintenanceStatus

pub record Maintenance : Type 0 where
  pub maintenance_id : String
  pub cycle_id : String
  pub project_id : String
  pub task_id : String
  pub session_id : String
  pub source_thread_id : String
  pub request_turn_id : String
  pub input_hash : String
  pub status : MaintenanceStatus
  pub attempts : ℕ
  pub max_attempts : ℕ
  pub provider : String
  pub model : Option String
  pub note_count : ℕ
  pub candidate_count : ℕ
  pub last_error : Option String
  pub metadata : Fields
  pub requested_at : ℕ
  pub updated_at : ℕ
  pub completed_at : Option ℕ

abbrev pub Requests : Type 0
Requests = List Maintenance

-- The keyword arguments of `request_agent_memory_maintenance`; a `max_attempts` below 1 acts as 0. The tables that
-- the foreign keys refer to are not part of the state: `references_exist` tells whether the cycle, the project,
-- the task and the session are in them.
pub record Request : Type 0 where
  pub maintenance_id : String
  pub cycle_id : String
  pub project_id : String
  pub task_id : String
  pub session_id : String
  pub source_thread_id : String
  pub request_turn_id : String
  pub input_hash : String
  pub max_attempts : ℕ
  pub provider : String
  pub model : Option String
  pub metadata : Option Fields
  pub references_exist : Bool

pub data MaintenanceError : Type 0 where
  integrity_error : MaintenanceError
  not_persisted : MaintenanceError

abbrev pub is_completed : MaintenanceStatus → Bool
is_completed completed = true
is_completed _ = false

abbrev pub is_pending : MaintenanceStatus → Bool
is_pending pending = true
is_pending _ = false

-- The two computed fields of `_maintenance_from_row`
unfoldable pub retry_allowed : Maintenance → Bool
retry_allowed m = not (is_completed m.status) && ltb m.attempts m.max_attempts

unfoldable pub exhausted : Maintenance → Bool
exhausted m = not (is_completed m.status) && leb m.max_attempts m.attempts

-- cycle_id=? AND input_hash=?
unfoldable pub has_key : String → String → Maintenance → Bool
has_key cycle_id input_hash m = m.cycle_id == cycle_id && m.input_hash == input_hash

unfoldable pub get_maintenance : String → String → Requests → Option Maintenance
get_maintenance cycle_id input_hash t = find_where (has_key cycle_id input_hash) t

-- ORDER BY updated_at DESC, requested_at DESC
unfoldable pub is_newer : Maintenance → Maintenance → Bool
is_newer m n =
    ltb n.updated_at m.updated_at
    || (eqb m.updated_at n.updated_at && ltb n.requested_at m.requested_at)

-- WHERE cycle_id=? ... LIMIT 1
unfoldable pub latest_maintenance : String → Requests → Option Maintenance
unfolding is_newer
latest_maintenance cycle_id [] = none
latest_maintenance cycle_id (m ∷ t) =
    let later = latest_maintenance cycle_id t in
    if m.cycle_id == cycle_id
    then elim later [ none ↦ some m | some n ↦ if is_newer n m then some n else some m ]
    else later

-- `dict(metadata or current)`: an empty dict counts as none
unfoldable pub or_current : Option Fields → Fields → Fields
or_current none current = current
or_current (some end) current = current
or_current (some (field k v fs)) current = field k v fs

-- `dict(metadata or {})`
unfoldable pub or_empty : Option Fields → Fields
or_empty none = end
or_empty (some fs) = fs

-- max(maximum, current["max_attempts"]) with maximum = max(1, max_attempts)
unfoldable pub maximum : Request → Maintenance → ℕ
maximum r m = max (max 1 r.max_attempts) m.max_attempts

-- The UPDATE of a retry
unfoldable pub retried : ℕ → Request → Maintenance → Maintenance → Maintenance
unfolding or_current maximum
retried now r current m = record m {
  status = pending;
  attempts = current.attempts + 1;
  max_attempts = maximum r current;
  request_turn_id = r.request_turn_id;
  provider = r.provider;
  model = coalesce r.model m.model;
  last_error = none;
  metadata = or_current r.metadata current.metadata;
  updated_at = now;
}

-- cycle_id=? AND status='pending' AND input_hash<>?
unfoldable pub is_outdated : String → String → Maintenance → Bool
is_outdated cycle_id input_hash m =
    m.cycle_id == cycle_id && is_pending m.status && not (m.input_hash == input_hash)

unfoldable pub supersede : ℕ → Maintenance → Maintenance
supersede now m = record m { status = superseded; updated_at = now }

unfoldable pub new_row : ℕ → Request → Maintenance
unfolding or_empty
new_row now r = record {
  maintenance_id = r.maintenance_id;
  cycle_id = r.cycle_id;
  project_id = r.project_id;
  task_id = r.task_id;
  session_id = r.session_id;
  source_thread_id = r.source_thread_id;
  request_turn_id = r.request_turn_id;
  input_hash = r.input_hash;
  status = pending;
  attempts = 1;
  max_attempts = max 1 r.max_attempts;
  provider = r.provider;
  model = r.model;
  note_count = 0;
  candidate_count = 0;
  last_error = none;
  metadata = or_empty r.metadata;
  requested_at = now;
  updated_at = now;
  completed_at = none;
}

-- PRIMARY KEY(maintenance_id), UNIQUE(cycle_id, input_hash)
unfoldable pub collides : Request → Maintenance → Bool
unfolding has_key
collides r m = m.maintenance_id == r.maintenance_id || has_key r.cycle_id r.input_hash m

-- The read-back after the transaction
unfoldable pub found_or_raise :
    Option Maintenance → Requests → Result MaintenanceError (Maintenance × Requests)
found_or_raise none t = err not_persisted
found_or_raise (some m) t = ok (m, t)

unfoldable pub read_back :
    String → String → Requests → Result MaintenanceError (Maintenance × Requests)
unfolding found_or_raise
read_back cycle_id input_hash t = found_or_raise (get_maintenance cycle_id input_hash t) t

unfoldable pub insert_unless :
    Option Maintenance → Maintenance → Requests → Result MaintenanceError Requests
insert_unless (some clash) m t = err integrity_error
insert_unless none m t = ok (t ++ m ∷ [])

unfoldable pub insert_row : ℕ → Request → Requests → Result MaintenanceError Requests
unfolding insert_unless
insert_row now r t =
    if r.references_exist
    then insert_unless (find_where (collides r) t) (new_row now r) t
    else err integrity_error

-- The two branches on the SELECT of an existing request
unfoldable pub request_found :
    ℕ → Request → Option Maintenance → Requests → Result MaintenanceError (Maintenance × Requests)
unfolding read_back
request_found now r (some current) t =
    if is_completed current.status || leb (maximum r current) current.attempts
    then ok (current, t)
    else read_back r.cycle_id r.input_hash
        (update_where (λ m. m.maintenance_id == current.maintenance_id) (retried now r current) t)
request_found now r none t =
    insert_row now r (update_where (is_outdated r.cycle_id r.input_hash) (supersede now) t)
    >>= read_back r.cycle_id r.input_hash

unfoldable pub request_maintenance :
    ℕ → Request → Requests → Result MaintenanceError (Maintenance × Requests)
unfolding get_maintenance
request_maintenance now r t = request_found now r (get_maintenance r.cycle_id r.input_hash t) t

-- The UPDATE of a completion
unfoldable pub complete_row : ℕ → String → ℕ → ℕ → Maintenance → Maintenance
complete_row now model note_count candidate_count m = record m {
  status = completed;
  model = some model;
  note_count = note_count;
  candidate_count = candidate_count;
  last_error = none;
  updated_at = now;
  completed_at = some now;
}

unfoldable pub complete_maintenance :
    ℕ → String → String → String → ℕ → ℕ → Requests → Option Maintenance × Requests
unfolding get_maintenance
complete_maintenance now cycle_id input_hash model note_count candidate_count t =
    let t' =
      update_where (has_key cycle_id input_hash) (complete_row now model note_count candidate_count)
        t in
    (get_maintenance cycle_id input_hash t', t')

-- ... AND status<>'completed'
unfoldable pub is_unfinished : String → String → Maintenance → Bool
unfolding has_key
is_unfinished cycle_id input_hash m = has_key cycle_id input_hash m && not (is_completed m.status)

unfoldable pub fail_row : ℕ → String → Maintenance → Maintenance
fail_row now error m = record m {
  status = failed;
  last_error = some (clip 2000 error);
  updated_at = now;
}

unfoldable pub fail_maintenance :
    ℕ → String → String → String → Requests → Option Maintenance × Requests
unfolding get_maintenance is_unfinished
fail_maintenance now cycle_id input_hash error t =
    let t' = update_where (is_unfinished cycle_id input_hash) (fail_row now error) t in
    (get_maintenance cycle_id input_hash t', t')

unfoldable pub fail_latest :
    ℕ → String → String → Option Maintenance → Requests → Option Maintenance × Requests
fail_latest now cycle_id error none t = (none, t)
fail_latest now cycle_id error (some m) t =
    if is_pending m.status then fail_maintenance now cycle_id m.input_hash error t else (some m, t)

unfoldable pub fail_pending_maintenance :
    ℕ → String → String → Requests → Option Maintenance × Requests
unfolding fail_latest
fail_pending_maintenance now cycle_id error t =
    fail_latest now cycle_id error (latest_maintenance cycle_id t) t
