-- ===== src/Outbox.antt =====
-- The durable job outbox of src/codememory/storage/repository.py (`OutboxJob`, `claim_outbox`,
-- `claim_outbox_for_task`, `complete_outbox`, `release_outbox`, `fail_outbox` and the bulk
-- operations of a task). The table is the list of its rows in the order of insertion.
-- A time is the number of seconds that its text stands for: the texts are UTC with one layout, so
-- that SQLite orders the texts as the numbers. A negative limit, lease or delay acts as 0 in the
-- code, so these arguments are natural numbers.
pub mod Calls
pub mod Selection
pub mod Evolution
pub mod Lifecycle
pub mod Leases
pub mod Granted
pub mod Claims
pub mod Attempts
pub mod Backoff
pub mod Exhaustion
mod Tests
use Prim.Native.String.{compare}
use Prim.Native.Nat.{Ordering}
use code_sementic_memory.Common.{
  ℕ, zero, suc, ◌+◌, ◌^◌, min, max, String, Bool, true, false, ◌&&◌, ◌||◌, Option, none, some, List,
  [], ◌∷◌, ◌++◌, map, leb, ltb, eqb, ◌==◌, if◌then◌else◌, is_some, truthy, clip, elem, take,
  sort_by, update_where, filter_where, find_where, count_where,
}

-- The CHECK of outbox.status
pub data JobStatus : Type 0 where
  pending processing retry completed dead : JobStatus

-- The payload that the ingest transaction writes
pub record JobPayload : Type 0 where
  pub event_id : String
  pub event_type : String
  pub project_id : String
  pub task_id : String
  pub session_id : Option String

pub record OutboxJob : Type 0 where
  pub job_id : String
  pub job_type : String
  pub aggregate_id : String
  pub dedupe_key : String
  pub payload : JobPayload
  pub status : JobStatus
  pub attempts : ℕ
  pub max_attempts : ℕ
  pub available_at : ℕ
  pub lease_until : Option ℕ
  pub last_error : Option String
  pub created_at : ℕ
  pub updated_at : ℕ

abbrev pub Outbox : Type 0
Outbox = List OutboxJob

-- status = 'processing'
abbrev pub is_processing : JobStatus → Bool
is_processing processing = true
is_processing _ = false

-- status IN ('pending','retry')
abbrev pub is_waiting : JobStatus → Bool
is_waiting pending = true
is_waiting retry = true
is_waiting _ = false

-- status='processing' AND lease_until IS NOT NULL AND lease_until <= now
unfoldable pub lease_expired : ℕ → OutboxJob → Bool
lease_expired now j =
    is_processing j.status && elim j.lease_until [ none ↦ false | some u ↦ leb u now ]

unfoldable pub expire : ℕ → OutboxJob → OutboxJob
expire now j = record j {
  status = if leb j.max_attempts j.attempts then dead else retry;
  available_at = now;
  lease_until = none;
  updated_at = now;
}

-- The first UPDATE of both claims
unfoldable pub return_expired : ℕ → Outbox → Outbox
return_expired now = update_where (lease_expired now) (expire now)

-- `if job_type:` adds the clause on the type
unfoldable pub type_matches : Option String → OutboxJob → Bool
type_matches none j = true
type_matches (some t) j = if t == "" then true else j.job_type == t

unfoldable pub is_ready : ℕ → Option String → OutboxJob → Bool
unfolding type_matches
is_ready now job_type j = is_waiting j.status && leb j.available_at now && type_matches job_type j

unfoldable pub lease : ℕ → ℕ → OutboxJob → OutboxJob
lease now until j = record j {
  status = processing;
  attempts = j.attempts + 1;
  lease_until = some until;
  updated_at = now;
}

abbrev pub created : OutboxJob → ℕ
created j = j.created_at

-- limit = max(1, min(int(limit), 100))
abbrev pub claim_limit : ℕ → ℕ
claim_limit limit = max 1 (min limit 100)

-- The job ids that the SELECT of `claim_outbox` returns
unfoldable pub ready_ids : ℕ → ℕ → Option String → Outbox → List String
ready_ids now limit job_type t =
    map (λ j. j.job_id)
      (take (claim_limit limit) (sort_by created (filter_where (is_ready now job_type) t)))

abbrev pub has_id_in : List String → OutboxJob → Bool
has_id_in ids j = elem j.job_id ids

-- UPDATE ... WHERE job_id IN ids, and the SELECT of the claimed rows
unfoldable pub lease_ids : ℕ → ℕ → List String → Outbox → List OutboxJob × Outbox
lease_ids now until [] t = ([], t)
lease_ids now until (i ∷ ids) t =
    let t' = update_where (has_id_in (i ∷ ids)) (lease now until) t in
    (sort_by created (filter_where (has_id_in (i ∷ ids)) t'), t')

-- The claimed jobs and the table; `if not ids` returns with the expired leases already returned.
unfoldable pub claim_outbox : ℕ → ℕ → ℕ → Option String → Outbox → List OutboxJob × Outbox
claim_outbox now limit lease_seconds job_type t =
    let t' = return_expired now t in
    lease_ids now (now + max 1 lease_seconds) (ready_ids now limit job_type t') t'

-- ORDER BY created_at, job_id
unfoldable pub comes_before : OutboxJob → OutboxJob → Bool
comes_before j k =
    ltb j.created_at k.created_at
    || (eqb j.created_at k.created_at
        && elim (compare j.job_id k.job_id) [ Ordering.lt ↦ true | _ ↦ false ])

-- LIMIT 1
unfoldable pub first_job : Outbox → Option OutboxJob
unfolding comes_before
first_job [] = none
first_job (j ∷ js) = elim (first_job js) [
  | none ↦ some j
  | some k ↦ if comes_before k j then some k else some j
]

-- status IN ('pending','retry') AND job_type=? AND payload.task_id=?
unfoldable pub waits_for_task : String → String → OutboxJob → Bool
waits_for_task job_type task_id j =
    is_waiting j.status && j.job_type == job_type && j.payload.task_id == task_id

unfoldable pub is_ready_for_task : ℕ → String → String → OutboxJob → Bool
unfolding waits_for_task
is_ready_for_task now job_type task_id j =
    leb j.available_at now && waits_for_task job_type task_id j

-- job_id=? AND status IN ('pending','retry')
unfoldable pub waits_as : String → OutboxJob → Bool
waits_as job_id j = j.job_id == job_id && is_waiting j.status

unfoldable pub lease_first : ℕ → ℕ → Option OutboxJob → Outbox → Option OutboxJob × Outbox
unfolding waits_as
lease_first now until none t = (none, t)
lease_first now until (some j) t =
    let t' = update_where (waits_as j.job_id) (lease now until) t in
    (find_where (λ k. k.job_id == j.job_id) t', t')

unfoldable pub claim_outbox_for_task : ℕ → ℕ → String → String → Outbox → Option OutboxJob × Outbox
unfolding is_ready_for_task
claim_outbox_for_task now lease_seconds job_type task_id t =
    let t' = return_expired now t in
    lease_first now (now + max 1 lease_seconds)
      (first_job (filter_where (is_ready_for_task now job_type task_id) t')) t'

-- status='completed', lease_until=NULL
unfoldable pub finish : ℕ → OutboxJob → OutboxJob
finish now j = record j { status = completed; lease_until = none; updated_at = now }

-- status='pending', lease_until=NULL
unfoldable pub give_back : ℕ → OutboxJob → OutboxJob
give_back now j = record j { status = pending; lease_until = none; updated_at = now }

-- A failure: the next status and time, and the clipped message
unfoldable pub park : ℕ → JobStatus → ℕ → String → OutboxJob → OutboxJob
park now next_status available error j = record j {
  status = next_status;
  available_at = available;
  lease_until = none;
  last_error = some (clip 2000 error);
  updated_at = now;
}

-- A bulk acknowledgement; the number is the rowcount.
unfoldable pub complete_outbox_for_task : ℕ → String → String → Outbox → ℕ × Outbox
unfolding waits_for_task
complete_outbox_for_task now job_type task_id t = (
  count_where (waits_for_task job_type task_id) t,
  update_where (waits_for_task job_type task_id) (finish now) t,
)

unfoldable pub fail_outbox_for_task : ℕ → String → String → String → Bool → ℕ → Outbox → ℕ × Outbox
unfolding waits_for_task
fail_outbox_for_task now job_type task_id error is_dead retry_delay_seconds t = (
  count_where (waits_for_task job_type task_id) t,
  update_where (waits_for_task job_type task_id)
      (park now (if is_dead then dead else retry) (now + retry_delay_seconds) error) t,
)

-- job_id=? AND status='processing'
unfoldable pub holds_lease : String → OutboxJob → Bool
holds_lease job_id j = j.job_id == job_id && is_processing j.status

unfoldable pub complete_outbox : ℕ → String → Outbox → Bool × Outbox
unfolding holds_lease
complete_outbox now job_id t =
    (eqb (count_where (holds_lease job_id) t) 1, update_where (holds_lease job_id) (finish now) t)

unfoldable pub release_outbox : ℕ → String → Outbox → Bool × Outbox
unfolding holds_lease
release_outbox now job_id t = (
  eqb (count_where (holds_lease job_id) t) 1,
  update_where (holds_lease job_id) (give_back now) t,
)

-- The bounded exponential backoff
unfoldable pub retry_delay : ℕ → ℕ
retry_delay attempts = min 3600 (2 ^ max 1 (min attempts 10))

-- `later` is the second reading of the clock.
unfoldable pub next_available : ℕ → Option ℕ → Option ℕ → ℕ → ℕ
unfolding retry_delay
next_available later (some retry_at) delay attempts = retry_at
next_available later none (some seconds) attempts = later + seconds
next_available later none none attempts = later + retry_delay attempts

unfoldable pub next_status : Bool → OutboxJob → JobStatus
next_status is_dead row = if is_dead || leb row.max_attempts row.attempts then dead else retry

-- The branches on the SELECT of `fail_outbox`
unfoldable pub fail_found :
    ℕ → ℕ → String → String → Option ℕ → Option ℕ → Bool → Option OutboxJob → Outbox → Bool × Outbox
fail_found now later job_id error retry_at delay is_dead none t = (false, t)
fail_found now later job_id error retry_at delay is_dead (some row) t = (
  eqb (count_where (holds_lease job_id) t) 1,
  update_where (holds_lease job_id)
      (park now (next_status is_dead row) (next_available later retry_at delay row.attempts) error)
      t,
)

unfoldable pub fail_outbox :
    ℕ → ℕ → String → String → Option ℕ → Option ℕ → Bool → Outbox → Bool × Outbox
fail_outbox now later job_id error retry_at delay is_dead t =
    fail_found now later job_id error retry_at delay is_dead (find_where (holds_lease job_id) t) t

-- The job that the ingest transaction inserts
unfoldable pub event_job : String → JobPayload → ℕ → OutboxJob
event_job job_id payload now = record {
  job_id = job_id;
  job_type = "event.ingested";
  aggregate_id = payload.event_id;
  dedupe_key = payload.event_id;
  payload = payload;
  status = pending;
  attempts = 0;
  max_attempts = 8;
  available_at = now;
  lease_until = none;
  last_error = none;
  created_at = now;
  updated_at = now;
}

-- PRIMARY KEY(job_id), UNIQUE(job_type, dedupe_key)
unfoldable pub same_job : OutboxJob → OutboxJob → Bool
same_job j k = j.job_id == k.job_id || (j.job_type == k.job_type && j.dedupe_key == k.dedupe_key)

-- `none` is an IntegrityError.
unfoldable pub insert_unless : Option OutboxJob → OutboxJob → Outbox → Option Outbox
insert_unless (some k) j t = none
insert_unless none j t = some (t ++ j ∷ [])

unfoldable pub insert_job : OutboxJob → Outbox → Option Outbox
insert_job j t = insert_unless (find_where (same_job j) t) j t
