-- ===== src/Maintenance/Calls.antt =====
-- The calls on the maintenance table, and the step that each makes of a row.
use code_sementic_memory.Common.{
  ℕ, ◌≤◌, ◌<◌, ◌≡◌, String, true, false, List, [], ◌∷◌, arith, All, Unique, eq_iff, Result, ok, err,
}
use code_sementic_memory.Maintenance.Table.{
  Maintenance, Requests, Request, MaintenanceError, is_completed, is_pending, has_key, maximum,
  retried, supersede, new_row, request_maintenance, complete_row, complete_maintenance, fail_row,
  fail_maintenance, fail_pending_maintenance,
}

pub data Call : Type 0 where
  request : ℕ → Request → Call
  complete : ℕ → String → String → String → ℕ → ℕ → Call
  fail : ℕ → String → String → String → Call
  fail_pending : ℕ → String → String → Call

-- A call that raises leaves the table as it was: the read-back of a stored request always succeeds.
abbrev pub after : Result MaintenanceError (Maintenance × Requests) → Requests → Requests
after (ok (m, t')) t = t'
after (err e) t = t

unfoldable pub step : Call → Requests → Requests
step (request now r) t = after (request_maintenance now r t) t
step (complete now cycle_id input_hash model notes candidates) t =
    (complete_maintenance now cycle_id input_hash model notes candidates t).1
step (fail now cycle_id input_hash error) t = (fail_maintenance now cycle_id input_hash error t).1
step (fail_pending now cycle_id error) t = (fail_pending_maintenance now cycle_id error t).1

unfoldable pub run : List Call → Requests → Requests
run [] t = t
run (c ∷ cs) t = run cs (step c t)

pub data RowStep (c : Call) (m n : Maintenance) : Type 0 where
  stays : n ≡ m → RowStep c m n
  retries :
      (now : ℕ) (r : Request)
      → is_completed m.status ≡ false
      → m.attempts < maximum r m
      → n ≡ retried now r m m
      → RowStep c m n
  supersedes : (now : ℕ) → is_pending m.status ≡ true → n ≡ supersede now m → RowStep c m n
  completes :
      (now : ℕ) (model : String) (notes candidates : ℕ)
      → c ≡ complete now m.cycle_id m.input_hash model notes candidates
      → n ≡ complete_row now model notes candidates m
      → RowStep c m n
  fails :
      (now : ℕ) (error : String)
      → is_completed m.status ≡ false
      → n ≡ fail_row now error m
      → RowStep c m n

abbrev pub id_of : Maintenance → String
id_of m = m.maintenance_id

-- The columns of UNIQUE(cycle_id, input_hash)
abbrev pub key_of : Maintenance → String × String
key_of m = (m.cycle_id, m.input_hash)

-- Unique ids and keys, and attempts within their limit
pub record RowIsValid (m : Maintenance) : Type 0 where
  pub started : 1 ≤ m.attempts
  pub limited : m.attempts ≤ m.max_attempts

pub record IsValid (t : Requests) : Type 0 where
  pub rows : All RowIsValid t
  pub ids : Unique id_of t
  pub keys : Unique key_of t

abbrev pub IsNew : Maintenance → Type 0
IsNew m = (now : ℕ) × (r : Request) × (m ≡ new_row now r)

pub RowStep-RowIsValid :
    (c : Call) (m n : Maintenance) → RowStep c m n → RowIsValid m → RowIsValid n
unfolding retried supersede complete_row fail_row
RowStep-RowIsValid c m n (stays e) v = ground arith
RowStep-RowIsValid c m n (retries now r u lt e) v = ground arith
RowStep-RowIsValid c m n (supersedes now p e) v = ground arith
RowStep-RowIsValid c m n (completes now model a b q e) v = ground arith
RowStep-RowIsValid c m n (fails now error u e) v = ground arith

pub RowStep-id : (c : Call) (m n : Maintenance) → RowStep c m n → id_of n ≡ id_of m
unfolding retried supersede complete_row fail_row
RowStep-id c m n (stays e) = ground arith
RowStep-id c m n (retries now r u lt e) = ground arith
RowStep-id c m n (supersedes now p e) = ground arith
RowStep-id c m n (completes now model a b q e) = ground arith
RowStep-id c m n (fails now error u e) = ground arith

pub RowStep-key : (c : Call) (m n : Maintenance) → RowStep c m n → key_of n ≡ key_of m
unfolding retried supersede complete_row fail_row
RowStep-key c m n (stays e) = ground arith
RowStep-key c m n (retries now r u lt e) = ground arith
RowStep-key c m n (supersedes now p e) = ground arith
RowStep-key c m n (completes now model a b q e) = ground arith
RowStep-key c m n (fails now error u e) = ground arith

pub has_key-eq :
    (c i : String) (m : Maintenance) → has_key c i m ≡ true → (m.cycle_id ≡ c) × (m.input_hash ≡ i)
unfolding has_key
has_key-eq c i m h = ground (arith, eq_iff m.cycle_id c, eq_iff m.input_hash i)
