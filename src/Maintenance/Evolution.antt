-- ===== src/Maintenance/Evolution.antt =====
-- Each call moves each row of a valid table along the steps of `Calls`, and may add one.
use code_sementic_memory.Common.{
  ℕ, ◌<◌, ◌≡◌, refl, sym, ap, ◌∙◌, ◌≢◌, inl, inr, String, Bool, true, false, ◌||◌, Option, none,
  some, [], ◌∷◌, ◌++◌, arith, All, All-of, All-imp, All-append, Evolves, Evolves-refl,
  Evolves-extend, Evolves-update_where, Evolves-imp, All-Evolves, Unique-append, Unique-found,
  Unique-Evolves, find_where, find_where-none, update_where, Option-cases, Bool-cases, eq_iff,
  ==-eq, ◌==◌, ok, err, ◌>>=◌, subst, leb, if◌then◌else◌,
}
use code_sementic_memory.Maintenance.Table.{
  Maintenance, Requests, Request, is_completed, is_pending, has_key, get_maintenance,
  latest_maintenance, maximum, retried, is_outdated, supersede, new_row, collides, found_or_raise,
  integrity_error, read_back, insert_unless, insert_row, request_found, request_maintenance,
  complete_maintenance, is_unfinished, fail_maintenance, fail_latest, fail_pending_maintenance,
}
use code_sementic_memory.Maintenance.Calls.{
  Call, request, complete, fail, fail_pending, after, step, RowStep, stays, retries, supersedes,
  completes, fails, id_of, key_of, RowIsValid, IsValid, IsNew, RowStep-RowIsValid, RowStep-id,
  RowStep-key, has_key-eq,
}

module _ (c : Call) where
  Update-Evolves :
      (p : Maintenance → Bool) (f : Maintenance → Maintenance) (t : Requests)
      → All (λ m. p m ≡ true → RowStep c m (f m)) t
      → Evolves (RowStep c) (λ _. ⊥) t (update_where p f t)
  Update-Evolves p f t h =
      Evolves-update_where p f (λ m. p m ≡ true → RowStep c m (f m)) (RowStep c) _ t (λ m s e. s e)
        (λ m s e. stays refl) h

  -- A step of every row, with no row added, keeps a table valid.
  steps-IsValid : (t u : Requests) → Evolves (RowStep c) (λ _. ⊥) t u → IsValid t → IsValid u
  steps-IsValid t u e v = record {
    rows =
        All-Evolves (RowStep c) _ RowIsValid RowIsValid t u
          (λ m n s w. RowStep-RowIsValid c m n s w) (λ m none_new. absurd none_new) e v.rows;
    ids = Unique-Evolves id_of (RowStep c) t u (RowStep-id c) e v.ids;
    keys = Unique-Evolves key_of (RowStep c) t u (RowStep-key c) e v.keys;
  }

-- The UPDATE of a retry finds the one row that the SELECT found.
retry-Evolves :
    (now : ℕ) (r : Request) (current : Maintenance) (t : Requests)
    → IsValid t
    → find_where (has_key r.cycle_id r.input_hash) t ≡ some current
    → is_completed current.status ≡ false
    → current.attempts < maximum r current
    → Evolves
        (RowStep (request now r))
        (λ _. ⊥)
        t
        (update_where (λ m. m.maintenance_id == current.maintenance_id) (retried now r current) t)
retry-Evolves now r current t v found unfinished below = Update-Evolves (request now r) _ _ t (
    All-imp t (λ m only e. retry_of m (only (==-eq m.maintenance_id current.maintenance_id e)))
      (Unique-found id_of _ t current v.ids found))
  where
    retry_of : (m : Maintenance) → m ≡ current → RowStep (request now r) m (retried now r current m)
    retry_of m e =
        retries now r (ap (λ (k : Maintenance). is_completed k.status) e ∙ unfinished)
          (subst (λ (k : Maintenance). k.attempts < maximum r k) (sym e) below)
          (ap (λ (k : Maintenance). retried now r k m) (sym e))

supersede-Evolves :
    (now : ℕ) (r : Request) (t : Requests)
    → Evolves
        (RowStep (request now r))
        (λ _. ⊥)
        t
        (update_where (is_outdated r.cycle_id r.input_hash) (supersede now) t)
supersede-Evolves now r t =
    Update-Evolves (request now r) _ _ t (All-of t (λ m e. supersedes now (pending_of m e) refl))
  where
    pending_of :
        (m : Maintenance)
        → is_outdated r.cycle_id r.input_hash m ≡ true
        → is_pending m.status ≡ true
    pending_of m e = unfold is_outdated in ground arith

-- A new row collides with none.
no_clash :
    (now : ℕ) (r : Request) (m : Maintenance)
    → collides r m ≡ false
    → (id_of m ≢ id_of (new_row now r)) × (key_of m ≢ key_of (new_row now r))
unfolding collides new_row has_key
no_clash now r m e = ground (
  arith,
  eq_iff m.maintenance_id r.maintenance_id,
  eq_iff m.cycle_id r.cycle_id,
  eq_iff m.input_hash r.input_hash,
)

new_row-RowIsValid : (now : ℕ) (r : Request) → RowIsValid (new_row now r)
unfolding new_row
new_row-RowIsValid now r = omega arith

inserted-IsValid :
    (now : ℕ) (r : Request) (t : Requests)
    → IsValid t
    → find_where (collides r) t ≡ none
    → IsValid (t ++ new_row now r ∷ [])
inserted-IsValid now r t v e =
    let distinct = All-imp t (λ m f. no_clash now r m f) (find_where-none (collides r) t e) in
    record {
      rows = All-append RowIsValid t (new_row now r ∷ []) v.rows (new_row-RowIsValid now r, tt);
      ids = Unique-append id_of t (new_row now r) (All-imp t (λ m d. d.0) distinct) v.ids;
      keys = Unique-append key_of t (new_row now r) (All-imp t (λ m d. d.1) distinct) v.keys;
    }

-- What a call promises: every row steps, and the table stays valid.
abbrev pub Keeps : Call → Requests → Requests → Type 0
Keeps c t u = Evolves (RowStep c) IsNew t u × IsValid u

unchanged : (c : Call) (t : Requests) → IsValid t → Keeps c t t
unchanged c t v = (Evolves-refl (RowStep c) IsNew t (λ m. stays refl), v)

updated : (c : Call) (t u : Requests) → IsValid t → Evolves (RowStep c) (λ _. ⊥) t u → Keeps c t u
updated c t u v e = (
  Evolves-imp (RowStep c) (RowStep c) _ IsNew t u (λ m n s. s) (λ m none_new. absurd none_new) e,
  steps-IsValid c t u e v,
)

-- A read-back either returns the table or raises, and then the table is the old one.
read_back-Keeps :
    (c : Call) (cycle_id input_hash : String) (t u : Requests)
    → IsValid t
    → Keeps c t u
    → Keeps c t (after (read_back cycle_id input_hash u) t)
unfolding read_back found_or_raise
read_back-Keeps c cycle_id input_hash t u v k =
    elim (Option-cases (get_maintenance cycle_id input_hash u)) [
      | inl e ↦ rw e (unchanged c t v)
      | inr (m, e) ↦ rw e k
    ]

insert_found-Keeps :
    (now : ℕ) (r : Request) (o : Option Maintenance) (t u : Requests)
    → IsValid t
    → Evolves (RowStep (request now r)) (λ _. ⊥) t u
    → find_where (collides r) u ≡ o
    → Keeps
        (request now r)
        t
        (after (insert_unless o (new_row now r) u >>= read_back r.cycle_id r.input_hash) t)
unfolding insert_unless
insert_found-Keeps now r (some m) t u v e f = unchanged (request now r) t v
insert_found-Keeps now r none t u v e f =
    read_back-Keeps (request now r) r.cycle_id r.input_hash t (u ++ new_row now r ∷ []) v (
      Evolves-extend (RowStep (request now r)) IsNew t u (new_row now r ∷ []) e
          ((now, r, refl), tt),
      inserted-IsValid now r u (steps-IsValid (request now r) t u e v) f,
    )

referenced-Keeps :
    (now : ℕ) (r : Request) (b : Bool) (t u : Requests)
    → IsValid t
    → Evolves (RowStep (request now r)) (λ _. ⊥) t u
    → Keeps (request now r) t (
        after
          ((if b
              then insert_unless (find_where (collides r) u) (new_row now r) u
              else err integrity_error)
            >>= read_back r.cycle_id r.input_hash)
          t)
referenced-Keeps now r true t u v e = insert_found-Keeps now r _ t u v e refl
referenced-Keeps now r false t u v e = unchanged (request now r) t v

retry_found-Keeps :
    (now : ℕ) (r : Request) (current : Maintenance) (t : Requests)
    → IsValid t
    → find_where (has_key r.cycle_id r.input_hash) t ≡ some current
    → (b : Bool) → (is_completed current.status || leb (maximum r current) current.attempts) ≡ b
    → Keeps (request now r) t (
        after
          (if b
            then ok (current, t)
            else read_back r.cycle_id r.input_hash (
                update_where
                  (λ m. m.maintenance_id == current.maintenance_id)
                  (retried now r current)
                  t))
          t)
retry_found-Keeps now r current t v found true e = unchanged (request now r) t v
retry_found-Keeps now r current t v found false e =
    read_back-Keeps (request now r) r.cycle_id r.input_hash t _ v (
      updated (request now r) t _ v
        (retry-Evolves now r current t v found (ground arith) (ground arith)))

request-Keeps :
    (now : ℕ) (r : Request) (o : Option Maintenance) (t : Requests)
    → IsValid t
    → find_where (has_key r.cycle_id r.input_hash) t ≡ o
    → Keeps (request now r) t (after (request_found now r o t) t)
unfolding request_found insert_row
request-Keeps now r (some current) t v e = retry_found-Keeps now r current t v e _ refl
request-Keeps now r none t v e =
    referenced-Keeps now r r.references_exist t _ v (supersede-Evolves now r t)

complete-Keeps :
    (now : ℕ) (cycle_id input_hash model : String) (notes candidates : ℕ) (t : Requests)
    → IsValid t
    → let c = complete now cycle_id input_hash model notes candidates in Keeps c t (step c t)
unfolding step complete_maintenance
complete-Keeps now cycle_id input_hash model notes candidates t v = updated c t _ v (
    Update-Evolves c _ _ t (
      All-of t (λ m e.
        let (a, b) = has_key-eq cycle_id input_hash m e in
        completes now model notes candidates (cc (sym a, sym b)) refl)))
  where
    c : Call
    c = complete now cycle_id input_hash model notes candidates

fail-Evolves :
    (c : Call) (now : ℕ) (cycle_id input_hash error : String) (t : Requests)
    → Evolves (RowStep c) (λ _. ⊥) t (fail_maintenance now cycle_id input_hash error t).1
unfolding fail_maintenance
fail-Evolves c now cycle_id input_hash error t =
    Update-Evolves c _ _ t (All-of t (λ m e. fails now error (unfinished m e) refl))
  where
    unfinished :
        (m : Maintenance)
        → is_unfinished cycle_id input_hash m ≡ true
        → is_completed m.status ≡ false
    unfinished m e = unfold is_unfinished in ground arith

fail_latest-Evolves :
    (c : Call) (now : ℕ) (cycle_id error : String) (o : Option Maintenance) (t : Requests)
    → Evolves (RowStep c) (λ _. ⊥) t (fail_latest now cycle_id error o t).1
unfolding fail_latest
fail_latest-Evolves c now cycle_id error none t = Evolves-refl (RowStep c) _ t (λ m. stays refl)
fail_latest-Evolves c now cycle_id error (some m) t = elim (Bool-cases (is_pending m.status)) [
  | inl e ↦ rw e (fail-Evolves c now cycle_id m.input_hash error t)
  | inr e ↦ rw e (Evolves-refl (RowStep c) _ t (λ m. stays refl))
]

-- Every call on a valid table moves its rows along the steps and leaves a valid table.
pub step-Keeps : (c : Call) (t : Requests) → IsValid t → Keeps c t (step c t)
unfolding step
step-Keeps (request now r) t v = unfold request_maintenance in request-Keeps now r _ t v refl
step-Keeps (complete now cycle_id input_hash model notes candidates) t v =
    complete-Keeps now cycle_id input_hash model notes candidates t v
step-Keeps (fail now cycle_id input_hash error) t v =
    updated _ t _ v (fail-Evolves _ now cycle_id input_hash error t)
step-Keeps (fail_pending now cycle_id error) t v =
    unfold fail_pending_maintenance in
    updated _ t _ v (fail_latest-Evolves _ now cycle_id error (latest_maintenance cycle_id t) t)
