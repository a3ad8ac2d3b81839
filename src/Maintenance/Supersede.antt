-- ===== src/Maintenance/Supersede.antt =====
-- What `request_agent_memory_maintenance` does for evidence of a cycle that was not requested before.
use code_sementic_memory.Common.{
  ℕ, ◌≡◌, refl, sym, ◌≢◌, ◌⊎◌, inl, inr, Bool-cases, ◌==◌, true, false, false≢true, some, [], ◌∷◌,
  ◌++◌, arith, All, All-of, All-imp, All-append, All-update_where, Evolves, Evolves-update_where,
  Evolves-extend, update_where, find_where, All-find_where-none, find_where-append, Bool, Result,
  err, ap, ◌∙◌, if◌then◌else◌, ok, ◌>>=◌, eq_iff, eq_refl,
}
use code_sementic_memory.Maintenance.Table.{
  Maintenance, MaintenanceError, integrity_error, MaintenanceStatus, pending, completed, failed,
  superseded, Requests, Request, is_pending, has_key, get_maintenance, is_outdated, supersede,
  new_row, collides, insert_unless, insert_row, found_or_raise, read_back, request_found,
  request_maintenance,
}

-- The table after the UPDATE of older evidence
abbrev pub outdated_superseded : ℕ → Request → Requests → Requests
outdated_superseded now r t = update_where (is_outdated r.cycle_id r.input_hash) (supersede now) t

-- Neither the id nor the evidence of the request is in the table.
abbrev pub IsFresh : Request → Maintenance → Type 0
IsFresh r m = (has_key r.cycle_id r.input_hash m ≡ false) × (m.maintenance_id ≢ r.maintenance_id)

module _ (now : ℕ) (r : Request) where
  superseded-IsFresh :
      (t : Requests) → All (IsFresh r) t → All (IsFresh r) (outdated_superseded now r t)
  unfolding has_key supersede
  superseded-IsFresh t h =
      All-update_where (is_outdated r.cycle_id r.input_hash) (supersede now) (IsFresh r) (IsFresh r)
        t (λ m f e. kept m f) (λ m f e. f) h
    where
      kept : (m : Maintenance) → IsFresh r m → IsFresh r (supersede now m)
      kept m f = f

  IsFresh-collides : (m : Maintenance) → IsFresh r m → collides r m ≡ false
  unfolding collides
  IsFresh-collides m f = ground (arith, f.0, f.1, eq_iff m.maintenance_id r.maintenance_id)

  new_row-has_key : has_key r.cycle_id r.input_hash (new_row now r) ≡ true
  unfolding has_key new_row
  new_row-has_key = rw (eq_refl r.cycle_id, eq_refl r.input_hash)

  get-new_row :
      (u : Requests)
      → All (IsFresh r) u
      → get_maintenance r.cycle_id r.input_hash (u ++ new_row now r ∷ []) ≡ some (new_row now r)
  unfolding get_maintenance find_where
  get-new_row u f =
      rw
        (find_where-append (has_key r.cycle_id r.input_hash) u (new_row now r ∷ [])
          (All-find_where-none (has_key r.cycle_id r.input_hash) u (All-imp u (λ m h. h.0) f)))
        (rw new_row-has_key refl)

  insert-IsFresh :
      (u : Requests)
      → r.references_exist ≡ true
      → All (IsFresh r) u
      → (insert_row now r u >>= read_back r.cycle_id r.input_hash)
        ≡ ok (new_row now r, u ++ new_row now r ∷ [])
  unfolding insert_row insert_unless read_back found_or_raise
  insert-IsFresh u there f =
      ap (λ x. x >>= read_back r.cycle_id r.input_hash) (guarded r.references_exist there _)
      ∙ rw (All-find_where-none (collides r) u (All-imp u IsFresh-collides f))
          (rw (get-new_row u f) refl)
    where
      guarded :
          (b : Bool)
          → b ≡ true
          → (x : Result MaintenanceError Requests) → (if b then x else err integrity_error) ≡ x
      guarded true h x = refl
      guarded false h x = absurd (false≢true h)

  -- A pending row of the cycle has the evidence of the request.
  abbrev pub OnlyPending : Maintenance → Type 0
  OnlyPending m = m.cycle_id ≡ r.cycle_id → is_pending m.status ≡ true → m.input_hash ≡ r.input_hash

  superseded-OnlyPending : (t : Requests) → All OnlyPending (outdated_superseded now r t)
  unfolding supersede is_outdated
  superseded-OnlyPending t =
      All-update_where (is_outdated r.cycle_id r.input_hash) (supersede now) (λ m. Unit {0})
        OnlyPending t (λ m _ e. gone m) (λ m _ e. kept m e) (All-of t (λ m. tt))
    where
      gone : (m : Maintenance) → OnlyPending (supersede now m)
      gone m c p = absurd (false≢true p)

      kept : (m : Maintenance) → is_outdated r.cycle_id r.input_hash m ≡ false → OnlyPending m
      kept m e c p = ground (arith, eq_iff m.cycle_id r.cycle_id, eq_iff m.input_hash r.input_hash)

  -- A pending row of the cycle with other evidence is superseded, and any other row stays as it is.
  abbrev pub SupersededExactly : Maintenance → Maintenance → Type 0
  SupersededExactly m n =
      ((m.cycle_id ≡ r.cycle_id)
        × (m.status ≡ pending)
        × (m.input_hash ≢ r.input_hash)
        × (n ≡ record m { status = superseded; updated_at = now }))
      ⊎ (((m.cycle_id ≢ r.cycle_id) ⊎ (m.status ≢ pending) ⊎ (m.input_hash ≡ r.input_hash))
          × (n ≡ m))

  pending_status : (s : MaintenanceStatus) → is_pending s ≡ true → s ≡ pending
  pending_status pending h = refl
  pending_status completed h = absurd (false≢true h)
  pending_status failed h = absurd (false≢true h)
  pending_status superseded h = absurd (false≢true h)

  settled_status : (s : MaintenanceStatus) → is_pending s ≡ false → s ≢ pending
  settled_status pending h q = absurd (false≢true (sym h))
  settled_status completed h q = ground (arith, q)
  settled_status failed h q = ground (arith, q)
  settled_status superseded h q = ground (arith, q)

  outdated-hit :
      (m : Maintenance)
      → is_outdated r.cycle_id r.input_hash m ≡ true
      → SupersededExactly m (supersede now m)
  unfolding is_outdated supersede
  outdated-hit m e = inl (
    ground (arith, e, eq_iff m.cycle_id r.cycle_id),
    pending_status m.status (ground (arith, e)),
    (λ q. ground (arith, e, q, eq_iff m.input_hash r.input_hash)),
    refl,
  )

  outdated-miss :
      (m : Maintenance) → is_outdated r.cycle_id r.input_hash m ≡ false → SupersededExactly m m
  unfolding is_outdated
  outdated-miss m e = elim (Bool-cases (m.cycle_id == r.cycle_id)) [
    | inr c ↦ inr (inl (λ q. ground (arith, c, q, eq_iff m.cycle_id r.cycle_id)), refl)
    | inl c ↦ elim (Bool-cases (is_pending m.status)) [
      | inr p ↦ inr (inr (inl (settled_status m.status p)), refl)
      | inl p ↦ inr (inr (inr (ground (arith, e, c, p, eq_iff m.input_hash r.input_hash))), refl)
    ]
  ]

  superseded-exactly :
      (t : Requests) → Evolves SupersededExactly (λ n. ⊥) t (outdated_superseded now r t)
  superseded-exactly t =
      Evolves-update_where (is_outdated r.cycle_id r.input_hash) (supersede now) (λ m. Unit {0})
        SupersededExactly _ t (λ m _ e. outdated-hit m e) (λ m _ e. outdated-miss m e)
        (All-of t (λ m. tt))

  -- A request with a new id for evidence that the cycle has not seen, whose cycle, project, task and session are
  -- there, succeeds: the result is the new row, which is pending with one attempt, and after it no other evidence of
  -- the cycle is pending. Of the older rows exactly the pending ones of that cycle are superseded, with the time and
  -- nothing else changed; all others stay as they are (a failed one stays failed).
  pub request_new :
      (t : Requests)
      → r.references_exist ≡ true
      → All (IsFresh r) t
      → (t' : Requests) × (request_maintenance now r t ≡ ok (new_row now r, t'))
        × All OnlyPending t'
        × Evolves SupersededExactly (λ n. n ≡ new_row now r) t t'
        × ((new_row now r).status ≡ pending)
        × ((new_row now r).attempts ≡ 1)
  unfolding request_maintenance request_found get_maintenance new_row
  request_new t there f = (
    outdated_superseded now r t ++ new_row now r ∷ [],
    rw (All-find_where-none (has_key r.cycle_id r.input_hash) t (All-imp t (λ m h. h.0) f))
        (insert-IsFresh (outdated_superseded now r t) there (superseded-IsFresh t f)),
    All-append OnlyPending (outdated_superseded now r t) (new_row now r ∷ [])
        (superseded-OnlyPending t) (new_row-OnlyPending, tt),
    Evolves-extend SupersededExactly _ t (outdated_superseded now r t) (new_row now r ∷ [])
        (superseded-exactly t) (refl, tt),
    refl,
    refl,
  )
    where
      new_row-OnlyPending : OnlyPending (new_row now r)
      new_row-OnlyPending c p = refl
