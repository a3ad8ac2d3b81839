-- ===== src/Verification/Applied.antt =====
-- What recorded results do to bindings, counts and histories.
use code_sementic_memory.Common.{
  ℕ, ◌≡◌, ◌≢◌, refl, sym, ap, ◌∙◌, String, Bool, true, false, false≢true, Option, none, some,
  some-injective, List, [], ◌∷◌, ◌==◌, arith, if◌then◌else◌, inl, inr, Bool-cases, eq_iff, ==-eq,
  find_where, find_where-holds, find_where-update_where, update_where,
}
use code_sementic_memory.Cards.Rows.{Binding}
use code_sementic_memory.Verification.Evaluation.{
  Status, Verification, missing, rejected, renamed, stale, unverified, verified,
}
use code_sementic_memory.Verification.Runs.{Counts}
use code_sementic_memory.Verification.Results.{
  Numbers, ResultDb, find_binding, has_binding, is_applied, is_unverified, record_binding,
  record_result, record_results, set_verified, status_text,
}

-- A binding with the id is there, and its status is not unverified.
abbrev pub Resolved : String → List Binding → Type 0
Resolved id bindings =
    (b : Binding) × (find_where (has_binding id) bindings ≡ some b) × (b.status ≢ "unverified")

status_text-ne : (s : Status) → is_unverified s ≡ false → status_text s ≢ "unverified"
status_text-ne verified h e = ground (arith, eq_iff (status_text verified) "unverified", e)
status_text-ne missing h e = ground (arith, eq_iff (status_text missing) "unverified", e)
status_text-ne renamed h e = ground (arith, eq_iff (status_text renamed) "unverified", e)
status_text-ne stale h e = ground (arith, eq_iff (status_text stale) "unverified", e)
status_text-ne unverified h e = absurd (false≢true (sym h))
status_text-ne rejected h e = ground (arith, eq_iff (status_text rejected) "unverified", e)

-- An applied result for a resolved binding is not unverified.
applied-ne :
    (apply_status : Bool) (s : Status) (old : String)
    → old ≢ "unverified"
    → is_applied apply_status s old ≡ true
    → is_unverified s ≡ false
unfolding is_applied
applied-ne apply_status s old resolved h = elim (Bool-cases (is_unverified s)) [
  | inr e ↦ e
  | inl e ↦ absurd (resolved (==-eq old "unverified" (ground (arith, h, e))))
]

same_id : (id : String) (b : Binding) → has_binding id b ≡ true → b.binding_id ≡ id
unfolding has_binding
same_id id b h = ==-eq b.binding_id id h

module _ (n : Numbers) (run_id snapshot_id : String) (now : ℕ) (apply_status : Bool) where
  record_result-Resolved :
      (bindings : List Binding) (r : Verification) (id : String) (k : Counts) (db : ResultDb)
      (old : Binding)
      → find_where (has_binding id) bindings ≡ some old
      → old.status ≢ "unverified"
      → Resolved id db.bindings
      → Resolved id
          (record_result n run_id snapshot_id now apply_status r
            (find_binding n run_id snapshot_id now apply_status bindings r.binding_id)
            k
            db).1.bindings
  unfolding find_binding
  record_result-Resolved bindings r id k db old read resolved (b, found, ne) =
      elim (Bool-cases (r.binding_id == "")) [
        | inl e ↦ unfold record_result in rw e (b, found, ne)
        | inr e ↦ rw e (one (find_where (has_binding r.binding_id) bindings) refl)
      ]
    where
      one :
          (o : Option Binding)
          → find_where (has_binding r.binding_id) bindings ≡ o
          → Resolved id (record_result n run_id snapshot_id now apply_status r o k db).1.bindings
      one none f = unfold record_result in (b, found, ne)
      one (some current) f =
          unfold record_result in
          unfold record_binding in
          elim (Bool-cases (is_applied apply_status r.status current.status)) [
            | inr e ↦ rw e (b, found, ne)
            | inl e ↦ rw e (
                let moved : find_where (has_binding id) (
                      update_where (has_binding r.binding_id)
                        (set_verified n run_id snapshot_id now apply_status r current) db.bindings)
                    ≡ some (
                        if has_binding r.binding_id b
                        then set_verified n run_id snapshot_id now apply_status r current b
                        else b) =
                  find_where-update_where (has_binding id) (has_binding r.binding_id)
                    (set_verified n run_id snapshot_id now apply_status r current) db.bindings
                    (λ x. unfold set_verified in unfold has_binding in refl)
                  ∙ rw found refl in
                elim (Bool-cases (has_binding r.binding_id b)) [
                  | inr h ↦ (b, moved ∙ rw h refl, ne)
                  | inl h ↦
                      let q : r.binding_id ≡ id =
                        sym (same_id r.binding_id b h)
                        ∙ same_id id b (find_where-holds _ db.bindings b found) in
                      let same : current ≡ old =
                        some-injective _ _
                          (sym f ∙ ap (λ j. find_where (has_binding j) bindings) q ∙ read) in
                      (
                        set_verified n run_id snapshot_id now apply_status r current b,
                        moved ∙ rw h refl,
                        unfold set_verified in
                            status_text-ne r.status (
                              applied-ne apply_status r.status current.status (rw same resolved) e),
                      )
                ])
          ]

  results-Resolved :
      (bindings : List Binding) (rs : List Verification) (id : String) (k : Counts) (db : ResultDb)
      (old : Binding)
      → find_where (has_binding id) bindings ≡ some old
      → old.status ≢ "unverified"
      → Resolved id db.bindings
      → Resolved id
          (record_results n run_id snapshot_id now apply_status bindings rs k db).1.bindings
  unfolding record_results
  results-Resolved bindings [] id k db old read resolved h = h
  results-Resolved bindings (r ∷ rs) id k db old read resolved h =
      results-Resolved bindings rs id _ _ old read resolved
        (record_result-Resolved bindings r id k db old read resolved h)

  dry_result :
      (bindings : List Binding) (r : Verification) (k : Counts) (db : ResultDb)
      → apply_status ≡ false
      → (record_result n run_id snapshot_id now apply_status r
          (find_binding n run_id snapshot_id now apply_status bindings r.binding_id)
          k
          db).1.bindings
        ≡ db.bindings
  dry_result bindings r k db dry =
      one (find_binding n run_id snapshot_id now apply_status bindings r.binding_id)
    where
      one :
          (o : Option Binding)
          → (record_result n run_id snapshot_id now apply_status r o k db).1.bindings ≡ db.bindings
      one none = unfold record_result in refl
      one (some current) =
          unfold record_result in
          unfold record_binding in
          let no : is_applied apply_status r.status current.status ≡ false =
            unfold is_applied in rw dry refl in
          rw no refl

  pub dry_results :
      (bindings : List Binding) (rs : List Verification) (k : Counts) (db : ResultDb)
      → apply_status ≡ false
      → (record_results n run_id snapshot_id now apply_status bindings rs k db).1.bindings
        ≡ db.bindings
  unfolding record_results
  dry_results bindings [] k db dry = refl
  dry_results bindings (r ∷ rs) k db dry =
      dry_results bindings rs _ _ dry ∙ dry_result bindings r k db dry

  -- Recording results for bindings that are read from the table: without the write flag no binding changes;
  -- with it, a binding whose status was not unverified never becomes unverified.
  pub record_results-Resolved :
      (rs : List Verification) (k : Counts) (db : ResultDb)
      → let after = (record_results n run_id snapshot_id now apply_status db.bindings rs k db).1 in
        (apply_status ≡ false → after.bindings ≡ db.bindings)
        × ((id : String) → Resolved id db.bindings → Resolved id after.bindings)
  record_results-Resolved rs k db = (
    dry_results db.bindings rs k db,
    λ id h. results-Resolved db.bindings rs id k db h.0 h.1 h.2 h,
  )
