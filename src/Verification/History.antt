-- ===== src/Verification/History.antt =====
-- The counters of recorded results, and the history that a binding keeps.
use code_sementic_memory.Common.{
  ℕ, suc, ◌+◌, ◌≡◌, refl, ap, ◌∙◌, min, String, Bool, true, false, Option, none, some, List, [],
  ◌∷◌, ◌==◌, arith, if◌then◌else◌, is_some, inl, inr, Bool-cases, eq_iff, eq_refl, leb, leb→le,
  leb→lt, count_where, Json, Items, nil, cons, Fields, end, field, array,
}
use code_sementic_memory.Cards.Rows.{Binding}
use code_sementic_memory.Verification.Evaluation.{
  Status, Verification, missing, rejected, renamed, stale, unverified, verified,
}
use code_sementic_memory.Verification.Runs.{Counts}
use code_sementic_memory.Verification.Results.{
  Numbers, ResultDb, add_item, count_applied, count_items, count_status, find_binding, get_field,
  history_json, is_applied, items_of, last_items, no_results, record_binding, record_result,
  record_results, set_field, verification_json, verified_metadata,
}

abbrev pub by_status : Counts → ℕ
by_status k = k.verified + k.missing + k.renamed + k.stale + k.unverified + k.rejected

count-step :
    (a : Bool) (s : Status) (k : Counts)
    → ((count_status s (count_applied a k)).applied + (count_status s (count_applied a k)).skipped
        ≡ suc (k.applied + k.skipped))
      × (by_status (count_status s (count_applied a k)) ≡ suc (by_status k))
count-step true verified k = (omega arith, omega arith)
count-step true missing k = (omega arith, omega arith)
count-step true renamed k = (omega arith, omega arith)
count-step true stale k = (omega arith, omega arith)
count-step true unverified k = (omega arith, omega arith)
count-step true rejected k = (omega arith, omega arith)
count-step false verified k = (omega arith, omega arith)
count-step false missing k = (omega arith, omega arith)
count-step false renamed k = (omega arith, omega arith)
count-step false stale k = (omega arith, omega arith)
count-step false unverified k = (omega arith, omega arith)
count-step false rejected k = (omega arith, omega arith)

module _ (n : Numbers) (run_id snapshot_id : String) (now : ℕ) (apply_status : Bool)
    (bindings : List Binding) where
  -- A result for a binding of the run
  abbrev pub is_known : Verification → Bool
  is_known r = is_some (find_binding n run_id snapshot_id now apply_status bindings r.binding_id)

  results-counts :
      (rs : List Verification) (k : Counts) (db : ResultDb)
      → let k' = (record_results n run_id snapshot_id now apply_status bindings rs k db).0 in
        (k'.applied + k'.skipped ≡ k.applied + k.skipped + count_where is_known rs)
        × (by_status k' ≡ by_status k + count_where is_known rs)
  unfolding record_results count_where
  results-counts [] k db = (omega arith, omega arith)
  results-counts (r ∷ rs) k db =
      one (find_binding n run_id snapshot_id now apply_status bindings r.binding_id)
        (λ k1 db1. results-counts rs k1 db1)
    where
      one :
          (o : Option Binding)
          → ((k1 : Counts) (db1 : ResultDb)
              → let k' =
                  (record_results n run_id snapshot_id now apply_status bindings rs k1 db1).0 in
                (k'.applied + k'.skipped ≡ k1.applied + k1.skipped + count_where is_known rs)
                × (by_status k' ≡ by_status k1 + count_where is_known rs))
          → let r1 = record_result n run_id snapshot_id now apply_status r o k db in
            let k' =
              (record_results n run_id snapshot_id now apply_status bindings rs r1.0 r1.1).0 in
            (k'.applied + k'.skipped
              ≡ k.applied + k.skipped + ((if is_some o then 1 else 0) + count_where is_known rs))
            × (by_status k'
                ≡ by_status k + ((if is_some o then 1 else 0) + count_where is_known rs))
      one none rest =
          unfold record_result in let q = rest k db in (omega (arith, q.0), omega (arith, q.1))
      one (some current) rest =
          unfold record_result in
          let a = is_applied apply_status r.status current.status in
          let step = count-step a r.status k in
          let q =
            rest (count_status r.status (count_applied a k))
              (record_binding n run_id snapshot_id now apply_status r current a db) in
          (omega (arith, q.0, step.0), omega (arith, q.1, step.1))

  -- Of the results that are recorded, applied and skipped count together those for bindings of the run, each
  -- once, and so do the counters of the six statuses.
  pub record_results_counts :
      (rs : List Verification) (db : ResultDb)
      → let k =
          (record_results n run_id snapshot_id now apply_status bindings rs no_results db).0 in
        (k.applied + k.skipped ≡ count_where is_known rs) × (by_status k ≡ count_where is_known rs)
  record_results_counts rs db =
      let q = results-counts rs no_results db in (omega (arith, q.0), omega (arith, q.1))

get_field-set_field :
    (k : String) (v : Json) (fs : Fields) → get_field k (set_field k v fs) ≡ some v
unfolding get_field set_field
get_field-set_field k v end = rw (eq_refl k) refl
get_field-set_field k v (field j w fs) = elim (Bool-cases (j == k)) [
  | inl e ↦ rw e (rw e refl)
  | inr e ↦ rw e (rw e (get_field-set_field k v fs))
]

count-add_item : (x : Json) (xs : Items) → count_items (add_item x xs) ≡ suc (count_items xs)
unfolding add_item
count-add_item x nil = refl
count-add_item x (cons y ys) = ap suc (count-add_item x ys)

count-last_items : (n : ℕ) (xs : Items) → count_items (last_items n xs) ≡ min n (count_items xs)
unfolding last_items
count-last_items n nil = ground arith
count-last_items n (cons x xs) = elim (Bool-cases (leb (suc (count_items xs)) n)) [
  | inl e ↦ rw e (ground (arith, leb→le (suc (count_items xs)) n e))
  | inr e ↦ rw e (ground (arith, leb→lt (suc (count_items xs)) n e, count-last_items n xs))
]

get_field-set_field_other :
    (j k : String) (v : Json) (fs : Fields)
    → (k == j) ≡ false
    → get_field j (set_field k v fs) ≡ get_field j fs
unfolding get_field set_field
get_field-set_field_other j k v end ne = rw ne refl
get_field-set_field_other j k v (field i w fs) ne = elim (Bool-cases (i == k)) [
  | inl e ↦ rw e (
      let q : (i == j) ≡ false = ground (arith, eq_iff i k, eq_iff i j, eq_iff k j, e, ne) in
      rw q refl)
  | inr e ↦ rw e (elim (Bool-cases (i == j)) [
    | inl h ↦ rw h refl
    | inr h ↦ rw h (get_field-set_field_other j k v fs ne)
  ])
]

-- One list after another
abbrev pub append_items : Items → Items → Items
append_items nil ys = ys
append_items (cons x xs) ys = cons x (append_items xs ys)

add_item-append : (x : Json) (xs : Items) → add_item x xs ≡ append_items xs (cons x nil)
unfolding add_item
add_item-append x nil = refl
add_item-append x (cons y ys) = ap (cons y) (add_item-append x ys)

-- What `last_items` leaves out stands before what it keeps.
last_items-suffix :
    (n : ℕ) (xs : Items) → (dropped : Items) × (append_items dropped (last_items n xs) ≡ xs)
unfolding last_items
last_items-suffix n nil = (nil, refl)
last_items-suffix n (cons x xs) = elim (Bool-cases (leb (suc (count_items xs)) n)) [
  | inl e ↦ rw e (nil, refl)
  | inr e ↦ let (dropped, q) = last_items-suffix n xs in rw e (cons x dropped, ap (cons x) q)
]

-- The metadata that a result writes keep a history of at most eight results: the old history, in its order and
-- with this result added at its end, less the oldest ones beyond eight.
pub history_bounded :
    (n : Numbers) (run_id snapshot_id : String) (now : ℕ) (apply_status : Bool) (r : Verification)
    (applied : Bool) (metadata : Fields)
    → let old = items_of (get_field "verification_history" metadata) in
      (items : Items) × (get_field "verification_history"
          (verified_metadata n run_id snapshot_id now apply_status r applied metadata)
        ≡ some (array items))
      × (count_items items ≡ min 8 (suc (count_items old)))
      × ((dropped : Items) × (append_items dropped items
            ≡ append_items old (cons (history_json n run_id snapshot_id now apply_status r) nil)))
unfolding verified_metadata
history_bounded n run_id snapshot_id now apply_status r applied metadata =
    let same =
      get_field-set_field_other "verification_history" "verification"
        (verification_json n run_id snapshot_id now apply_status r applied) metadata refl in
    let x = history_json n run_id snapshot_id now apply_status r in
    let old = items_of (get_field "verification_history" metadata) in
    let added = add_item x old in
    rw same (
      last_items 8 added,
      get_field-set_field "verification_history" (array (last_items 8 added)) (
          set_field "verification"
            (verification_json n run_id snapshot_id now apply_status r applied) metadata),
      count-last_items 8 added ∙ ap (min 8) (count-add_item x old),
      (let (dropped, q) = last_items-suffix 8 added in (dropped, q ∙ add_item-append x old)),
    )
