-- ===== src/Verification/Results.antt =====
-- `record_results` of src/codememory/verification/store.py. Its batches of 500 rows are one transaction each;
-- they write what one loop over the results writes.
use code_sementic_memory.Common.{
  ℕ, suc, min, String, Bool, true, false, ◌&&◌, ◌||◌, not, Option, none, some, List, [], ◌∷◌, ◌==◌,
  if◌then◌else◌, find_where, update_where, upsert, take, leb, Json, null, boolean, number, string,
  array, object, Items, nil, cons, Fields, end, field,
}
use code_sementic_memory.Cards.Rows.{Binding}
use code_sementic_memory.Consolidation.Actions.{nonempty}
use code_sementic_memory.Verification.Evaluation.{
  Status, Verification, missing, rejected, renamed, stale, unverified, verified,
}
use code_sementic_memory.Verification.Runs.{Counts}

abbrev pub status_text : Status → String
status_text verified = "verified"
status_text missing = "missing"
status_text renamed = "renamed"
status_text stale = "stale"
status_text unverified = "unverified"
status_text rejected = "rejected"

abbrev pub is_unverified : Status → Bool
is_unverified unverified = true
is_unverified _ = false

-- A row of binding_verifications
pub record Check : Type 0 where
  pub run_id : String
  pub snapshot_id : String
  pub result : Verification
  pub applied : Bool
  pub checked_at : ℕ

-- `metadata[name] = value` on a dict: a key keeps its place.
unfoldable pub set_field : String → Json → Fields → Fields
set_field k v end = field k v end
set_field k v (field j w fs) = if j == k then field j v fs else field j w (set_field k v fs)

unfoldable pub get_field : String → Fields → Option Json
get_field k end = none
get_field k (field j w fs) = if j == k then some w else get_field k fs

-- `list(metadata.get(...) or [])`, where the value is a list or missing
abbrev pub items_of : Option Json → Items
items_of (some (array xs)) = xs
items_of _ = nil

unfoldable pub add_item : Json → Items → Items
add_item x nil = cons x nil
add_item x (cons y ys) = cons y (add_item x ys)

abbrev pub count_items : Items → ℕ
count_items nil = 0
count_items (cons x xs) = suc (count_items xs)

-- `history[-n:]`: the first ones are dropped while there are more than `n`.
unfoldable pub last_items : ℕ → Items → Items
last_items n nil = nil
last_items n (cons x xs) =
    let rest = last_items n xs in if leb (suc (count_items xs)) n then cons x xs else rest

-- The texts of numbers and times in JSON
pub record Numbers : Type 0 where
  pub score_text : ℕ → String
  pub time_text : ℕ → String

abbrev pub opt_string : Option String → Json
opt_string none = null
opt_string (some s) = string s

unfoldable pub texts : List String → Items
texts [] = nil
texts (x ∷ xs) = cons (string x) (texts xs)

-- `apply_status and (status != "unverified" or old_status == "unverified")`; the status of a row is not empty.
unfoldable pub is_applied : Bool → Status → String → Bool
is_applied apply_status status old_status =
    apply_status && (not (is_unverified status) || old_status == "unverified")

unfoldable pub same_check : Check → Check → Bool
same_check a b = b.run_id == a.run_id && b.result.binding_id == a.result.binding_id

unfoldable pub rewrite_check : Check → Check → Check
rewrite_check new old = new

abbrev pub no_results : Counts
no_results = record {
  applied = 0;
  skipped = 0;
  verified = 0;
  missing = 0;
  renamed = 0;
  stale = 0;
  unverified = 0;
  rejected = 0;
}

abbrev pub count_applied : Bool → Counts → Counts
count_applied true n = record n { applied = suc n.applied }
count_applied false n = record n { skipped = suc n.skipped }

abbrev pub count_status : Status → Counts → Counts
count_status verified n = record n { verified = suc n.verified }
count_status missing n = record n { missing = suc n.missing }
count_status renamed n = record n { renamed = suc n.renamed }
count_status stale n = record n { stale = suc n.stale }
count_status unverified n = record n { unverified = suc n.unverified }
count_status rejected n = record n { rejected = suc n.rejected }

pub record ResultDb : Type 0 where
  pub bindings : List Binding
  pub checks : List Check

unfoldable pub has_binding : String → Binding → Bool
has_binding id b = b.binding_id == id

module _ (n : Numbers) (run_id snapshot_id : String) (now : ℕ) (apply_status : Bool) where
  unfoldable pub verification_json : Verification → Bool → Json
  verification_json r applied = object (
      field "status" (string (status_text r.status)) (
        field "score" (number (n.score_text (min 100 r.score))) (
          field "run_id" (string run_id) (
            field "snapshot_id" (string snapshot_id) (
              field "resolved_path" (opt_string r.resolved_path) (
                field "resolved_symbol" (opt_string r.resolved_symbol) (
                  field "reasons" (array (texts (take 20 (nonempty r.reasons)))) (
                    field "checked_at" (string (n.time_text now))
                      (field "applied" (boolean applied) end)))))))))

  unfoldable pub history_json : Verification → Json
  history_json r = object (
      field "run_id" (string run_id) (
        field "status" (string (status_text r.status)) (
          field "score" (number (n.score_text (min 100 r.score)))
            (field "checked_at" (string (n.time_text now)) end))))

  -- The metadata with the verification and its last eight results
  unfoldable pub verified_metadata : Verification → Bool → Fields → Fields
  verified_metadata r applied metadata =
      let m = set_field "verification" (verification_json r applied) metadata in
      set_field "verification_history"
        (array (
          last_items 8 (add_item (history_json r) (items_of (get_field "verification_history" m)))))
        m

  unfoldable pub check_row : Verification → Bool → Check
  check_row r applied = record {
    run_id = run_id;
    snapshot_id = snapshot_id;
    result = record r { score = min 100 r.score; reasons = nonempty r.reasons };
    applied = applied;
    checked_at = now;
  }

  -- The UPDATE of the binding; `current` is the binding as it was read before the run.
  unfoldable pub set_verified : Verification → Binding → Binding → Binding
  set_verified r current b = record b {
    status = status_text r.status;
    snapshot_id = some snapshot_id;
    metadata = verified_metadata r true current.metadata;
    updated_at = now;
  }

  unfoldable pub record_binding : Verification → Binding → Bool → ResultDb → ResultDb
  record_binding r current applied db = record {
    checks =
        upsert (same_check (check_row r applied)) (rewrite_check (check_row r applied))
          (check_row r applied) db.checks;
    bindings =
        if applied
        then update_where (has_binding r.binding_id) (set_verified r current) db.bindings
        else db.bindings;
  }

  -- One result; a result for no binding of the run is passed over.
  unfoldable pub record_result :
      Verification → Option Binding → Counts → ResultDb → Counts × ResultDb
  record_result r none k db = (k, db)
  record_result r (some current) k db =
      let applied = is_applied apply_status r.status current.status in
      (count_status r.status (count_applied applied k), record_binding r current applied db)

  -- `by_id.get(binding_id)` for an id that is not empty
  unfoldable pub find_binding : List Binding → String → Option Binding
  find_binding bindings id = if id == "" then none else find_where (has_binding id) bindings

  -- `record_results`
  unfoldable pub record_results :
      List Binding → List Verification → Counts → ResultDb → Counts × ResultDb
  record_results bindings [] k db = (k, db)
  record_results bindings (r ∷ rs) k db =
      let one = record_result r (find_binding bindings r.binding_id) k db in
      record_results bindings rs one.0 one.1
