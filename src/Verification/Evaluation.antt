-- ===== src/Verification/Evaluation.antt =====
-- `_evaluate` of src/codememory/verification/service.py. A score is a number of hundredths. The evidence that is
-- only displayed is not part of the result.
use code_sementic_memory.Common.{
  ℕ, String, Bool, true, false, ◌&&◌, ◌||◌, not, Option, none, some, List, [], ◌∷◌, ◌==◌,
  if◌then◌else◌, ltb, elem,
}
use code_sementic_memory.Verification.Manifests.{
  SnapshotFile, SnapshotStatus, Texts, none_if_empty, or_text, partial, ready, text_of,
}
use code_sementic_memory.Verification.Lookup.{ProviderResult, Target, path_found, symbol_found}

pub data Status : Type 0 where
  verified missing renamed stale unverified rejected : Status

pub record Verification : Type 0 where
  pub binding_id : String
  pub status : Status
  pub score : ℕ
  pub resolved_path : Option String
  pub resolved_symbol : Option String
  pub reasons : List String

-- A binding to verify
pub record Subject : Type 0 where
  pub binding_id : String
  pub target : Target

-- The tests on the raw path: a `*` or `?` in it, or a prefix of a URL
pub record PathTests : Type 0 where
  pub has_wildcard : String → Bool
  pub has_url_prefix : String → Bool

-- Any of the results
unfoldable pub any_result : (ProviderResult → Bool) → List ProviderResult → Bool
any_result p [] = false
any_result p (r ∷ rs) = p r || any_result p rs

abbrev pub is_usable : SnapshotStatus → Bool
is_usable ready = true
is_usable partial = true
is_usable _ = false

abbrev pub symbol_coverages : List String
symbol_coverages = "complete" ∷ "full" ∷ "repository" ∷ "selected_file" ∷ "selected_files" ∷ []

unfoldable pub is_provider : String → ProviderResult → Bool
is_provider name r = r.provider == name

-- What `_evaluate` derives from the results of the providers
pub record Facts : Type 0 where
  pub has_path : Bool
  pub has_symbol : Bool
  pub available : Bool
  pub path_found : Bool
  pub symbol_found : Bool
  pub path_mismatch : Bool
  pub p4_stale : Bool
  pub p4_path_found : Bool
  pub cbm_path_found : Bool
  pub cbm_symbol_found : Bool
  pub symbol_index_available : Bool
  pub absence_authoritative : Bool
  pub any_partial : Bool

pub record Judgement : Type 0 where
  pub status : Status
  pub score : ℕ
  pub reason : String

abbrev pub judge : Status → ℕ → String → Judgement
judge s n r = record { status = s; score = n; reason = r }

-- The three branches of the decision
unfoldable pub judge_both : Facts → Judgement
judge_both f =
    if f.symbol_found
    then if f.path_mismatch
      then judge renamed 72 "symbol resolves to a different current file"
      else if f.p4_stale
      then judge stale 62 "P4 haveRev differs from headRev for the bound file"
      else judge verified (if f.p4_path_found || f.cbm_path_found then 100 else 86)
          "requested path and symbol resolve in the snapshot"
    else if f.path_found && (f.symbol_index_available || f.p4_stale)
    then judge stale 58 "file exists but the requested symbol is absent from the index"
    else if f.path_found
    then judge unverified 20
        "file exists, but the supplied snapshot has no authoritative symbol index"
    else if f.absence_authoritative
    then judge missing 0 "neither requested path nor symbol exists in the snapshot"
    else judge unverified 20 "bounded snapshot does not contain the requested path or symbol"

unfoldable pub judge_path : Facts → Judgement
judge_path f =
    if f.path_found
    then if f.p4_stale
      then judge stale 62 "P4 workspace is behind the head revision"
      else judge verified (if f.p4_path_found then 100 else 86)
          "requested file exists in the snapshot"
    else if f.absence_authoritative
    then judge missing 0 "requested file is absent from the snapshot"
    else judge unverified 20 "bounded snapshot does not cover the requested file"

unfoldable pub judge_symbol : Facts → Judgement
judge_symbol f =
    if f.symbol_found
    then if f.p4_stale
      then judge stale 62 "symbol exists but its P4 workspace revision is stale"
      else judge verified (if f.cbm_symbol_found then 100 else 82)
          "requested symbol resolves in the snapshot"
    else if f.absence_authoritative && f.symbol_index_available
    then judge missing 0 "requested symbol is absent from the snapshot"
    else judge unverified 20 "bounded snapshot does not cover the requested symbol"

unfoldable pub judge_available : Facts → Judgement
judge_available f =
    if f.has_path && f.has_symbol
    then judge_both f
    else if f.has_path
    then judge_path f
    else judge_symbol f

abbrev pub partial_reason : Bool → List String
partial_reason true = "one or more provider manifests are partial; result remains auditable" ∷ []
partial_reason false = []

unfoldable pub concluded : String → Facts → Judgement → Option String → Option String → Verification
concluded id f j path symbol = record {
  binding_id = id;
  status = j.status;
  score = j.score;
  resolved_path = path;
  resolved_symbol = symbol;
  reasons = j.reason ∷ partial_reason f.any_partial;
}

unfoldable pub unavailable_result : String → Option String → Option String → Verification
unavailable_result id path symbol = record {
  binding_id = id;
  status = unverified;
  score = 20;
  resolved_path = path;
  resolved_symbol = symbol;
  reasons = "no ready or partial provider snapshot was available" ∷ [];
}

unfoldable pub rejected_result : String → Verification
rejected_result id = record {
  binding_id = id;
  status = rejected;
  score = 0;
  resolved_path = none;
  resolved_symbol = none;
  reasons = "binding has no concrete path/symbol or contains a non-source placeholder" ∷ [];
}

module _ (t : Texts) (k : PathTests) where
  abbrev pub stripped : Option String → String
  stripped o = t.strip (text_of o)

  abbrev pub is_nonempty : String → Bool
  is_nonempty s = not (s == "")

  -- The first test of `_evaluate`
  unfoldable pub is_placeholder : Target → Bool
  is_placeholder b =
      (not (is_nonempty (stripped b.path))
        && not (is_nonempty (stripped b.symbol) || is_nonempty (stripped b.qualified_symbol)))
      || (k.has_wildcard (stripped b.path) || k.has_url_prefix (t.casefold (stripped b.path)))

  -- `_p4_stale`
  unfoldable pub entry_stale : SnapshotFile → Bool
  entry_stale f =
      let head = t.strip (text_of f.head_rev) in
      let have = t.strip (text_of f.have_rev) in
      is_nonempty head && (is_nonempty have && not (head == have))

  unfoldable pub p4_stale_result : ProviderResult → Bool
  p4_stale_result r = elim r.path.entry [ none ↦ false | some f ↦ entry_stale f ]

  -- `resolved_path`: of the symbol's entry, else of the path's
  unfoldable pub resolved_symbol_path : ProviderResult → String
  resolved_symbol_path r = elim r.symbol.entry [
    | none ↦ ""
    | some s ↦ t.repo_path [] (text_of s.file_path)
  ]

  unfoldable pub resolved_entry_path : ProviderResult → String
  resolved_entry_path r = elim r.path.entry [ none ↦ "" | some f ↦ t.repo_path [] f.path ]

  unfoldable pub resolved_path_of : ProviderResult → String
  resolved_path_of r =
      let s = resolved_symbol_path r in if s == "" then resolved_entry_path r else s

  unfoldable pub resolved_symbol_of : ProviderResult → String
  resolved_symbol_of r = elim r.symbol.entry [
    | none ↦ ""
    | some s ↦ or_text s.qualified_name s.name
  ]

  abbrev pub path_key_of : String → String
  path_key_of s = t.casefold (t.repo_path [] s)

  unfoldable pub mismatched : Target → ProviderResult → Bool
  mismatched b r =
      let resolved = path_key_of (resolved_path_of r) in
      let requested = path_key_of (t.repo_path [] (stripped b.path)) in
      is_nonempty (stripped b.path)
      && (is_nonempty resolved && (is_nonempty requested && not (resolved == requested)))

  unfoldable pub facts : Target → List ProviderResult → ProviderResult → Bool → Facts
  facts b results composite absence_authoritative = record {
    has_path = is_nonempty (stripped b.path);
    has_symbol = is_nonempty (stripped b.symbol) || is_nonempty (stripped b.qualified_symbol);
    available = any_result (λ r. is_usable r.snapshot_status) results;
    path_found = path_found composite.path;
    symbol_found = symbol_found composite.symbol;
    path_mismatch = mismatched b composite;
    p4_stale = any_result (λ r. is_provider "p4" r && p4_stale_result r) results;
    p4_path_found = any_result (λ r. is_provider "p4" r && path_found r.path) results;
    cbm_path_found = any_result (λ r. is_provider "codebase_memory" r && path_found r.path) results;
    cbm_symbol_found =
        any_result (λ r. is_provider "codebase_memory" r && symbol_found r.symbol) results;
    symbol_index_available =
        any_result (λ r. ltb 0 r.symbol_count || elem r.symbol_coverage symbol_coverages) results;
    absence_authoritative = absence_authoritative;
    any_partial = any_result (λ r. elim r.snapshot_status [ partial ↦ true | _ ↦ false ]) results;
  }

  -- `_evaluate`, on what the providers and the composite resolve the binding to
  unfoldable pub evaluate : Subject → List ProviderResult → ProviderResult → Bool → Verification
  evaluate s results composite absence_authoritative =
      let f = facts s.target results composite absence_authoritative in
      let path = none_if_empty (resolved_path_of composite) in
      let symbol = none_if_empty (resolved_symbol_of composite) in
      if is_placeholder s.target
      then rejected_result s.binding_id
      else if f.available
      then concluded s.binding_id f (judge_available f) path symbol
      else unavailable_result s.binding_id path symbol
