-- ===== src/Verification/Manifests.antt =====
-- The snapshots of src/codememory/verification/models.py: `SnapshotFile`, `SnapshotSymbol`,
-- `SnapshotManifest` with its checks and `coverage`. Provider payloads are parsed already.
use code_sementic_memory.Common.{
  ℕ, String, Bool, true, false, ◌||◌, Option, none, some, List, [], ◌∷◌, ◌==◌, if◌then◌else◌, elem,
  Result, ok, err,
}

pub record SnapshotFile : Type 0 where
  pub path : String
  pub exists : Bool
  pub head_rev : Option String
  pub have_rev : Option String
  pub head_change : Option String
  pub head_time : Option String
  pub source_provider : Option String

pub record SnapshotSymbol : Type 0 where
  pub name : String
  pub qualified_name : Option String
  pub file_path : Option String
  pub kind : Option String
  pub exists : Bool
  pub source_provider : Option String

pub data SnapshotStatus : Type 0 where
  ready partial unavailable failed : SnapshotStatus

-- `coverage` and `symbol_coverage` are those of the metadata; none is a metadata value that is missing or empty.
pub record Manifest : Type 0 where
  pub provider : String
  pub project : String
  pub root_path : Option String
  pub revision : Option String
  pub source_ref : Option String
  pub status : SnapshotStatus
  pub files : List SnapshotFile
  pub symbols : List SnapshotSymbol
  pub coverage : Option String
  pub symbol_coverage : Option String
  pub captured_at : ℕ

pub data ManifestError : Type 0 where
  unsupported_provider unsupported_status : ManifestError

-- The functions on texts: `str.casefold`, `normalize_repo_path` below the roots, `normalize_symbol`,
-- `rsplit(".", 1)[-1]`, and the hash of a manifest's content
pub record Texts : Type 0 where
  pub casefold : String → String
  pub strip : String → String
  pub repo_path : List String → String → String
  pub normalize_symbol : String → String
  pub last_name : String → String
  pub manifest_hash : Manifest → String

abbrev pub providers : List String
providers = "p4" ∷ "codebase_memory" ∷ "filesystem" ∷ "composite" ∷ []

unfoldable pub parse_snapshot_status : String → Option SnapshotStatus
parse_snapshot_status s =
    if s == "" || s == "ready"
    then some ready
    else if s == "partial"
    then some partial
    else if s == "unavailable"
    then some unavailable
    else if s == "failed"
    then some failed
    else none

-- A ready manifest that holds nothing is partial.
unfoldable pub weakened : SnapshotStatus → List SnapshotFile → List SnapshotSymbol → SnapshotStatus
weakened ready [] [] = partial
weakened s files symbols = s

abbrev pub opt_texts : Option String → List String
opt_texts none = []
opt_texts (some s) = s ∷ []

-- `{item.status for item in rows}`, as the tests of `merge` read it
abbrev pub is_ready : SnapshotStatus → Bool
is_ready ready = true
is_ready _ = false

abbrev pub is_partial : SnapshotStatus → Bool
is_partial partial = true
is_partial _ = false

abbrev pub is_failed : SnapshotStatus → Bool
is_failed failed = true
is_failed _ = false

abbrev pub text_of : Option String → String
text_of none = ""
text_of (some s) = s

-- `a or b` on an optional text
abbrev pub or_text : Option String → String → String
or_text none b = b
or_text (some s) b = if s == "" then b else s

abbrev pub none_if_empty : String → Option String
none_if_empty s = if s == "" then none else some s

module _ (t : Texts) where
  -- `__post_init__`; an empty status counts as ready.
  unfoldable pub new_manifest : Manifest → String → Result ManifestError Manifest
  new_manifest m status =
      let provider = t.casefold (t.strip m.provider) in
      if elem provider providers
      then elim (parse_snapshot_status (t.casefold (t.strip status))) [
        | none ↦ err unsupported_status
        | some s ↦ ok (record m { provider = provider; status = weakened s m.files m.symbols })
      ]
      else err unsupported_provider

  -- `coverage`
  unfoldable pub coverage : Manifest → String
  coverage m = t.casefold (or_text m.coverage "complete")
