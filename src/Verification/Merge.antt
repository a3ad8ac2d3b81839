-- ===== src/Verification/Merge.antt =====
-- `merge` of src/codememory/verification/models.py.
use code_sementic_memory.Common.{
  ℕ, String, Bool, false, ◌&&◌, ◌||◌, Option, none, some, List, [], ◌∷◌, ◌++◌, ◌==◌, if◌then◌else◌,
  map, elem, find_where, join, truthy, is_some,
}
use code_sementic_memory.Consolidation.Scores.{sorted, text_lt}
use code_sementic_memory.Verification.Manifests.{
  Manifest, SnapshotFile, SnapshotStatus, SnapshotSymbol, Texts, failed, is_failed, is_partial,
  is_ready, none_if_empty, opt_texts, or_text, partial, ready, text_of, unavailable, weakened,
}

unfoldable pub any_status : (SnapshotStatus → Bool) → List Manifest → Bool
any_status p [] = false
any_status p (m ∷ ms) = p m.status || any_status p ms

unfoldable pub merged_status : List Manifest → SnapshotStatus
merged_status ms =
    if any_status is_ready ms
    then ready
    else if any_status is_partial ms
    then partial
    else if any_status is_failed ms
    then failed
    else unavailable

-- `setdefault` of a file under its path, and of a symbol under its name and path
unfoldable pub add_file : SnapshotFile → List SnapshotFile → List SnapshotFile
add_file f files =
    if f.path == "" || is_some (find_where (λ g. g.path == f.path) files)
    then files
    else files ++ f ∷ []

unfoldable pub same_symbol : SnapshotSymbol → SnapshotSymbol → Bool
same_symbol a b =
    or_text a.qualified_name a.name == or_text b.qualified_name b.name
    && text_of a.file_path == text_of b.file_path

unfoldable pub add_symbol : SnapshotSymbol → List SnapshotSymbol → List SnapshotSymbol
add_symbol s symbols =
    if is_some (find_where (same_symbol s) symbols) then symbols else symbols ++ s ∷ []

-- The distinct revisions, joined
unfoldable pub join_all : String → List String → String
unfolding join
join_all sep [] = ""
join_all sep (x ∷ []) = x
join_all sep (x ∷ y ∷ rest) = join x (join sep (join_all sep (y ∷ rest)))

unfoldable pub revisions : List String → List Manifest → List String
revisions seen [] = []
revisions seen (m ∷ ms) =
    let r = text_of m.revision in
    let rest = revisions (r ∷ seen) ms in if r == "" || elem r seen then rest else r ∷ rest

unfoldable pub first_root : List Manifest → Option String
first_root [] = none
first_root (m ∷ ms) = let rest = first_root ms in if truthy m.root_path then m.root_path else rest

module _ (t : Texts) where
  -- One file of a manifest that is merged
  unfoldable pub canonical_file : Manifest → SnapshotFile → SnapshotFile
  canonical_file m f = record f {
    path = t.repo_path (opt_texts m.root_path) f.path;
    source_provider = some m.provider;
  }

  unfoldable pub canonical_path : Manifest → Option String → Option String
  canonical_path m none = none
  canonical_path m (some path) =
      if path == "" then none else some (t.repo_path (opt_texts m.root_path) path)

  unfoldable pub canonical_symbol : Manifest → SnapshotSymbol → SnapshotSymbol
  canonical_symbol m s = record s {
    file_path = canonical_path m s.file_path;
    source_provider = some m.provider;
  }

  unfoldable pub add_files : Manifest → List SnapshotFile → List SnapshotFile → List SnapshotFile
  add_files m [] files = files
  add_files m (f ∷ fs) files = add_files m fs (add_file (canonical_file m f) files)

  unfoldable pub add_symbols :
      Manifest → List SnapshotSymbol → List SnapshotSymbol → List SnapshotSymbol
  add_symbols m [] symbols = symbols
  add_symbols m (s ∷ ss) symbols = add_symbols m ss (add_symbol (canonical_symbol m s) symbols)

  unfoldable pub merge_files : List Manifest → List SnapshotFile → List SnapshotFile
  merge_files [] files = files
  merge_files (m ∷ ms) files = merge_files ms (add_files m m.files files)

  unfoldable pub merge_symbols : List Manifest → List SnapshotSymbol → List SnapshotSymbol
  merge_symbols [] symbols = symbols
  merge_symbols (m ∷ ms) symbols = merge_symbols ms (add_symbols m m.symbols symbols)

  -- The order by provider and hash
  unfoldable pub manifest_before : Manifest → Manifest → Bool
  manifest_before a b =
      text_lt a.provider b.provider
      || (a.provider == b.provider && text_lt (t.manifest_hash a) (t.manifest_hash b))

  -- `merge`, after its sort; the checks of the result weaken its status.
  unfoldable pub merge_sorted : ℕ → String → List Manifest → Manifest
  merge_sorted now project [] = record {
    provider = "composite";
    project = project;
    root_path = none;
    revision = none;
    source_ref = none;
    status = unavailable;
    files = [];
    symbols = [];
    coverage = none;
    symbol_coverage = none;
    captured_at = now;
  }
  merge_sorted now project (m ∷ ms) =
      let files = merge_files (m ∷ ms) [] in
      let symbols = merge_symbols (m ∷ ms) [] in
      record {
        provider = "composite";
        project = project;
        root_path = first_root (m ∷ ms);
        revision = none_if_empty (join_all "+" (revisions [] (m ∷ ms)));
        source_ref = some (join "composite:" (join_all "," (map (λ x. x.provider) (m ∷ ms))));
        status = weakened (merged_status (m ∷ ms)) files symbols;
        files = files;
        symbols = symbols;
        coverage = none;
        symbol_coverage = none;
        captured_at = now;
      }

  -- `merge`
  unfoldable pub merge : ℕ → String → List Manifest → Manifest
  merge now project ms = merge_sorted now project (sorted manifest_before ms)
