-- ===== src/Verification/Lookup.antt =====
-- `ManifestIndex` of src/codememory/verification/providers.py: `lookup_path`, `lookup_symbol`, `resolve`. The
-- index is read as the list of the manifest's entries under a key, in their order.
use code_sementic_memory.Common.{
  ℕ, String, Bool, false, ◌&&◌, ◌||◌, not, Option, none, some, List, [], ◌∷◌, ◌==◌, if◌then◌else◌,
  eqb, length, map, filter_where, find_where, coalesce, truthy, elem,
}
use code_sementic_memory.Verification.Manifests.{
  Manifest, SnapshotFile, SnapshotStatus, SnapshotSymbol, Texts, opt_texts, or_text, text_of,
}

pub data MatchType : Type 0 where
  qualified short no_match : MatchType

pub record PathMatch : Type 0 where
  pub entry : Option SnapshotFile
  pub normalized_path : String

pub record SymbolMatch : Type 0 where
  pub entry : Option SnapshotSymbol
  pub normalized_symbol : String
  pub match_type : MatchType

-- `found` of the two
abbrev pub path_found : PathMatch → Bool
path_found m = elim m.entry [ none ↦ false | some f ↦ f.exists ]

abbrev pub symbol_found : SymbolMatch → Bool
symbol_found m = elim m.entry [ none ↦ false | some s ↦ s.exists ]

-- The path, symbol and qualified symbol of a binding
pub record Target : Type 0 where
  pub path : Option String
  pub symbol : Option String
  pub qualified_symbol : Option String

pub record ProviderResult : Type 0 where
  pub provider : String
  pub snapshot_status : SnapshotStatus
  pub symbol_count : ℕ
  pub symbol_coverage : String
  pub path : PathMatch
  pub symbol : SymbolMatch

abbrev pub no_path : PathMatch
no_path = record { entry = none; normalized_path = "" }

abbrev pub no_symbol : String → SymbolMatch
no_symbol s = record { entry = none; normalized_symbol = s; match_type = no_match }

abbrev pub first_of {ℓ} : {A : Type ℓ} → List A → Option A
first_of [] = none
first_of (x ∷ xs) = some x

unfoldable pub distinct : List String → List String
unfolding elem
distinct [] = []
distinct (x ∷ xs) = let rest = distinct xs in if elem x rest then rest else x ∷ rest

module _ (t : Texts) (m : Manifest) where
  unfoldable pub roots : List String
  roots = if truthy m.root_path then opt_texts m.root_path else []

  -- `path_key` and `symbol_key`
  unfoldable pub path_key : String → String
  path_key s = t.casefold (t.repo_path roots s)

  abbrev pub symbol_key : String → String
  symbol_key s = t.casefold (t.normalize_symbol s)

  unfoldable pub has_path : String → SnapshotFile → Bool
  has_path key f = path_key f.path == key

  unfoldable pub file_exists : SnapshotFile → Bool
  file_exists f = f.exists

  unfoldable pub symbol_exists : SnapshotSymbol → Bool
  symbol_exists s = s.exists

  -- `self.files.get(key, [])`
  unfoldable pub files_at : String → List SnapshotFile
  files_at key = filter_where (has_path key) m.files

  unfoldable pub lookup_path : String → PathMatch
  lookup_path value =
      let path = t.repo_path roots value in
      let candidates = if path == "" then [] else files_at (t.casefold path) in
      record {
        entry = coalesce (find_where file_exists candidates) (first_of candidates);
        normalized_path = path;
      }

  unfoldable pub has_symbol : String → SnapshotSymbol → Bool
  has_symbol key s = symbol_key (or_text s.qualified_name s.name) == key

  unfoldable pub has_short : String → SnapshotSymbol → Bool
  has_short key s = symbol_key (t.last_name s.name) == key

  unfoldable pub symbols_at : String → List SnapshotSymbol
  symbols_at key = if key == "" then [] else filter_where (has_symbol key) m.symbols

  unfoldable pub short_at : String → List SnapshotSymbol
  short_at key = if key == "" then [] else filter_where (has_short key) m.symbols

  unfoldable pub symbol_paths : List SnapshotSymbol → List String
  symbol_paths ss =
      distinct
        (map (λ s. path_key (text_of s.file_path)) (filter_where (λ s. truthy s.file_path) ss))

  -- A short name is safe where one entry, or one path, has it.
  unfoldable pub is_unique : List SnapshotSymbol → Bool
  is_unique existing =
      eqb (length existing) 1
      || (not (eqb (length existing) 0) && eqb (length (symbol_paths existing)) 1)

  unfoldable pub short_match : String → List SnapshotSymbol → SymbolMatch
  short_match name existing =
      if is_unique existing
      then record { entry = first_of existing; normalized_symbol = name; match_type = short }
      else no_symbol name

  unfoldable pub exact_match : String → List SnapshotSymbol → SymbolMatch
  exact_match name candidates = record {
    entry = coalesce (find_where symbol_exists candidates) (first_of candidates);
    normalized_symbol = name;
    match_type = qualified;
  }

  -- Whether anything has the exact name decides.
  unfoldable pub matched : String → List SnapshotSymbol → SymbolMatch → SymbolMatch
  matched name [] fallback = fallback
  matched name (s ∷ ss) fallback = exact_match name (s ∷ ss)

  unfoldable pub lookup_symbol : Option String → Option String → SymbolMatch
  lookup_symbol value qualified_value =
      let requested_qualified = t.normalize_symbol (text_of qualified_value) in
      let requested = t.normalize_symbol (text_of value) in
      let name = if requested_qualified == "" then requested else requested_qualified in
      let exact = symbols_at (symbol_key name) in
      let short_name = t.last_name (if requested == "" then requested_qualified else requested) in
      let existing =
        filter_where symbol_exists
          (if short_name == "" then [] else short_at (symbol_key short_name)) in
      matched name exact (short_match name existing)

  -- `resolve`
  unfoldable pub resolve : Target → ProviderResult
  resolve b = record {
    provider = m.provider;
    snapshot_status = m.status;
    symbol_count = length m.symbols;
    symbol_coverage = t.casefold (or_text m.symbol_coverage "none");
    path = if truthy b.path then lookup_path (text_of b.path) else no_path;
    symbol =
        if truthy b.symbol || truthy b.qualified_symbol
        then lookup_symbol b.symbol b.qualified_symbol
        else no_symbol "";
  }
