-- ===== src/Verification/Index.antt =====
-- What the lookups of an index find, against the entries of its manifest.
use code_sementic_memory.Common.{
  ◌≡◌, refl, sym, subst, ◌∙◌, String, Bool, true, false, false≢true, ◌&&◌, ◌||◌, Option, none, some,
  List, [], ◌∷◌, ◌==◌, arith, if◌then◌else◌, inl, inr, Bool-cases, All, coalesce, length, map,
  filter_where, find_where, elem, truthy, ==-eq,
}
use code_sementic_memory.Verification.Manifests.{
  Manifest, SnapshotFile, SnapshotSymbol, Texts, text_of,
}
use code_sementic_memory.Verification.Lookup.{
  distinct, exact_match, file_exists, files_at, first_of, has_path, is_unique, lookup_path,
  lookup_symbol, matched, path_found, path_key, roots, short, short_at, short_match, symbol_exists,
  symbol_key, symbol_paths, symbols_at,
}

-- Whether any file of the manifest has the path and exists
abbrev pub any_file : (SnapshotFile → Bool) → List SnapshotFile → Bool
any_file p [] = false
any_file p (f ∷ fs) = p f || any_file p fs

-- The first entry that exists, else the first
abbrev pub best_entry : (SnapshotFile → Bool) → List SnapshotFile → Option SnapshotFile
best_entry p fs = coalesce (find_where p fs) (first_of fs)

abbrev entry_found : Option SnapshotFile → Bool
entry_found o = elim o [ none ↦ false | some f ↦ f.exists ]

behind :
    (f : SnapshotFile)
    → f.exists ≡ false
    → (fs : List SnapshotFile)
    → entry_found (coalesce (find_where (λ g. g.exists) fs) (some f)) ≡ any_file (λ g. g.exists) fs
unfolding find_where
behind f e [] = e
behind f e (g ∷ gs) = elim (Bool-cases g.exists) [
  | inl h ↦ rw h refl
  | inr h ↦ rw h (behind f e gs)
]

any_file-found :
    (t : Texts) (m : Manifest) (fs : List SnapshotFile)
    → entry_found (best_entry (file_exists t m) fs) ≡ any_file (λ f. f.exists) fs
unfolding find_where file_exists
any_file-found t m [] = refl
any_file-found t m (f ∷ fs) = elim (Bool-cases f.exists) [
  | inl e ↦ rw e refl
  | inr e ↦
      subst
        (λ (b : Bool).
          entry_found (coalesce (if b then some f else find_where (λ g. g.exists) fs) (some f))
          ≡ (b || any_file (λ g. g.exists) fs))
        (sym e) (behind f e fs)
]

module _ (t : Texts) (m : Manifest) where
  any_file-filter :
      (p : SnapshotFile → Bool) (fs : List SnapshotFile)
      → any_file (λ f. f.exists) (filter_where p fs) ≡ any_file (λ f. p f && f.exists) fs
  unfolding filter_where
  any_file-filter p [] = refl
  any_file-filter p (f ∷ fs) = elim (Bool-cases (p f)) [
    | inl e ↦ rw e (rw (any_file-filter p fs) refl)
    | inr e ↦ rw e (any_file-filter p fs)
  ]

  -- A path is found exactly when it is not empty once it is normalized and a file of the manifest with the same
  -- path key exists; a tombstone beside it does not hide it.
  pub lookup_path-found :
      (value : String)
      → path_found (lookup_path t m value) ≡ (
          if t.repo_path (roots t m) value == ""
          then false
          else any_file
              (λ f. path_key t m f.path == t.casefold (t.repo_path (roots t m) value) && f.exists)
              m.files)
  unfolding lookup_path files_at has_path
  lookup_path-found value = elim (Bool-cases (t.repo_path (roots t m) value == "")) [
    | inl e ↦ rw e (any_file-found t m [])
    | inr e ↦ rw e (any_file-found t m _ ∙ any_file-filter _ m.files)
  ]

elem-All : (P : String → Type 0) (x : String) (ys : List String) → elem x ys ≡ true → All P ys → P x
unfolding elem
elem-All P x [] h a = absurd (false≢true h)
elem-All P x (y ∷ ys) h a = elim (Bool-cases (x == y)) [
  | inl e ↦ rw (==-eq x y e) a.0
  | inr e ↦ elem-All P x ys (rw e at h) a.1
]

distinct-All : (P : String → Type 0) (xs : List String) → All P (distinct xs) → All P xs
unfolding distinct
distinct-All P [] a = tt
distinct-All P (x ∷ xs) a = elim (Bool-cases (elem x (distinct xs))) [
  | inl e ↦
      let rest : All P (distinct xs) = rw e at a in
      (elem-All P x (distinct xs) e rest, distinct-All P xs rest)
  | inr e ↦ let both = rw e at a in (both.0, distinct-All P xs both.1)
]

-- A list of one distinct text
one_text : (xs : List String) → length (distinct xs) ≡ 1 → (p : String) × All (λ x. x ≡ p) xs
one_text xs h = pick (distinct xs) h (λ p a. distinct-All (λ x. x ≡ p) xs a)
  where
    pick :
        (ys : List String)
        → length ys ≡ 1
        → ((p : String) → All (λ x. x ≡ p) ys → All (λ x. x ≡ p) xs)
        → (p : String) × All (λ x. x ≡ p) xs
    pick [] e k = absurd (omega (arith, e))
    pick (y ∷ []) e k = (y, k y (refl, tt))
    pick (y ∷ z ∷ ys) e k = absurd (omega (arith, e))

module _ (t : Texts) (m : Manifest) where
  -- All entries, as far as they have a path, are in one file.
  abbrev pub OneFile : List SnapshotSymbol → Type 0
  OneFile ss =
      (p : String) × All (λ s. truthy s.file_path ≡ true → path_key t m (text_of s.file_path) ≡ p)
        ss

  with_paths :
      (p : String) (ss : List SnapshotSymbol)
      → All
          (λ x. x ≡ p)
          (map
            (λ s. path_key t m (text_of s.file_path))
            (filter_where (λ s. truthy s.file_path) ss))
      → All (λ s. truthy s.file_path ≡ true → path_key t m (text_of s.file_path) ≡ p) ss
  unfolding filter_where
  with_paths p [] a = tt
  with_paths p (s ∷ ss) a = elim (Bool-cases (truthy s.file_path)) [
    | inl e ↦ let both = rw e at a in ((λ h. both.0), with_paths p ss both.1)
    | inr e ↦ ((λ h. absurd (false≢true (sym e ∙ h))), with_paths p ss (rw e at a))
  ]

  is_unique-OneFile : (ss : List SnapshotSymbol) → is_unique t m ss ≡ true → OneFile ss
  unfolding is_unique symbol_paths
  is_unique-OneFile [] h = ("", tt)
  is_unique-OneFile (s ∷ []) h = (path_key t m (text_of s.file_path), ((λ e. refl), tt))
  is_unique-OneFile (s ∷ r ∷ ss) h =
      let keys =
        map (λ x. path_key t m (text_of x.file_path))
          (filter_where (λ x. truthy x.file_path) (s ∷ r ∷ ss)) in
      let (p, a) = one_text keys (ground (arith, h)) in (p, with_paths p (s ∷ r ∷ ss) a)

  -- The existing entries under the short name of a request
  abbrev pub named_entries : Option String → Option String → List SnapshotSymbol
  named_entries value qualified_value =
      let requested_qualified = t.normalize_symbol (text_of qualified_value) in
      let requested = t.normalize_symbol (text_of value) in
      let short_name = t.last_name (if requested == "" then requested_qualified else requested) in
      filter_where (symbol_exists t m)
        (if short_name == "" then [] else short_at t m (symbol_key t m short_name))

  -- A symbol that is found by its short name is the first existing entry under that name, and all existing
  -- entries under it that give a path are in one file. Several entries in that file, and entries without a
  -- path, which are not compared, do not make the short name ambiguous.
  pub lookup_symbol-unambiguous :
      (value qualified_value : Option String)
      → (lookup_symbol t m value qualified_value).match_type ≡ short
      → ((lookup_symbol t m value qualified_value).entry
          ≡ first_of (named_entries value qualified_value))
        × OneFile (named_entries value qualified_value)
  unfolding lookup_symbol matched exact_match short_match
  lookup_symbol-unambiguous value qualified_value h =
      by_exact _ (symbols_at t m _) (named_entries value qualified_value) h
    where
      by_exact :
          (name : String) (exact existing : List SnapshotSymbol)
          → (matched t m name exact (short_match t m name existing)).match_type ≡ short
          → ((matched t m name exact (short_match t m name existing)).entry ≡ first_of existing)
            × OneFile existing
      by_exact name (s ∷ ss) existing k = ground (arith, k)
      by_exact name [] existing k = elim (Bool-cases (is_unique t m existing)) [
        | inl e ↦ rw e (refl, is_unique-OneFile existing e)
        | inr e ↦ ground (arith, rw e at k)
      ]
