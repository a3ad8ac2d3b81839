-- ===== src/Cards/Tables.antt =====
-- `insert_card`, `append_version`, `add_evidence`, `add_bindings`, `add_link`, `record_decision` and
-- `_unique_strings`. A version id is the pair of its card and number, whose text is `card_id:vN`. A
-- confidence is a number of equal parts of 1; a negative one acts as 0. The rows referred to exist.
use code_sementic_memory.Common.{
  ℕ, suc, min, String, Bool, ◌||◌, Option, none, some, List, [], ◌∷◌, ◌++◌, ◌==◌, is_some, truthy,
  coalesce, if◌then◌else◌, elem, find_where, Result, ok, err, Fields, end,
}
use code_sementic_memory.Cards.Rows.{
  Binding, BindingInput, CardCodec, CardDb, CardVersion, Evidence, Link, StoreError, VersionId,
  binding_statuses, integrity_error, named_target, same_binding, same_evidence, same_link,
  target_types, unsupported_target,
}

-- INSERT OR IGNORE, by the primary key
unfoldable pub insert_or_ignore {ℓ} : {A : Type ℓ} → (A → Bool) → A → List A → List A
insert_or_ignore clash x t = if is_some (find_where clash t) then t else t ++ x ∷ []

unfoldable pub write_link : Link → CardDb → CardDb
write_link l db = record db { links = insert_or_ignore (same_link l) l db.links }

-- `dict.fromkeys(item for item in event_ids if item)`, after the keys of `seen`
unfoldable pub event_keys : List String → List String → List String
event_keys seen [] = []
event_keys seen (x ∷ xs) =
    let rest = event_keys (x ∷ seen) xs in if x == "" || elem x seen then rest else x ∷ rest

-- The loop of `add_evidence`, from the event numbered `ordinal`
unfoldable pub evidence_loop : ℕ → VersionId → String → String → ℕ → List String → CardDb → CardDb
evidence_loop now v candidate_id relation ordinal [] db = db
evidence_loop now v candidate_id relation ordinal (x ∷ xs) db =
    let row : Evidence = record {
      version = v;
      candidate_id = candidate_id;
      event_id = x;
      relation_type = relation;
      ordinal = ordinal;
    } in
    evidence_loop now v candidate_id relation (suc ordinal) xs (
      write_link
        (record {
          version = v;
          target = named_target "event" x;
          relation_type = relation;
          metadata = end;
          created_at = now;
        })
        (record db { evidence = insert_or_ignore (same_evidence row) row db.evidence }))

unfoldable pub add_evidence : ℕ → VersionId → String → List String → String → CardDb → CardDb
add_evidence now v candidate_id event_ids relation db =
    write_link
      (record {
        version = v;
        target = named_target "candidate" candidate_id;
        relation_type = "derived_from";
        metadata = end;
        created_at = now;
      })
      (evidence_loop now v candidate_id relation 0 (event_keys [] event_ids) db)

-- `add_link`
unfoldable pub add_link :
    ℕ → VersionId → String → String → String → Fields → CardDb → Result StoreError CardDb
add_link now v target_type target_id relation metadata db =
    if elem target_type target_types
    then ok (
        write_link
          (record {
            version = v;
            target = named_target target_type target_id;
            relation_type = relation;
            metadata = metadata;
            created_at = now;
          })
          db)
    else err unsupported_target

-- `str(x or "") or None`
unfoldable pub or_none : Option String → Option String
or_none o = if truthy o then o else none

-- `str(x or default)`
unfoldable pub or_default : Option String → String → String
or_default none d = d
or_default (some s) d = if s == "" then d else s

-- `evidence or evidence_event_ids or []`
unfoldable pub binding_evidence : List String → List String → List String
binding_evidence [] event_ids = event_ids
binding_evidence (x ∷ xs) event_ids = x ∷ xs

abbrev pub target_kind : Option String → String
target_kind none = "symbol"
target_kind (some path) = "file"

-- The link of a binding, where it names anything
unfoldable pub link_target :
    ℕ → VersionId → String → Option String → Option String → CardDb → CardDb
link_target now v role path none db = db
link_target now v role path (some id) db =
    write_link
      (record {
        version = v;
        target = named_target (target_kind path) id;
        relation_type = role;
        metadata = end;
        created_at = now;
      })
      db

-- `none` is an IntegrityError.
unfoldable pub insert_unless {ℓ} : {A : Type ℓ} → Option A → A → List A → Result StoreError (List A)
insert_unless (some clash) x t = err integrity_error
insert_unless none x t = ok (t ++ x ∷ [])

abbrev pub close_version : ℕ → CardVersion → CardVersion
close_version now v = record v { valid_until = coalesce v.valid_until (some now) }

module _ (c : CardCodec) where
  -- `_unique_strings`, after the results in `seen`
  unfoldable pub unique_strings : List String → List String → List String
  unique_strings seen [] = []
  unique_strings seen (x ∷ xs) =
      let t = c.strip x in
      let rest = unique_strings (t ∷ seen) xs in if t == "" || elem t seen then rest else t ∷ rest

  -- `normalized_target`
  unfoldable pub normalized_target : BindingInput → String
  normalized_target b = c.fold (
      c.strip (
        or_default
          (coalesce (or_none b.path) (coalesce (or_none b.qualified_symbol) (or_none b.symbol)))
          ""))

  unfoldable pub binding_status : BindingInput → String
  binding_status b =
      let status = or_default b.status "unverified" in
      if elem status binding_statuses then status else "unverified"

  unfoldable pub binding_row : ℕ → VersionId → BindingInput → Binding
  binding_row now v b = record {
    binding_id =
        c.short_id "binding"
          (c.version_text v ∷ or_default b.role "supporting_symbol" ∷ normalized_target b ∷ []);
    version = v;
    role = or_default b.role "supporting_symbol";
    path = or_none b.path;
    symbol = or_none b.symbol;
    qualified_symbol = or_none b.qualified_symbol;
    normalized_target = normalized_target b;
    status = binding_status b;
    snapshot_id = b.snapshot_id;
    evidence = unique_strings [] (binding_evidence b.evidence b.evidence_event_ids);
    metadata = b.metadata;
    created_at = now;
    updated_at = now;
  }

  unfoldable pub add_binding : ℕ → VersionId → BindingInput → CardDb → CardDb
  add_binding now v b db =
      if normalized_target b == ""
      then db
      else let row = binding_row now v b in
        link_target now v row.role row.path
          (coalesce row.path (coalesce row.qualified_symbol row.symbol))
          (record db { bindings = insert_or_ignore (same_binding row) row db.bindings })

  unfoldable pub add_bindings : ℕ → VersionId → List BindingInput → CardDb → CardDb
  add_bindings now v [] db = db
  add_bindings now v (b ∷ bs) db = add_bindings now v bs (add_binding now v b db)

  -- max(0.0, min(1.0, confidence))
  unfoldable pub clamp : ℕ → ℕ
  clamp confidence = min c.one confidence
