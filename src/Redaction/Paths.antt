-- ===== src/Redaction/Paths.antt =====
-- The paths that a redaction record lists.
use Prim.Native.Char.{Char}
use code_sementic_memory.Common.{
  ℕ, suc, ◌≡◌, refl, sym, ap, ◌∙◌, inl, inr, ◌≢◌, String, Option, ok, map, subst, Bool, true, false,
  false≢true, ◌||◌, ◌&&◌, not, List, [], ◌∷◌, ◌++◌, ◌==◌, Bool-cases, arith, All, All-imp, elem,
  join, eq_iff, Unique, Json, null, boolean, number, string, array, object, Items, nil, cons,
  Fields, end, field,
}
use code_sementic_memory.Redaction.Values.{
  Rules, redact_text, redact_string, redact_sensitive, choose_redacted, redact_value, redact_items,
  redact_fields, child_path, index_path, of_items, of_fields, add_item, add_field, changed_path,
}
use code_sementic_memory.Redaction.Events.{
  ArtifactParts, EventParts, artifact_path, redact_artifacts, redact_parts, listed_paths,
  is_changed, redact_event, redact_event-parts, new_keys,
}

abbrev is_empty {ℓ} : {A : Type ℓ} → List A → Bool
is_empty [] = true
is_empty (x ∷ xs) = false

-- Something is listed just when something changed.
abbrev Reported : Bool → List String → Type 0
Reported changed fields = is_empty fields ≡ not changed

Reported-append :
    (a b : Bool) (xs ys : List String)
    → Reported a xs
    → Reported b ys
    → Reported (a || b) (xs ++ ys)
Reported-append true b [] ys h k = ground (arith, h)
Reported-append true b (x ∷ xs) ys h k = refl
Reported-append false b [] ys h k = k
Reported-append false b (x ∷ xs) ys h k = ground (arith, h)

abbrev is_nil : String → Bool
is_nil String.[] = true
is_nil (String.◌∷◌ c s) = false

cons-nonempty : (c : Char) (s : String) → (String.◌∷◌ c s == "") ≡ false
cons-nonempty c s = elim (Bool-cases (String.◌∷◌ c s == "")) [
  | inl e ↦ absurd (false≢true (ap is_nil ((eq_iff (String.◌∷◌ c s) "").0 e)))
  | inr e ↦ e
]

join-nonempty : (s t : String) → (s == "") ≡ false → (join s t == "") ≡ false
unfolding join
join-nonempty String.[] t h = ground (arith, h)
join-nonempty (String.◌∷◌ c s) t h = cons-nonempty c (join s t)

child-nonempty : (path key : String) → (path == "") ≡ false → (child_path path key == "") ≡ false
unfolding child_path
child-nonempty path key h = rw h (join-nonempty path (join "." key) h)

module _ (r : Rules) where
  string-Reported :
      (path s : String)
      → (path == "") ≡ false
      → let y = redact_string r path s in Reported y.changed y.fields
  unfolding redact_string changed_path
  string-Reported path s h = elim (Bool-cases (redact_text r s).1) [
    | inl e ↦ rw (e, h) refl
    | inr e ↦ rw e refl
  ]

  index-nonempty :
      (path : String) (n : ℕ) → (path == "") ≡ false → (index_path r path n == "") ≡ false
  unfolding index_path
  index-nonempty path n h = join-nonempty path _ h

  chosen-Reported :
      (b : Bool) (path : String) (x : Json)
      → Reported (redact_value r path x).changed (redact_value r path x).fields
      → let y = choose_redacted r b (redact_sensitive r path x) (redact_value r path x) in
        Reported y.changed y.fields
  unfolding choose_redacted redact_sensitive
  chosen-Reported false path x h = h
  chosen-Reported true path (string s) h = refl
  chosen-Reported true path (array items) h = refl
  chosen-Reported true path (object fs) h = refl
  chosen-Reported true path (number n) h = h
  chosen-Reported true path (boolean b) h = h
  chosen-Reported true path null h = h

  mutual
    unfolding redact_value of_items of_fields add_item add_field

    value-Reported :
        (path : String) (x : Json)
        → (path == "") ≡ false
        → Reported (redact_value r path x).changed (redact_value r path x).fields
    value-Reported path (string s) h = string-Reported path s h
    value-Reported path (array items) h = items-Reported path 0 items h
    value-Reported path (object fs) h = fields-Reported path fs h
    value-Reported path (number n) h = refl
    value-Reported path (boolean b) h = refl
    value-Reported path null h = refl

    items-Reported :
        (path : String) (n : ℕ) (xs : Items)
        → (path == "") ≡ false
        → Reported (redact_items r path n xs).changed (redact_items r path n xs).fields
    items-Reported path n nil h = refl
    items-Reported path n (cons x xs) h =
        Reported-append _ _ (redact_value r (index_path r path n) x).fields _
          (value-Reported (index_path r path n) x (index-nonempty path n h))
          (items-Reported path (suc n) xs h)

    fields-Reported :
        (path : String) (fs : Fields)
        → (path == "") ≡ false
        → Reported (redact_fields r path fs).changed (redact_fields r path fs).fields
    fields-Reported path end h = refl
    fields-Reported path (field key x rest) h =
        Reported-append _ _
          (choose_redacted r (r.sensitive_key key) (redact_sensitive r (child_path path key) x)
            (redact_value r (child_path path key) x)).fields
          _
          (chosen-Reported (r.sensitive_key key) (child_path path key) x
            (value-Reported (child_path path key) x (child-nonempty path key h)))
          (fields-Reported path rest h)

  artifact_path-nonempty : (n : ℕ) (part : String) → (artifact_path r n part == "") ≡ false
  unfolding artifact_path index_path
  artifact_path-nonempty n part = join-nonempty _ part (join-nonempty "artifacts" _ refl)

  artifacts-Reported :
      (n : ℕ) (parts : List ArtifactParts)
      → let y = redact_artifacts r n parts in Reported y.changed y.fields
  unfolding redact_artifacts
  artifacts-Reported n [] = refl
  artifacts-Reported n (a ∷ rest) =
      Reported-append _ _ (redact_value r (artifact_path r n ".metadata") a.metadata).fields _
        (value-Reported (artifact_path r n ".metadata") a.metadata
          (artifact_path-nonempty n ".metadata"))
        (Reported-append _ _ (redact_value r (artifact_path r n ".content") a.content).fields _
          (value-Reported (artifact_path r n ".content") a.content
            (artifact_path-nonempty n ".content"))
          (artifacts-Reported (suc n) rest))

new_keys-Unique :
    (seen xs : List String)
    → All (λ x. elem x seen ≡ false) (new_keys seen xs) × Unique (λ x. x) (new_keys seen xs)
unfolding new_keys elem
new_keys-Unique seen [] = (tt, tt)
new_keys-Unique seen (x ∷ xs) =
    let (apart, unique) = new_keys-Unique (x ∷ seen) xs in
    let old = All-imp (new_keys (x ∷ seen) xs) (λ y h. later y h) apart in
    elim (Bool-cases (elem x seen)) [
      | inl e ↦ rw e (old, unique)
      | inr e ↦
          rw e ((e, old), (All-imp (new_keys (x ∷ seen) xs) (λ y h. different y h) apart, unique))
    ]
  where
    later : (y : String) → elem y (x ∷ seen) ≡ false → elem y seen ≡ false
    later y h = ground (arith, h)

    different : (y : String) → elem y (x ∷ seen) ≡ false → x ≢ y
    different y h e = ground (arith, h, eq_iff y x, sym e)

new_keys-nonempty : (xs : List String) → is_empty (new_keys [] xs) ≡ is_empty xs
unfolding new_keys elem
new_keys-nonempty [] = refl
new_keys-nonempty (x ∷ xs) = refl

is_empty-append : (xs ys : List String) → is_empty (xs ++ ys) ≡ (is_empty xs && is_empty ys)
is_empty-append [] ys = refl
is_empty-append (x ∷ xs) ys = refl

is_empty-map : (f : String → String) (xs : List String) → is_empty (map f xs) ≡ is_empty xs
is_empty-map f [] = refl
is_empty-map f (x ∷ xs) = refl

map-same : (f : String → String) (xs : List String) → All (λ x. f x ≡ x) xs → map f xs ≡ xs
map-same f [] h = refl
map-same f (x ∷ xs) h = ground (arith, h.0, map-same f xs h.1)

parts-fields :
    (r : Rules) (e : EventParts)
    → All (λ p. r.strip p ≡ p) (listed_paths r e)
    → Unique (λ p. p) (redact_parts r e).fields
      × (e.applied ≡ false → (redact_parts r e).applied ≡ true → (redact_parts r e).fields ≢ [])
unfolding redact_parts listed_paths is_changed
parts-fields r e settled =
    let c = redact_value r "context" e.context in
    let p = redact_value r "payload" e.payload in
    let a = redact_artifacts r 0 e.artifacts in
    let listed =
      is_empty-map r.strip (listed_paths r e)
      ∙ new_keys-nonempty (e.fields ++ c.fields ++ p.fields ++ a.fields)
      ∙ is_empty-append (e.fields ++ c.fields ++ p.fields) a.fields
      ∙ ap (λ z. z && is_empty a.fields) (is_empty-append (e.fields ++ c.fields) p.fields)
      ∙ ap (λ z. (z && is_empty p.fields) && is_empty a.fields)
          (is_empty-append e.fields c.fields) in
    (
      subst (Unique (λ p. p)) (sym (map-same r.strip (listed_paths r e) settled))
          (new_keys-Unique [] _).1,
      λ was now none_listed. ground (
        arith,
        ap is_empty none_listed,
        listed,
        was,
        now,
        value-Reported r "context" e.context refl,
        value-Reported r "payload" e.payload refl,
        artifacts-Reported r 0 e.artifacts,
      ),
    )

-- Where no listed path has blanks at its ends, a redacted event lists no path twice; and when redaction changed
-- an event that had no redaction applied, it lists at least one path.
pub redact_event-fields :
    (r : Rules) (validation_error : EventParts → Option String) (e e' : EventParts)
    → All (λ p. r.strip p ≡ p) (listed_paths r e)
    → redact_event r validation_error e ≡ ok e'
    → Unique (λ p. p) e'.fields × (e.applied ≡ false → e'.applied ≡ true → e'.fields ≢ [])
redact_event-fields r validation_error e e' settled h =
    subst
      (λ (x : EventParts).
        Unique (λ p. p) x.fields × (e.applied ≡ false → x.applied ≡ true → x.fields ≢ []))
      (redact_event-parts r validation_error e e' h) (parts-fields r e settled)
