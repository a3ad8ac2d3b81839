-- ===== src/Redaction/Cleanness.antt =====
-- What is left of secrets in a redacted value.
use code_sementic_memory.Common.{
  ℕ, suc, ◌≡◌, refl, ◌⊎◌, inl, inr, String, Bool, true, false, Bool-cases, All, ◌||◌, Json, null,
  boolean, number, string, array, object, Items, nil, cons, Fields, end, field,
}
use code_sementic_memory.Redaction.Values.{
  Rules, redact_text, redact_string, redact_sensitive, choose_redacted, redact_value, redact_items,
  redact_fields, child_path, index_path, of_items, of_fields, add_item, add_field,
}
use code_sementic_memory.Redaction.Events.{EventParts}

module _ (r : Rules) where
  -- A text under the three substitutions, in the order of the source, and whether one of them replaced something
  abbrev pub through_patterns : String → String
  through_patterns before = (r.openai_style (r.bearer (r.assignment before).0).0).0

  abbrev pub is_replaced : String → Bool
  is_replaced before =
      (r.assignment before).1
      || ((r.bearer (r.assignment before).0).1
          || (r.openai_style (r.bearer (r.assignment before).0).0).1)

  -- A text that the patterns have been through
  abbrev pub Scrubbed : String → Type 0
  Scrubbed s = (before : String) × (through_patterns before ≡ s)

  -- What may stand under a sensitive key: the mark, a text in which a pattern was replaced, or no text at all
  abbrev pub Covered : Json → Type 0
  Covered (string s) =
      (s ≡ "[REDACTED]")
      ⊎ ((before : String) × (through_patterns before ≡ s) × (is_replaced before ≡ true))
  Covered (array items) = ⊥
  Covered (object fs) = ⊥
  Covered (number n) = Unit
  Covered (boolean b) = Unit
  Covered null = Unit

  mutual
    -- Every text has been through the patterns, and every sensitive key is covered.
    pub IsClean : Json → Type 0
    IsClean (string s) = Scrubbed s
    IsClean (array items) = CleanItems items
    IsClean (object fs) = CleanFields fs
    IsClean (number n) = Unit
    IsClean (boolean b) = Unit
    IsClean null = Unit

    pub CleanItems : Items → Type 0
    CleanItems nil = Unit
    CleanItems (cons x xs) = IsClean x × CleanItems xs

    pub CleanFields : Fields → Type 0
    CleanFields end = Unit
    CleanFields (field key x rest) =
        (((r.sensitive_key key ≡ true) × Covered x) ⊎ ((r.sensitive_key key ≡ false) × IsClean x))
        × CleanFields rest

  redact_string-IsClean : (path s : String) → IsClean (redact_string r path s).value
  unfolding redact_string redact_text IsClean
  redact_string-IsClean path s = (s, refl)

  sensitive-Covered :
      (path : String) (x : Json)
      → Covered (choose_redacted r true (redact_sensitive r path x) (redact_value r path x)).value
  unfolding choose_redacted redact_sensitive redact_value
  sensitive-Covered path (string s) = elim (Bool-cases (redact_text r s).1) [
    | inl h ↦ rw h (inr (s, unfold redact_text in refl, unfold redact_text in h))
    | inr h ↦ rw h (inl refl)
  ]
  sensitive-Covered path (array items) = inl refl
  sensitive-Covered path (object fs) = inl refl
  sensitive-Covered path (number n) = tt
  sensitive-Covered path (boolean b) = tt
  sensitive-Covered path null = tt

  field-IsClean :
      (key path : String) (x : Json)
      → IsClean (redact_value r path x).value
      → let y =
          choose_redacted r
            (r.sensitive_key key)
            (redact_sensitive r path x)
            (redact_value r path x) in
        ((r.sensitive_key key ≡ true) × Covered y.value)
        ⊎ ((r.sensitive_key key ≡ false) × IsClean y.value)
  unfolding choose_redacted
  field-IsClean key path x c = elim (Bool-cases (r.sensitive_key key)) [
    | inl h ↦ inl (h, rw h (sensitive-Covered path x))
    | inr h ↦ inr (h, rw h c)
  ]

  mutual
    unfolding redact_value of_items of_fields add_item add_field IsClean

    value-IsClean : (path : String) (x : Json) → IsClean (redact_value r path x).value
    value-IsClean path (string s) = redact_string-IsClean path s
    value-IsClean path (array items) = items-CleanItems path 0 items
    value-IsClean path (object fs) = fields-CleanFields path fs
    value-IsClean path (number n) = tt
    value-IsClean path (boolean b) = tt
    value-IsClean path null = tt

    items-CleanItems :
        (path : String) (n : ℕ) (xs : Items) → CleanItems (redact_items r path n xs).values
    items-CleanItems path n nil = tt
    items-CleanItems path n (cons x xs) =
        (value-IsClean (index_path r path n) x, items-CleanItems path (suc n) xs)

    fields-CleanFields :
        (path : String) (fs : Fields) → CleanFields (redact_fields r path fs).values
    fields-CleanFields path end = tt
    fields-CleanFields path (field key x rest) = (
      field-IsClean key (child_path path key) x (value-IsClean (child_path path key) x),
      fields-CleanFields path rest,
    )

  abbrev PartsClean : EventParts → Type 0
  PartsClean e =
      IsClean e.context
      × IsClean e.payload
      × All (λ a. IsClean a.content × IsClean a.metadata) e.artifacts
