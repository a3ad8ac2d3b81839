-- ===== src/Redaction/Reports.antt =====
-- What redaction reports of its changes.
use code_sementic_memory.Common.{
  ℕ, suc, ◌≡◌, refl, sym, ap, ◌∙◌, String, Option, ok, Bool, true, false, ◌||◌, List, [], ◌∷◌,
  arith, Json, null, boolean, number, string, array, object, Items, nil, cons, Fields, end, field,
}
use code_sementic_memory.Redaction.Values.{
  Rules, redact_text, redact_string, redact_sensitive, choose_redacted, redact_value, redact_items,
  redact_fields, child_path, index_path, of_items, of_fields, add_item, add_field,
}
use code_sementic_memory.Redaction.Events.{
  ArtifactParts, EventParts, redact_artifacts, redact_parts, is_changed, redact_event,
  redact_event-parts,
}

-- `sub` without a match gives its text back.
pub record Faithful (r : Rules) : Type 0 where
  pub assignment : (s : String) → (r.assignment s).1 ≡ false → (r.assignment s).0 ≡ s
  pub bearer : (s : String) → (r.bearer s).1 ≡ false → (r.bearer s).0 ≡ s
  pub openai_style : (s : String) → (r.openai_style s).1 ≡ false → (r.openai_style s).0 ≡ s

||-false : (a b : Bool) → (a || b) ≡ false → (a ≡ false) × (b ≡ false)
||-false true b h = ground (arith, h)
||-false false b h = (refl, h)

module _ (r : Rules) (f : Faithful r) where
  text-same : (s : String) → (redact_text r s).1 ≡ false → (redact_text r s).0 ≡ s
  unfolding redact_text
  text-same s h =
      let (a, bc) = ||-false (r.assignment s).1 _ h in
      let (b, c) = ||-false (r.bearer (r.assignment s).0).1 _ bc in
      f.openai_style _ c ∙ f.bearer _ b ∙ f.assignment s a

  chosen-same :
      (b : Bool) (path : String) (x : Json)
      → ((redact_value r path x).changed ≡ false → (redact_value r path x).value ≡ x)
      → let y = choose_redacted r b (redact_sensitive r path x) (redact_value r path x) in
        y.changed ≡ false → y.value ≡ x
  unfolding choose_redacted redact_sensitive
  chosen-same false path x same h = same h
  chosen-same true path (string s) same h = ground (arith, h)
  chosen-same true path (array items) same h = ground (arith, h)
  chosen-same true path (object fs) same h = ground (arith, h)
  chosen-same true path (number n) same h = same h
  chosen-same true path (boolean b) same h = same h
  chosen-same true path null same h = same h

  mutual
    unfolding redact_value of_items of_fields add_item add_field redact_string

    value-same :
        (path : String) (x : Json)
        → (redact_value r path x).changed ≡ false
        → (redact_value r path x).value ≡ x
    value-same path (string s) h = ap string (text-same s h)
    value-same path (array items) h = ap array (items-same path 0 items h)
    value-same path (object fs) h = ap object (fields-same path fs h)
    value-same path (number n) h = refl
    value-same path (boolean b) h = refl
    value-same path null h = refl

    items-same :
        (path : String) (n : ℕ) (xs : Items)
        → (redact_items r path n xs).changed ≡ false
        → (redact_items r path n xs).values ≡ xs
    items-same path n nil h = refl
    items-same path n (cons x xs) h =
        let (a, b) = ||-false (redact_value r (index_path r path n) x).changed _ h in
        rw (value-same (index_path r path n) x a, items-same path (suc n) xs b) refl

    fields-same :
        (path : String) (fs : Fields)
        → (redact_fields r path fs).changed ≡ false
        → (redact_fields r path fs).values ≡ fs
    fields-same path end h = refl
    fields-same path (field key x rest) h =
        let (a, b) =
          ||-false
            (choose_redacted r (r.sensitive_key key) (redact_sensitive r (child_path path key) x)
              (redact_value r (child_path path key) x)).changed
            _ h in
        rw
          (
            chosen-same (r.sensitive_key key) (child_path path key) x
                (value-same (child_path path key) x) a,
            fields-same path rest b,
          )
          refl

  artifacts-same :
      (n : ℕ) (parts : List ArtifactParts)
      → (redact_artifacts r n parts).changed ≡ false
      → (redact_artifacts r n parts).artifacts ≡ parts
  unfolding redact_artifacts
  artifacts-same n [] h = refl
  artifacts-same n (a ∷ rest) h =
      let (m, co) = ||-false (redact_value r _ a.metadata).changed _ h in
      let (c, others) = ||-false (redact_value r _ a.content).changed _ co in
      rw (value-same _ a.metadata m, value-same _ a.content c, artifacts-same (suc n) rest others)
        refl

  parts-unchanged :
      (e : EventParts)
      → (redact_parts r e).applied ≡ false
      → let e' = redact_parts r e in
        (e'.context ≡ e.context)
        × (e'.payload ≡ e.payload)
        × (e'.artifacts ≡ e.artifacts)
        × (e.applied ≡ false)
  unfolding redact_parts is_changed
  parts-unchanged e h =
      let (was, rest) = ||-false e.applied _ h in
      let (cp, a) = ||-false _ (redact_artifacts r 0 e.artifacts).changed rest in
      let (c, p) =
        ||-false (redact_value r "context" e.context).changed
          (redact_value r "payload" e.payload).changed cp in
      (
        value-same "context" e.context c,
        value-same "payload" e.payload p,
        artifacts-same 0 e.artifacts a,
        was,
      )

  -- With substitutions that give back a text in which they match nothing: where the record of a redacted
  -- event says that no redaction was applied, the record before said so, too, and the
  -- context, the payload and the artifacts are what they were.
  pub redact_event-unchanged :
      (validation_error : EventParts → Option String) (e e' : EventParts)
      → redact_event r validation_error e ≡ ok e'
      → e'.applied ≡ false
      → (e'.context ≡ e.context)
        × (e'.payload ≡ e.payload)
        × (e'.artifacts ≡ e.artifacts)
        × (e.applied ≡ false)
  redact_event-unchanged validation_error e e' h none_applied =
      let same = redact_event-parts r validation_error e e' h in
      let (c, p, a, was) =
        parts-unchanged e (ap (λ (x : EventParts). x.applied) same ∙ none_applied) in
      (
        sym (ap (λ (x : EventParts). x.context) same) ∙ c,
        sym (ap (λ (x : EventParts). x.payload) same) ∙ p,
        sym (ap (λ (x : EventParts). x.artifacts) same) ∙ a,
        was,
      )
