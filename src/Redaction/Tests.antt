-- ===== src/Redaction/Tests.antt =====
-- A concrete event's redaction, and the theorems at it.
use code_sementic_memory.Common.{
  ◌≡◌, refl, ◌≢◌, String, Option, none, some, ok, join, elem, All-of, Bool, true, false, [], ◌∷◌,
  ◌==◌, if◌then◌else◌, Unique, Bool-cases, inl, inr, false≢true, sym, ◌∙◌, string, object, end,
  field,
}
use code_sementic_memory.Redaction.Values.{
  Rules, redact_value, redact_string, redact_text, redact_sensitive, changed_path, child_path,
  of_fields, of_items, add_field, add_item, choose_redacted,
}
use code_sementic_memory.Redaction.Events.{
  EventParts, redact_artifacts, redact_event, redact_parts, is_changed, listed_paths, new_keys,
  rebuild, same_texts,
}
use code_sementic_memory.Redaction.Reports.{Faithful, redact_event-unchanged}
use code_sementic_memory.Redaction.Paths.{redact_event-fields}

abbrev scrub : String → String × Bool
scrub s = if s == "token=abc" then ("token=[REDACTED]", true) else (s, false)

abbrev rules : Rules
rules = record {
  assignment = scrub;
  bearer = λ s. (s, false);
  openai_style = λ s. (s, false);
  sensitive_key = λ key. key == "api_key";
  strip = λ s. s;
  number_text = λ n. "0";
}

rules-Faithful : Faithful rules
rules-Faithful = record { assignment = kept; bearer = λ s h. refl; openai_style = λ s h. refl }
  where
    kept : (s : String) → (scrub s).1 ≡ false → (scrub s).0 ≡ s
    kept s h = elim (Bool-cases (s == "token=abc")) [
      | inl e ↦ absurd (false≢true (sym h ∙ rw e refl))
      | inr e ↦ rw e refl
    ]

abbrev secret_event : EventParts
secret_event = record {
  context = object (field "branch" (string "main") end);
  payload = object (
      field "text" (string "token=abc")
        (field "args" (object (field "api_key" (string "k") end)) end));
  artifacts = record { content = string "log"; metadata = object end } ∷ [];
  applied = false;
  fields = [];
}

abbrev plain_event : EventParts
plain_event = record secret_event { payload = object (field "text" (string "hello") end) }

-- A branch that is too long for its column
abbrev long_branch : EventParts → Option String
long_branch e = if e.applied then none else some "branch"

abbrev clean_event : EventParts
clean_event = record {
  context = object (field "branch" (string "main") end);
  payload = object (
      field "text" (string "token=[REDACTED]")
        (field "args" (object (field "api_key" (string "[REDACTED]") end)) end));
  artifacts = record { content = string "log"; metadata = object end } ∷ [];
  applied = true;
  fields = "payload.text" ∷ "payload.args.api_key" ∷ [];
}

redacted : redact_event rules long_branch secret_event ≡ ok clean_event
unfolding redact_event redact_parts is_changed listed_paths new_keys elem rebuild same_texts
    redact_value redact_artifacts redact_string redact_text redact_sensitive changed_path child_path
    of_fields of_items add_field add_item choose_redacted join
redacted = refl

nothing_redacted : redact_event rules long_branch plain_event ≡ ok plain_event
unfolding redact_event redact_parts is_changed listed_paths new_keys elem rebuild same_texts
    redact_value redact_artifacts redact_string redact_text redact_sensitive changed_path child_path
    of_fields of_items add_field add_item choose_redacted join
nothing_redacted = refl

redact_event-unchanged_example :
    (plain_event.context ≡ plain_event.context)
    × (plain_event.payload ≡ plain_event.payload)
    × (plain_event.artifacts ≡ plain_event.artifacts)
    × (plain_event.applied ≡ false)
redact_event-unchanged_example =
    redact_event-unchanged rules rules-Faithful long_branch plain_event plain_event nothing_redacted
      refl

redact_event-fields_example :
    Unique (λ p. p) clean_event.fields × (false ≡ false → true ≡ true → clean_event.fields ≢ [])
redact_event-fields_example =
    redact_event-fields rules long_branch secret_event clean_event
      (All-of (listed_paths rules secret_event) (λ p. refl)) redacted
