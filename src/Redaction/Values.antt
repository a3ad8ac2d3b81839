-- ===== src/Redaction/Values.antt =====
-- `redact_text` and `redact_value`.
use code_sementic_memory.Common.{
  ℕ, suc, String, Bool, true, false, ◌&&◌, ◌||◌, not, Option, none, some, List, [], ◌∷◌, ◌++◌, ◌==◌,
  if◌then◌else◌, join, Json, null, boolean, number, string, array, object, Items, nil, cons, Fields,
  end, field,
}

pub record Rules : Type 0 where
  -- _SECRET_ASSIGNMENT, _BEARER and _OPENAI_STYLE under `sub`
  pub assignment : String → String × Bool
  pub bearer : String → String × Bool
  pub openai_style : String → String × Bool
  -- _SENSITIVE_KEY.search
  pub sensitive_key : String → Bool
  -- str.strip, which pydantic applies to the texts of a model that it builds
  pub strip : String → String
  -- str of an index
  pub number_text : ℕ → String

-- The value, whether it changed, and the paths of the changes
pub record Redacted : Type 0 where
  pub value : Json
  pub changed : Bool
  pub fields : List String

pub record RedactedItems : Type 0 where
  pub values : Items
  pub changed : Bool
  pub fields : List String

pub record RedactedFields : Type 0 where
  pub values : Fields
  pub changed : Bool
  pub fields : List String

-- `[path] if changed and path else []`
unfoldable pub changed_path : String → Bool → List String
changed_path path changed = if changed && not (path == "") then path ∷ [] else []

-- f"{path}.{key}" if path else str(key)
unfoldable pub child_path : String → String → String
child_path path key = if path == "" then key else join path (join "." key)

module _ (r : Rules) where
  unfoldable pub redact_text : String → String × Bool
  redact_text value =
      let (one, a) = r.assignment value in
      let (two, b) = r.bearer one in let (three, c) = r.openai_style two in (three, a || (b || c))

  -- f"{path}[{index}]"
  unfoldable pub index_path : String → ℕ → String
  index_path path index = join path (join "[" (join (r.number_text index) "]"))

  unfoldable pub redact_string : String → String → Redacted
  redact_string path s =
      let (text, changed) = redact_text s in
      record { value = string text; changed = changed; fields = changed_path path changed }

  -- The value under a sensitive key; `none` where the walk goes on as under any key
  unfoldable pub redact_sensitive : String → Json → Option Redacted
  redact_sensitive path (array items) =
      some (record { value = string "[REDACTED]"; changed = true; fields = path ∷ [] })
  redact_sensitive path (object fs) =
      some (record { value = string "[REDACTED]"; changed = true; fields = path ∷ [] })
  redact_sensitive path (string s) =
      let (text, changed) = redact_text s in
      some (record {
        value = string (if changed then text else "[REDACTED]");
        changed = true;
        fields = path ∷ [];
      })
  redact_sensitive path (number n) = none
  redact_sensitive path (boolean b) = none
  redact_sensitive path null = none

  -- The output for one key: the sensitive one, or that of the walk
  unfoldable pub choose_redacted : Bool → Option Redacted → Redacted → Redacted
  choose_redacted true (some x) walked = x
  choose_redacted true none walked = walked
  choose_redacted false o walked = walked

  unfoldable pub add_item : Redacted → RedactedItems → RedactedItems
  add_item x rest = record {
    values = cons x.value rest.values;
    changed = x.changed || rest.changed;
    fields = x.fields ++ rest.fields;
  }

  unfoldable pub add_field : String → Redacted → RedactedFields → RedactedFields
  add_field key x rest = record {
    values = field key x.value rest.values;
    changed = x.changed || rest.changed;
    fields = x.fields ++ rest.fields;
  }

  unfoldable pub of_items : RedactedItems → Redacted
  of_items x = record { value = array x.values; changed = x.changed; fields = x.fields }

  unfoldable pub of_fields : RedactedFields → Redacted
  of_fields x = record { value = object x.values; changed = x.changed; fields = x.fields }

  unfoldable mutual
    pub redact_value : String → Json → Redacted
    redact_value path (string s) = redact_string path s
    redact_value path (array items) = of_items (redact_items path 0 items)
    redact_value path (object fs) = of_fields (redact_fields path fs)
    redact_value path (number n) = record { value = number n; changed = false; fields = [] }
    redact_value path (boolean b) = record { value = boolean b; changed = false; fields = [] }
    redact_value path null = record { value = null; changed = false; fields = [] }

    -- The loop over a list
    pub redact_items : String → ℕ → Items → RedactedItems
    redact_items path index nil = record { values = nil; changed = false; fields = [] }
    redact_items path index (cons x xs) =
        add_item (redact_value (index_path path index) x) (redact_items path (suc index) xs)

    -- The loop over a dict
    pub redact_fields : String → Fields → RedactedFields
    redact_fields path end = record { values = end; changed = false; fields = [] }
    redact_fields path (field key x rest) =
        add_field key
          (choose_redacted (r.sensitive_key key) (redact_sensitive (child_path path key) x)
            (redact_value (child_path path key) x))
          (redact_fields path rest)
