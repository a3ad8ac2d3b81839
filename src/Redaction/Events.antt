-- ===== src/Redaction/Events.antt =====
-- `redact_event`, on the parts of an envelope that it reads: the dumps of its context, its payload and its
-- artifacts, and its redaction record. The typed models of `domain/events.py` that it rebuilds from the parts
-- enter by the errors that their validation may raise, an argument of `redact_event`.
use code_sementic_memory.Common.{
  ℕ, suc, ◌≡◌, String, Bool, true, false, ◌&&◌, ◌||◌, not, ◌==◌, map, Option, none, some, Result,
  ok, err, Bool-cases, inl, inr, arith, List, [], ◌∷◌, ◌++◌, if◌then◌else◌, join, elem, Json,
}
use code_sementic_memory.Redaction.Values.{Rules, redact_value, index_path}

pub record ArtifactParts : Type 0 where
  pub content : Json
  pub metadata : Json

pub record EventParts : Type 0 where
  pub context : Json
  pub payload : Json
  pub artifacts : List ArtifactParts
  pub applied : Bool
  pub fields : List String

pub record RedactedArtifacts : Type 0 where
  pub artifacts : List ArtifactParts
  pub changed : Bool
  pub fields : List String

-- `list(dict.fromkeys(xs))` after the keys of `seen`
unfoldable pub new_keys : List String → List String → List String
new_keys seen [] = []
new_keys seen (x ∷ xs) = let rest = new_keys (x ∷ seen) xs in if elem x seen then rest else x ∷ rest

unfoldable pub same_texts : List String → List String → Bool
same_texts [] [] = true
same_texts (x ∷ xs) (y ∷ ys) = x == y && same_texts xs ys
same_texts _ _ = false

module _ (r : Rules) where
  -- f"artifacts[{index}].content" and f"artifacts[{index}].metadata"
  unfoldable pub artifact_path : ℕ → String → String
  artifact_path index part = join (index_path r "artifacts" index) part

  unfoldable pub redact_artifacts : ℕ → List ArtifactParts → RedactedArtifacts
  redact_artifacts index [] = record { artifacts = []; changed = false; fields = [] }
  redact_artifacts index (a ∷ rest) =
      let content = redact_value r (artifact_path index ".content") a.content in
      let metadata = redact_value r (artifact_path index ".metadata") a.metadata in
      let others = redact_artifacts (suc index) rest in
      record {
        artifacts =
            record { content = content.value; metadata = metadata.value } ∷ others.artifacts;
        changed = metadata.changed || (content.changed || others.changed);
        fields = metadata.fields ++ (content.fields ++ others.fields);
      }

  -- Whether something changed, the paths before pydantic strips them, and the parts that the event is rebuilt
  -- from
  unfoldable pub is_changed : EventParts → Bool
  is_changed e =
      (redact_value r "context" e.context).changed
      || (redact_value r "payload" e.payload).changed
      || (redact_artifacts 0 e.artifacts).changed

  unfoldable pub listed_paths : EventParts → List String
  listed_paths e = new_keys [] (
      e.fields
      ++ (redact_value r "context" e.context).fields
      ++ (redact_value r "payload" e.payload).fields
      ++ (redact_artifacts 0 e.artifacts).fields)

  unfoldable pub redact_parts : EventParts → EventParts
  redact_parts e = record {
    context = (redact_value r "context" e.context).value;
    payload = (redact_value r "payload" e.payload).value;
    artifacts = (redact_artifacts 0 e.artifacts).artifacts;
    applied = e.applied || is_changed e;
    fields = map r.strip (listed_paths e);
  }

  -- The models of context and artifacts that are built from the parts; they may raise a `ValidationError`.
  unfoldable pub rebuild : Option String → EventParts → Result String EventParts
  rebuild none parts = ok parts
  rebuild (some message) parts = err message

  -- Where nothing changed and the redaction record is the same, the event is returned, which has these parts.
  unfoldable pub redact_event : (EventParts → Option String) → EventParts → Result String EventParts
  redact_event validation_error e =
      let parts = redact_parts e in
      if not (is_changed e) && same_texts parts.fields e.fields
      then ok parts
      else rebuild (validation_error parts) parts

  pub redact_event-parts :
      (validation_error : EventParts → Option String) (e e' : EventParts)
      → redact_event validation_error e ≡ ok e'
      → redact_parts e ≡ e'
  unfolding redact_event
  redact_event-parts validation_error e e' h =
      elim (Bool-cases (not (is_changed e) && same_texts (redact_parts e).fields e.fields)) [
        | inl t ↦ ground (arith, rw t at h)
        | inr t ↦ rebuilt (validation_error (redact_parts e)) (rw t at h)
      ]
    where
      rebuilt : (o : Option String) → rebuild o (redact_parts e) ≡ ok e' → redact_parts e ≡ e'
      rebuilt none k = unfold rebuild in ground (arith, k)
      rebuilt (some m) k = absurd (unfold rebuild in ground (arith, k))
