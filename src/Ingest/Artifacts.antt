-- ===== src/Ingest/Artifacts.antt =====
-- What an event's artifacts become in src/codememory/storage/repository.py: `_artifact_bytes`,
-- `_artifact_identity`, `_prepare_artifact`, and the reference that the event row keeps.
use code_sementic_memory.Common.{
  ℕ, String, Bool, true, false, not, ◌&&◌, ◌||◌, Option, none, some, List, ◌==◌, ltb, truthy,
  is_some, if◌then◌else◌, length, take, clip, join, Json, boolean, number, string, object, Fields,
  end, field,
}
use code_sementic_memory.Ingest.Event.{
  ArtifactRef, EventEnvelope, ContentEncoding, utf_8, base64, opt_text,
}

abbrev pub Bytes : Type 0
Bytes = List ℕ

-- The library functions that the repository calls: hashlib, base64, json, str and datetime. `decode` replaces
-- what is not UTF-8, and `b64decode` is `none` where it raises.
pub record Codec : Type 0 where
  pub sha256 : Bytes → String
  pub encode : String → Bytes
  pub decode : Bytes → String
  pub b64decode : String → Option Bytes
  pub json_text : Json → String
  pub isoformat : ℕ → String
  pub number_text : ℕ → String
  pub strip : String → String

-- `data[key] = value` on a dict
unfoldable pub set_field : String → Json → Fields → Fields
set_field key value end = field key value end
set_field key value (field k v rest) =
    if k == key then field k value rest else field k v (set_field key value rest)

-- `data.get(key)`
unfoldable pub get_field : String → Fields → Option Json
get_field key end = none
get_field key (field k v rest) = if k == key then some v else get_field key rest

-- `data.setdefault(key, value)`
unfoldable pub set_default : String → Json → Fields → Fields
set_default key value fs = if is_some (get_field key fs) then fs else set_field key value fs

-- The row that `_prepare_artifact` describes
pub record Prepared : Type 0 where
  pub artifact_id : String
  pub sha256 : String
  pub kind : String
  pub uri : Option String
  pub path : Option String
  pub mime_type : Option String
  pub size_bytes : Option ℕ
  pub content_excerpt : Option String
  pub truncated : Bool
  pub metadata : Fields

-- A value or the fallback where there is none
abbrev pub or_else {ℓ} : {A : Type ℓ} → Option A → A → A
or_else none b = b
or_else (some a) b = a

-- `bool(s)` picks the text itself.
unfoldable pub or_text : Option String → String → String
or_text none b = b
or_text (some a) b = if truthy (some a) then a else b

unfoldable pub original_size : Option Bytes → Option ℕ → Option ℕ
original_size none supplied = supplied
original_size (some bytes) supplied = some (length bytes)

-- Content over the limit
unfoldable pub oversized : ℕ → Option Bytes → Bool
oversized maximum none = false
oversized maximum (some bytes) = ltb maximum (length bytes)

-- The excerpt, of at most `maximum` bytes
unfoldable pub excerpt_bytes : ℕ → Bytes → Bytes
excerpt_bytes maximum bytes = if ltb maximum (length bytes) then take maximum bytes else bytes

-- The reference that the event row keeps: content moves to the artifact table.
unfoldable pub stored_ref : Prepared → ArtifactRef → ArtifactRef
stored_ref p a =
    if is_some a.content
    then record a {
      content = none;
      metadata =
          set_field "content_stored" (boolean true)
            (set_field "content_sha256" (string p.sha256) a.metadata);
      truncated = p.truncated;
    }
    else a

module _ (c : Codec) where
  unfoldable pub content_bytes : ContentEncoding → Option String → Option Bytes
  content_bytes encoding none = none
  content_bytes base64 (some content) = some (or_else (c.b64decode content) (c.encode content))
  content_bytes utf_8 (some content) = some (c.encode content)

  unfoldable pub artifact_bytes : ArtifactRef → Option Bytes
  artifact_bytes a = content_bytes a.content_encoding a.content

  -- The identity of a reference without content
  unfoldable pub reference_digest : EventEnvelope → ArtifactRef → String
  reference_digest e a = c.sha256 (
      c.encode (
        c.json_text (
          object (
            field "project_id" (string e.project_id) (
              field "repo_id" (opt_text e.context.repo_id) (
                field "path" (opt_text a.path)
                  (field "uri" (opt_text a.uri) (field "kind" (string a.kind) end))))))))

  unfoldable pub computed_digest : EventEnvelope → ArtifactRef → Option Bytes → String
  computed_digest e a (some bytes) = c.sha256 bytes
  computed_digest e a none = reference_digest e a

  -- `_artifact_identity`
  unfoldable pub artifact_digest : EventEnvelope → ArtifactRef → String
  artifact_digest e a = or_text a.sha256 (computed_digest e a (artifact_bytes a))

  unfoldable pub artifact_identity : EventEnvelope → ArtifactRef → String × String
  artifact_identity e a =
      let digest = artifact_digest e a in (digest, join "artifact-" (clip 32 digest))

module _ (c : Codec) (maximum : ℕ) where
  unfoldable pub excerpt_of : Option Bytes → Option String
  excerpt_of none = none
  excerpt_of (some bytes) = some (c.decode (excerpt_bytes maximum bytes))

  unfoldable pub measured : Option Bytes → Fields → Fields
  measured none fs = fs
  measured (some bytes) fs =
      if ltb maximum (length bytes)
      then set_field "original_size_bytes" (number (c.number_text (length bytes))) fs
      else fs

  -- The metadata, in the order in which the source sets its keys
  unfoldable pub prepared_metadata : ArtifactRef → Option Bytes → Bool → Fields
  prepared_metadata a bytes is_cut =
      let sized = measured bytes a.metadata in
      let identified =
        if not (truthy a.sha256) && not (is_some bytes)
        then set_default "identity_only" (boolean true) sized
        else sized in
      if is_cut then set_field "truncated" (boolean true) identified else identified

  unfoldable pub prepare_artifact : EventEnvelope → ArtifactRef → Prepared
  unfolding artifact_identity
  prepare_artifact e a =
      let bytes = artifact_bytes c a in
      let is_cut = a.truncated || oversized maximum bytes in
      let (digest, artifact_id) = artifact_identity c e a in
      record {
        artifact_id = artifact_id;
        sha256 = digest;
        kind = a.kind;
        uri = a.uri;
        path = a.path;
        mime_type = a.mime_type;
        size_bytes = original_size bytes a.size_bytes;
        content_excerpt = excerpt_of bytes;
        truncated = is_cut;
        metadata = prepared_metadata a bytes is_cut;
      }
