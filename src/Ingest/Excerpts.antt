-- ===== src/Ingest/Excerpts.antt =====
-- How much of an artifact's content is kept.
use mathlib.Core.List.{append-nil}
use code_sementic_memory.Common.{
  ℕ, zero, suc, [], ◌∷◌, ◌++◌, ap, take, drop, ◌≤◌, ◌≡◌, refl, ◌||◌, some, arith, Bool-cases, inl,
  inr, ltb, length, length-take-le,
}
use code_sementic_memory.Ingest.Event.{EventEnvelope, ArtifactRef}
use code_sementic_memory.Ingest.Artifacts.{
  Bytes, Codec, artifact_bytes, prepare_artifact, oversized, excerpt_bytes, excerpt_of,
  original_size,
}

take-drop : (n : ℕ) (xs : Bytes) → take n xs ++ drop n xs ≡ xs
take-drop zero xs = refl
take-drop (suc n) [] = refl
take-drop (suc n) (x ∷ xs) = ap (λ ys. x ∷ ys) (take-drop n xs)

excerpt-le : (m : ℕ) (bytes : Bytes) → length (excerpt_bytes m bytes) ≤ m
unfolding excerpt_bytes
excerpt-le m bytes = elim (Bool-cases (ltb m (length bytes))) [
  | inl h ↦ rw h (length-take-le m bytes)
  | inr h ↦ rw h (ground arith)
]

excerpt-whole : (m : ℕ) (bytes : Bytes) → length bytes ≤ m → excerpt_bytes m bytes ≡ bytes
unfolding excerpt_bytes
excerpt-whole m bytes le = elim (Bool-cases (ltb m (length bytes))) [
  | inl h ↦ absurd (ground arith)
  | inr h ↦ rw h refl
]

excerpt-prefix : (m : ℕ) (bytes : Bytes) → (rest : Bytes) × (excerpt_bytes m bytes ++ rest ≡ bytes)
unfolding excerpt_bytes
excerpt-prefix m bytes = elim (Bool-cases (ltb m (length bytes))) [
  | inl h ↦ rw h (drop m bytes, take-drop m bytes)
  | inr h ↦ rw h ([], append-nil bytes)
]

-- An artifact with content is stored with the decoding of the first bytes of its content, at most
-- `artifact_max_bytes` of them, and of all of them where they fit; its size is that of the whole content; and it
-- counts as truncated just when its reference said so or the content did not fit.
pub excerpt_bounded :
    (c : Codec) (artifact_max_bytes : ℕ) (e : EventEnvelope) (a : ArtifactRef) (bytes : Bytes)
    → artifact_bytes c a ≡ some bytes
    → let p = prepare_artifact c artifact_max_bytes e a in
      (kept : Bytes) × (p.content_excerpt ≡ some (c.decode kept))
      × ((rest : Bytes) × (kept ++ rest ≡ bytes))
      × (length kept ≤ artifact_max_bytes)
      × (length bytes ≤ artifact_max_bytes → kept ≡ bytes)
      × (p.size_bytes ≡ some (length bytes))
      × (p.truncated ≡ (a.truncated || ltb artifact_max_bytes (length bytes)))
unfolding prepare_artifact excerpt_of original_size oversized
excerpt_bounded c m e a bytes h = (
  excerpt_bytes m bytes,
  rw h refl,
  excerpt-prefix m bytes,
  excerpt-le m bytes,
  excerpt-whole m bytes,
  rw h refl,
  rw h refl,
)
