-- ===== src/Consolidation/Scores.antt =====
-- The scores of src/codememory/consolidation/service.py: `_norm_text`, `_tokens`, `_similarity`,
-- `_binding_targets`, `_binding_overlap`, `_canonical_key`, `_merge_bindings`. A float between 0 and 1 is a
-- number of equal parts of 1, and the operations that round are parameters.
use Prim.Native.Char.{code}
use Prim.Native.Nat.{Ordering}
use Prim.Native.String.{compare}
use code_sementic_memory.Common.{
  ℕ, suc, ◌+◌, ◌-◌, String, Bool, true, false, ◌&&◌, ◌||◌, not, List, [], ◌∷◌, ◌++◌, map, ◌==◌,
  if◌then◌else◌, leb, ltb, elem, length, filter_where, join, clip,
}
use code_sementic_memory.Cards.Rows.{BindingInput, CardCodec}
use code_sementic_memory.Cards.Tables.{normalized_target, or_default}
use code_sementic_memory.Consolidation.Rows.{Candidate}

-- Text functions of Python (`casefold`, `strip`, the two substitutions, the words that `_WORD_RE` finds), the
-- digest of a key, the floating point operations, and a literal by its text
pub record Policy : Type 0 where
  pub casefold : String → String
  pub strip : String → String
  pub strip_prefix : String → String
  pub squeeze : String → String
  pub words : String → List String
  pub key_digest : String → String → List String → String
  pub decision_key : Candidate → String
  pub new_card_id : String → String → String → String
  pub ratio : ℕ → ℕ → ℕ
  pub add : ℕ → ℕ → ℕ
  pub mul : ℕ → ℕ → ℕ
  pub sub : ℕ → ℕ → ℕ
  pub literal : String → ℕ
  pub score_text : ℕ → String

unfoldable pub text_length : String → ℕ
text_length String.[] = 0
text_length (String.◌∷◌ c s) = suc (text_length s)

-- `all("\u4e00" <= ch <= "\u9fff" for ch in part)`
unfoldable pub all_cjk : String → Bool
all_cjk String.[] = true
all_cjk (String.◌∷◌ c s) = leb 0x4e00 (code c) && leb (code c) 0x9fff && all_cjk s

-- `part[index : index + n] for index in range(len(part) - n + 1)`
unfoldable pub windows : ℕ → String → List String
unfolding clip text_length
windows n String.[] = []
windows n (String.◌∷◌ c s) =
    let rest = windows n s in
    if ltb (text_length (String.◌∷◌ c s)) n then [] else clip n (String.◌∷◌ c s) ∷ rest

-- The tokens of one word
unfoldable pub word_tokens : String → List String
unfolding all_cjk windows text_length
word_tokens part =
    if ltb 1 (text_length part)
    then if all_cjk part then windows 2 part ++ windows 3 part else part ∷ []
    else []

unfoldable pub words_tokens : List String → List String
unfolding word_tokens
words_tokens [] = []
words_tokens (w ∷ ws) = word_tokens w ++ words_tokens ws

-- A set of texts, as the list of its members
unfoldable pub unique : List String → List String
unfolding elem
unique [] = []
unique (x ∷ xs) = let rest = unique xs in if elem x rest then rest else x ∷ rest

-- `len(a & b)`
unfoldable pub common : List String → List String → ℕ
unfolding elem filter_where
common a b = length (filter_where (λ x. elem x b) a)

abbrev pub is_empty : List String → Bool
is_empty [] = true
is_empty (x ∷ xs) = false

-- `" ".join([statement, *aliases])`
unfoldable pub spaced : String → List String → String
unfolding join
spaced s [] = s
spaced s (a ∷ rest) = spaced (join s (join " " a)) rest

-- `sorted`, by a strict order; equal elements keep their order.
module _ {ℓ} {A : Type ℓ} (before : A → A → Bool) where
  unfoldable pub insert_sorted : A → List A → List A
  insert_sorted x [] = x ∷ []
  insert_sorted x (y ∷ ys) = if before y x then y ∷ insert_sorted x ys else x ∷ y ∷ ys

  unfoldable pub sorted : List A → List A
  unfolding insert_sorted
  sorted [] = []
  sorted (x ∷ xs) = insert_sorted x (sorted xs)

abbrev pub text_lt : String → String → Bool
text_lt a b = elim (compare a b) [ Ordering.lt ↦ true | _ ↦ false ]

module _ (p : Policy) (c : CardCodec) where
  -- `_norm_text`
  unfoldable pub norm_text : String → String
  norm_text s = p.squeeze (p.strip_prefix (p.strip (p.casefold s)))

  -- `_tokens`
  unfoldable pub tokens : String → List String
  unfolding words_tokens unique
  tokens s = unique (words_tokens (p.words (norm_text s)))

  unfoldable pub similarity_of : List String → List String → Bool → ℕ
  unfolding common
  similarity_of a b same =
      if is_empty a || is_empty b
      then if same then c.one else 0
      else p.ratio (common a b) (length a + length b - common a b)

  -- `_similarity`
  unfoldable pub similarity : String → String → ℕ
  similarity l r =
      similarity_of (tokens l) (tokens r) (norm_text l == norm_text r && not (norm_text l == ""))

  -- `_binding_targets`
  unfoldable pub binding_targets : List BindingInput → List String
  unfolding unique filter_where
  binding_targets bs = unique (filter_where (λ t. not (t == "")) (map (normalized_target c) bs))

  -- `_binding_overlap`
  unfoldable pub binding_overlap : List String → List String → ℕ
  unfolding common
  binding_overlap l r =
      if is_empty l && is_empty r
      then c.one
      else if is_empty l || is_empty r
      then 0
      else p.ratio (common l r) (length l + length r - common l r)

  -- `_canonical_key`; the digest is that of the kind, the text and the targets.
  unfoldable pub canonical_key : Candidate → String
  unfolding sorted join
  canonical_key d = join d.kind (
      join ":"
        (p.key_digest d.kind (norm_text d.statement) (sorted text_lt (binding_targets d.bindings))))

  abbrev pub binding_role : BindingInput → String
  binding_role b = or_default b.role "supporting_symbol"

  unfoldable pub has_key : BindingInput → List (String × String) → Bool
  has_key b [] = false
  has_key b ((role, target) ∷ seen) =
      (binding_role b == role && normalized_target c b == target) || has_key b seen

  -- `_merge_bindings` on the joined lists, after the keys in `seen`
  unfoldable pub merge_bindings : List (String × String) → List BindingInput → List BindingInput
  unfolding has_key
  merge_bindings seen [] = []
  merge_bindings seen (b ∷ bs) =
      let rest = merge_bindings seen bs in
      let kept = b ∷ merge_bindings ((binding_role b, normalized_target c b) ∷ seen) bs in
      if normalized_target c b == "" || has_key b seen then rest else kept
