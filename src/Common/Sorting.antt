-- ===== src/Common/Sorting.antt =====
-- ORDER BY a number, as a stable insertion sort.
use Prim.Native.Nat.{ℕ, zero, suc, ◌≤◌}
use mathlib.Core.Logic.{inl, inr}
use mathlib.Core.List.{List, [], ◌∷◌}
use native.Mathlib.Omega.{arith}
use code_sementic_memory.Common.Tests.{leb, if◌then◌else◌, Bool-cases, leb→le, leb→lt}
use code_sementic_memory.Common.Lists.{take, drop, All, All-imp, All-take, All-drop}

module _ {ℓ} {A : Type ℓ} (key : A → ℕ) where
  unfoldable pub insert_by : A → List A → List A
  insert_by a [] = a ∷ []
  insert_by a (x ∷ xs) = if leb (key a) (key x) then a ∷ x ∷ xs else x ∷ insert_by a xs

  -- Rows of one key stay in table order.
  unfoldable pub sort_by : List A → List A
  unfolding insert_by
  sort_by [] = []
  sort_by (x ∷ xs) = insert_by x (sort_by xs)

  abbrev pub IsSorted : List A → Type 0
  IsSorted [] = Unit
  IsSorted (x ∷ xs) = All (λ y. key x ≤ key y) xs × IsSorted xs

  pub All-insert_by {κ} :
      (P : A → Type κ) (a : A) (xs : List A) → P a → All P xs → All P (insert_by a xs)
  unfolding insert_by
  All-insert_by P a [] h k = (h, tt)
  All-insert_by P a (x ∷ xs) h k = elim (Bool-cases (leb (key a) (key x))) [
    | inl e ↦ rw e (h, k)
    | inr e ↦ rw e (k.0, All-insert_by P a xs h k.1)
  ]

  pub All-sort_by {κ} : (P : A → Type κ) (xs : List A) → All P xs → All P (sort_by xs)
  unfolding sort_by
  All-sort_by P [] h = tt
  All-sort_by P (x ∷ xs) h = All-insert_by P x (sort_by xs) h.0 (All-sort_by P xs h.1)

  insert_by-IsSorted : (a : A) (xs : List A) → IsSorted xs → IsSorted (insert_by a xs)
  unfolding insert_by
  insert_by-IsSorted a [] h = (tt, tt)
  insert_by-IsSorted a (x ∷ xs) h = elim (Bool-cases (leb (key a) (key x))) [
    | inl e ↦
        rw e ((leb→le _ _ e, All-imp xs (λ y q. omega (arith, leb→le (key a) (key x) e)) h.0), h)
    | inr e ↦ rw e (
      All-insert_by (λ y. key x ≤ key y) a xs (omega (arith, leb→lt (key a) (key x) e)) h.0,
      insert_by-IsSorted a xs h.1,
    )
  ]

  pub sort_by-IsSorted : (xs : List A) → IsSorted (sort_by xs)
  unfolding sort_by
  sort_by-IsSorted [] = tt
  sort_by-IsSorted (x ∷ xs) = insert_by-IsSorted x (sort_by xs) (sort_by-IsSorted xs)

  pub take-IsSorted : (n : ℕ) (xs : List A) → IsSorted xs → IsSorted (take n xs)
  take-IsSorted zero xs h = tt
  take-IsSorted (suc n) [] h = tt
  take-IsSorted (suc n) (x ∷ xs) h =
      (All-take (λ y. key x ≤ key y) n xs h.0, take-IsSorted n xs h.1)

  -- In a sorted list what a LIMIT keeps comes before all that it cuts.
  pub take-le-drop :
      (n : ℕ) (xs : List A)
      → IsSorted xs
      → All (λ a. All (λ b. key a ≤ key b) (drop n xs)) (take n xs)
  take-le-drop zero xs h = tt
  take-le-drop (suc n) [] h = tt
  take-le-drop (suc n) (x ∷ xs) h = (All-drop (λ y. key x ≤ key y) n xs h.0, take-le-drop n xs h.1)
