-- ===== src/Common/Tables.antt =====
-- SQL tables as lists of rows: a WHERE clause is a test, an UPDATE a map on the rows that pass it.
use Prim.Native.Nat.{ℕ, suc, ◌+◌}
use Prim.Native.String.{String}
use mathlib.Core.Path.{◌≡◌, refl, ap}
use mathlib.Core.Logic.{◌≢◌, inl, inr}
use mathlib.Core.Bool.{Bool, true, false, ◌||◌}
use mathlib.Core.Option
use mathlib.Core.Option.{Option, none, some, some-injective}
use mathlib.Core.List.{List, [], ◌∷◌, ◌++◌}
use native.Mathlib.Omega.{arith}
use text.Mathlib.Text.{◌==◌}
use text.Mathlib.TextEquality.{eq_iff}
use code_sementic_memory.Common.Tests.{if◌then◌else◌, Bool-cases}
use code_sementic_memory.Common.Lists.{length, All}

-- `x in xs`
unfoldable pub elem : String → List String → Bool
elem a [] = false
elem a (x ∷ xs) = a == x || elem a xs

module _ {ℓ} {A : Type ℓ} where
  -- UPDATE ... SET f WHERE p
  unfoldable pub update_where : (A → Bool) → (A → A) → List A → List A
  update_where p f [] = []
  update_where p f (x ∷ xs) = (if p x then f x else x) ∷ update_where p f xs

  -- SELECT ... WHERE p, in table order
  unfoldable pub filter_where : (A → Bool) → List A → List A
  filter_where p [] = []
  filter_where p (x ∷ xs) = let rest = filter_where p xs in if p x then x ∷ rest else rest

  -- SELECT ... WHERE p, fetchone()
  unfoldable pub find_where : (A → Bool) → List A → Option A
  find_where p [] = none
  find_where p (x ∷ xs) = if p x then some x else find_where p xs

  -- SELECT COUNT(*) WHERE p; the rowcount of an UPDATE
  unfoldable pub count_where : (A → Bool) → List A → ℕ
  count_where p [] = 0
  count_where p (x ∷ xs) = (if p x then 1 else 0) + count_where p xs

module _ {ℓ} {A : Type ℓ} (p : A → Bool) (f : A → A) where
  pub length-update_where : (xs : List A) → length (update_where p f xs) ≡ length xs
  unfolding update_where
  length-update_where [] = refl
  length-update_where (x ∷ xs) = ap suc (length-update_where xs)

  pub All-update_where {κ μ} :
      (P : A → Type κ) (Q : A → Type μ) (xs : List A)
      → ((x : A) → P x → p x ≡ true → Q (f x))
      → ((x : A) → P x → p x ≡ false → Q x)
      → All P xs
      → All Q (update_where p f xs)
  unfolding update_where
  All-update_where P Q [] hit miss h = tt
  All-update_where P Q (x ∷ xs) hit miss h = elim (Bool-cases (p x)) [
    | inl e ↦ rw e (hit x h.0 e, All-update_where P Q xs hit miss h.1)
    | inr e ↦ rw e (miss x h.0 e, All-update_where P Q xs hit miss h.1)
  ]

module _ {ℓ} {A : Type ℓ} (p : A → Bool) where
  pub filter_where-yes :
      (x : A) (xs : List A) → p x ≡ true → filter_where p (x ∷ xs) ≡ x ∷ filter_where p xs
  unfolding filter_where
  filter_where-yes x xs e = rw e

  pub filter_where-no :
      (x : A) (xs : List A) → p x ≡ false → filter_where p (x ∷ xs) ≡ filter_where p xs
  unfolding filter_where
  filter_where-no x xs e = rw e

  pub All-filter_where {κ μ} :
      (P : A → Type κ) (Q : A → Type μ) (xs : List A)
      → ((x : A) → P x → p x ≡ true → Q x)
      → All P xs
      → All Q (filter_where p xs)
  unfolding filter_where
  All-filter_where P Q [] keep h = tt
  All-filter_where P Q (x ∷ xs) keep h = elim (Bool-cases (p x)) [
    | inl e ↦ rw e (keep x h.0 e, All-filter_where P Q xs keep h.1)
    | inr e ↦ rw e (All-filter_where P Q xs keep h.1)
  ]

  pub find_where-holds : (xs : List A) (x : A) → find_where p xs ≡ some x → p x ≡ true
  unfolding find_where
  find_where-holds [] x h = ground arith
  find_where-holds (y ∷ ys) x h = elim (Bool-cases (p y)) [
    | inl e ↦ ground arith
    | inr e ↦ find_where-holds ys x (ground arith)
  ]

  pub All-find_where {κ} :
      (P : A → Type κ) (xs : List A) (x : A) → find_where p xs ≡ some x → All P xs → P x
  unfolding find_where
  All-find_where P [] x h a = ground arith
  All-find_where P (y ∷ ys) x h a = elim (Bool-cases (p y)) [
    | inl e ↦ let q : y ≡ x = ground arith in rw (← q) a.0
    | inr e ↦ All-find_where P ys x (ground arith) a.1
  ]

  -- Nothing found: every row fails the test.
  pub find_where-none : (xs : List A) → find_where p xs ≡ none → All (λ x. p x ≡ false) xs
  unfolding find_where
  find_where-none [] h = tt
  find_where-none (y ∷ ys) h = elim (Bool-cases (p y)) [
    | inl e ↦ ground arith
    | inr e ↦ (e, find_where-none ys (ground arith))
  ]

  pub All-find_where-none : (xs : List A) → All (λ x. p x ≡ false) xs → find_where p xs ≡ none
  unfolding find_where
  All-find_where-none [] h = refl
  All-find_where-none (y ∷ ys) h = rw h.0 (All-find_where-none ys h.1)

  pub find_where-append :
      (xs ys : List A) → find_where p xs ≡ none → find_where p (xs ++ ys) ≡ find_where p ys
  unfolding find_where
  find_where-append [] ys h = refl
  find_where-append (x ∷ xs) ys h = elim (Bool-cases (p x)) [
    | inl e ↦ ground arith
    | inr e ↦ rw e (find_where-append xs ys (ground arith))
  ]

-- A SELECT after an UPDATE that does not change its test
pub find_where-update_where {ℓ} :
    {A : Type ℓ} (p q : A → Bool) (f : A → A) (xs : List A)
    → ((x : A) → p (f x) ≡ p x)
    → find_where p (update_where q f xs)
      ≡ Option.map (λ x. if q x then f x else x) (find_where p xs)
unfolding find_where update_where
find_where-update_where p q f [] same = refl
find_where-update_where p q f (x ∷ xs) same = elim (Bool-cases (q x)) [
  | inl e ↦ elim (Bool-cases (p x)) [
    | inl h ↦ rw (e, same x, h) (rw e refl)
    | inr h ↦ rw (e, same x, h) (find_where-update_where p q f xs same)
  ]
  | inr e ↦ elim (Bool-cases (p x)) [
    | inl h ↦ rw (e, h) (rw e refl)
    | inr h ↦ rw (e, h) (find_where-update_where p q f xs same)
  ]
]

pub elem-false : (a : String) (xs : List String) → All (λ x. a ≢ x) xs → elem a xs ≡ false
unfolding elem
elem-false a [] h = refl
elem-false a (x ∷ xs) h = ground (arith, eq_iff a x, elem-false a xs h.1)
