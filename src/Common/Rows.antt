-- ===== src/Common/Rows.antt =====
-- How the rows of a table evolve, and keys that no two rows share.
use mathlib.Core.Path.{◌≡◌, sym, ap, ◌∙◌}
use mathlib.Core.Logic.{◌≢◌, inl, inr}
use mathlib.Core.Bool.{Bool, true, false, false≢true}
use mathlib.Core.Option.{some, some-injective}
use mathlib.Core.List.{List, [], ◌∷◌, ◌++◌}
use code_sementic_memory.Common.Tests.{if◌then◌else◌, Bool-cases}
use code_sementic_memory.Common.Lists.{All, All-append, All-imp, All-zip}
use code_sementic_memory.Common.Tables.{
  update_where, filter_where, find_where, All-find_where, All-update_where, All-filter_where,
  filter_where-yes, filter_where-no,
}

module _ {ℓ} {A : Type ℓ} where
  -- Every old row is still at its place, related by `R` to what it was; the rows that follow are
  -- new ones, which satisfy `N`.
  abbrev pub Evolves : (A → A → Type 0) → (A → Type 0) → List A → List A → Type 0
  Evolves R N [] ys = All N ys
  Evolves R N (x ∷ xs) (y ∷ ys) = R x y × Evolves R N xs ys
  Evolves R N (x ∷ xs) [] = ⊥

  -- No two rows have one key.
  abbrev pub Unique : {K : Type 0} → (A → K) → List A → Type 0
  Unique key [] = Unit
  Unique key (x ∷ xs) = All (λ y. key x ≢ key y) xs × Unique key xs

module _ {ℓ} {A : Type ℓ} (p : A → Bool) (f : A → A) where
  pub Evolves-update_where {κ} :
      (P : A → Type κ) (R : A → A → Type 0) (N : A → Type 0) (xs : List A)
      → ((x : A) → P x → p x ≡ true → R x (f x))
      → ((x : A) → P x → p x ≡ false → R x x)
      → All P xs
      → Evolves R N xs (update_where p f xs)
  unfolding update_where
  Evolves-update_where P R N [] hit miss h = tt
  Evolves-update_where P R N (x ∷ xs) hit miss h = elim (Bool-cases (p x)) [
    | inl e ↦ rw e (hit x h.0 e, Evolves-update_where P R N xs hit miss h.1)
    | inr e ↦ rw e (miss x h.0 e, Evolves-update_where P R N xs hit miss h.1)
  ]

module _ {ℓ} {A : Type ℓ} (R : A → A → Type 0) (N : A → Type 0) where
  pub Evolves-refl : (xs : List A) → ((x : A) → R x x) → Evolves R N xs xs
  Evolves-refl [] r = tt
  Evolves-refl (x ∷ xs) r = (r x, Evolves-refl xs r)

  pub Evolves-append : (xs ys : List A) → ((x : A) → R x x) → All N ys → Evolves R N xs (xs ++ ys)
  Evolves-append [] ys r h = h
  Evolves-append (x ∷ xs) ys r h = (r x, Evolves-append xs ys r h)

  -- A fact about the old rows that the steps keep, and that new rows have
  pub All-Evolves {κ μ} :
      (P : A → Type κ) (Q : A → Type μ) (xs ys : List A)
      → ((x y : A) → R x y → P x → Q y)
      → ((y : A) → N y → Q y)
      → Evolves R N xs ys
      → All P xs
      → All Q ys
  All-Evolves P Q [] ys f g e h = All-imp ys g e
  All-Evolves P Q (x ∷ xs) [] f g e h = absurd e
  All-Evolves P Q (x ∷ xs) (y ∷ ys) f g e h = (f x y e.0 h.0, All-Evolves P Q xs ys f g e.1 h.1)

-- New rows after a step that added none
pub Evolves-extend {ℓ} :
    {A : Type ℓ} (R : A → A → Type 0) (N : A → Type 0) (xs ys zs : List A)
    → Evolves R (λ _. ⊥) xs ys
    → All N zs
    → Evolves R N xs (ys ++ zs)
Evolves-extend R N [] [] zs e h = h
Evolves-extend R N [] (y ∷ ys) zs e h = absurd e.0
Evolves-extend R N (x ∷ xs) [] zs e h = absurd e
Evolves-extend R N (x ∷ xs) (y ∷ ys) zs e h = (e.0, Evolves-extend R N xs ys zs e.1 h)

-- A fact about the new rows, carried back along the steps
pub All-Evolves_back {ℓ κ μ} :
    {A : Type ℓ} (R : A → A → Type 0) (N : A → Type 0) (P : A → Type κ) (Q : A → Type μ)
    (xs ys : List A)
    → ((x y : A) → R x y → P y → Q x)
    → Evolves R N xs ys
    → All P ys
    → All Q xs
All-Evolves_back R N P Q [] ys f e h = tt
All-Evolves_back R N P Q (x ∷ xs) [] f e h = absurd e
All-Evolves_back R N P Q (x ∷ xs) (y ∷ ys) f e h =
    (f x y e.0 h.0, All-Evolves_back R N P Q xs ys f e.1 h.1)

-- Two steps in a row
pub Evolves-comp {ℓ} :
    {A : Type ℓ} (R S T : A → A → Type 0) (N : A → Type 0) (xs ys zs : List A)
    → ((x y z : A) → R x y → S y z → T x z)
    → ((y z : A) → S y z → N y → N z)
    → Evolves R N xs ys
    → Evolves S N ys zs
    → Evolves T N xs zs
Evolves-comp R S T N [] ys zs t new h k = All-Evolves S N N N ys zs new (λ y n. n) k h
Evolves-comp R S T N (x ∷ xs) [] zs t new h k = absurd h
Evolves-comp R S T N (x ∷ xs) (y ∷ ys) [] t new h k = absurd k
Evolves-comp R S T N (x ∷ xs) (y ∷ ys) (z ∷ zs) t new h k =
    (t x y z h.0 k.0, Evolves-comp R S T N xs ys zs t new h.1 k.1)

pub Evolves-imp {ℓ} :
    {A : Type ℓ} (R S : A → A → Type 0) (N M : A → Type 0) (xs ys : List A)
    → ((x y : A) → R x y → S x y)
    → ((y : A) → N y → M y)
    → Evolves R N xs ys
    → Evolves S M xs ys
Evolves-imp R S N M [] ys f g h = All-imp ys g h
Evolves-imp R S N M (x ∷ xs) [] f g h = absurd h
Evolves-imp R S N M (x ∷ xs) (y ∷ ys) f g h = (f x y h.0, Evolves-imp R S N M xs ys f g h.1)

module _ {ℓ} {A : Type ℓ} {K : Type 0} (key : A → K) where
  pub Unique-append :
      (xs : List A) (y : A)
      → All (λ x. key x ≢ key y) xs
      → Unique key xs
      → Unique key (xs ++ y ∷ [])
  Unique-append [] y new h = (tt, tt)
  Unique-append (x ∷ xs) y new h =
      (All-append (λ z. key x ≢ key z) xs (y ∷ []) h.0 (new.0, tt), Unique-append xs y new.1 h.1)

  pub Unique-update_where :
      (p : A → Bool) (f : A → A) (xs : List A)
      → ((x : A) → key (f x) ≡ key x)
      → Unique key xs
      → Unique key (update_where p f xs)
  unfolding update_where
  Unique-update_where p f [] same h = tt
  Unique-update_where p f (x ∷ xs) same h = (
    All-update_where p f (λ z. key x ≢ key z) (λ z. key (if p x then f x else x) ≢ key z) xs
        (λ z n e. λ q. n (sym (same_key x) ∙ q ∙ same z)) (λ z n e. λ q. n (sym (same_key x) ∙ q))
        h.0,
    Unique-update_where p f xs same h.1,
  )
    where
      same_key : (z : A) → key (if p z then f z else z) ≡ key z
      same_key z = elim (Bool-cases (p z)) [ inl e ↦ rw e (same z) | inr e ↦ rw e ]

  -- A row that fails the test shares its key with none that passes.
  pub Unique-filter_where :
      (p : A → Bool) (xs : List A)
      → Unique key xs
      → All (λ x. p x ≡ false → All (λ y. key x ≢ key y) (filter_where p xs)) xs
  Unique-filter_where p [] h = tt
  Unique-filter_where p (x ∷ xs) h = elim (Bool-cases (p x)) [
    | inl e ↦ (
      λ f. absurd (false≢true (sym f ∙ e)),
      All-zip xs (λ z n rest f. rw (filter_where-yes p x xs e) (λ q. n (sym q), rest f)) h.0
          (Unique-filter_where p xs h.1),
    )
    | inr e ↦ (
      λ f.
          rw (filter_where-no p x xs e)
            (All-filter_where p (λ y. key x ≢ key y) (λ y. key x ≢ key y) xs (λ y n _. n) h.0),
      All-imp xs (λ z rest f. rw (filter_where-no p x xs e) (rest f))
          (Unique-filter_where p xs h.1),
    )
  ]

  -- Where the test fixes the key, the row found is the only one that passes.
  pub find_where-only :
      (p : A → Bool) (i : K) (xs : List A) (r : A)
      → ((x : A) → p x ≡ true → key x ≡ i)
      → Unique key xs
      → find_where p xs ≡ some r
      → All (λ x. p x ≡ true → x ≡ r) xs
  unfolding find_where
  find_where-only p i [] r fixed h e = tt
  find_where-only p i (x ∷ xs) r fixed h e = elim (Bool-cases (p x)) [
    | inl q ↦ (
      λ _. some-injective _ _ (rw q at e),
      All-imp xs (λ y n s. absurd (n (fixed x q ∙ sym (fixed y s)))) h.0,
    )
    | inr q ↦ (λ s. absurd (false≢true (sym q ∙ s)), find_where-only p i xs r fixed h.1 (rw q at e))
  ]

-- A row that was found is the only one with its key.
pub Unique-found {ℓ} :
    {A : Type ℓ} {K : Type 0} (key : A → K) (p : A → Bool) (xs : List A) (r : A)
    → Unique key xs
    → find_where p xs ≡ some r
    → All (λ x. key x ≡ key r → x ≡ r) xs
unfolding find_where
Unique-found key p [] r h e = tt
Unique-found key p (x ∷ xs) r h e = elim (Bool-cases (p x)) [
  | inl q ↦
      let same : x ≡ r = some-injective _ _ (rw q at e) in
      (λ _. same, All-imp xs (λ y n k. absurd (n (ap key same ∙ sym k))) h.0)
  | inr q ↦
      let rest : find_where p xs ≡ some r = rw q at e in
      (
        λ k. absurd (All-find_where p (λ y. key x ≢ key y) xs r rest h.0 k),
        Unique-found key p xs r h.1 rest,
      )
]

-- Steps that keep the key and add no row keep keys unique.
pub Unique-Evolves {ℓ} :
    {A : Type ℓ} {K : Type 0} (key : A → K) (R : A → A → Type 0) (xs ys : List A)
    → ((x y : A) → R x y → key y ≡ key x)
    → Evolves R (λ _. ⊥) xs ys
    → Unique key xs
    → Unique key ys
Unique-Evolves key R [] [] same e u = tt
Unique-Evolves key R [] (y ∷ ys) same e u = absurd e.0
Unique-Evolves key R (x ∷ xs) [] same e u = absurd e
Unique-Evolves key R (x ∷ xs) (y ∷ ys) same e u = (
  All-Evolves R (λ _. ⊥) (λ z. key x ≢ key z) (λ z. key y ≢ key z) xs ys
      (λ z w r n q. n (sym (same x y e.0) ∙ q ∙ same z w r)) (λ z none_new. absurd none_new) e.1
      u.0,
  Unique-Evolves key R xs ys same e.1 u.1,
)
