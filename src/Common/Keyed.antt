-- ===== src/Common/Keyed.antt =====
-- Tables with a text key: what a SELECT by key finds after an INSERT or an UPDATE by key.
use Prim.Native.String.{String}
use mathlib.Core.Path.{◌≡◌, refl, sym, ap, ◌∙◌, subst}
use mathlib.Core.Logic.{inl, inr}
use mathlib.Core.Bool.{Bool, true}
use mathlib.Core.Option.{some, some-injective}
use mathlib.Core.List.{List, [], ◌∷◌, ◌++◌}
use native.Mathlib.Omega.{arith}
use code_sementic_memory.Common.Tests.{Bool-cases}
use code_sementic_memory.Common.Tables.{
  find_where, update_where, find_where-holds, find_where-update_where,
}

pub find_where-extend {ℓ} :
    {A : Type ℓ} (p : A → Bool) (xs ys : List A) (x : A)
    → find_where p xs ≡ some x
    → find_where p (xs ++ ys) ≡ some x
unfolding find_where
find_where-extend p [] ys x h = ground arith
find_where-extend p (y ∷ rest) ys x h = elim (Bool-cases (p y)) [
  | inl e ↦ rw e (rw e at h)
  | inr e ↦ rw e (find_where-extend p rest ys x (rw e at h))
]

module _ {A : Type 0} (has : String → A → Bool) (R : A → A → Type 0) where
  -- Every row that a key finds before is found by that key afterwards, moved along `R`.
  abbrev pub Kept : List A → List A → Type 0
  Kept t t' =
      (k : String) (s : A)
      → find_where (has k) t ≡ some s
      → (s' : A) × (find_where (has k) t' ≡ some s') × R s s'

  pub Kept-refl : ((s : A) → R s s) → (t : List A) → Kept t t
  Kept-refl r t k s e = (s, e, r s)

  pub Kept-append : ((s : A) → R s s) → (t ys : List A) → Kept t (t ++ ys)
  Kept-append r t ys k s e = (s, find_where-extend (has k) t ys s e, r s)

  pub Kept-trans :
      ((a b c : A) → R a b → R b c → R a c) → (t u v : List A) → Kept t u → Kept u v → Kept t v
  Kept-trans trans t u v f g k s e =
      let (s', e', r) = f k s e in let (s'', e'', r') = g k s' e' in (s'', e'', trans s s' s'' r r')

  -- The UPDATE of the row that a key finds
  pub Kept-update :
      (f : A → A) (k₀ : String) (s₀ : A) (t : List A)
      → ((s : A) → R s s)
      → ((k : String) (x : A) → has k (f x) ≡ has k x)
      → ((k : String) (x : A) → has k₀ x ≡ true → has k x ≡ true → k ≡ k₀)
      → find_where (has k₀) t ≡ some s₀
      → R s₀ (f s₀)
      → Kept t (update_where (has k₀) f t)
  Kept-update f k₀ s₀ t r same keyed found moved k s e = elim (Bool-cases (has k₀ s)) [
    | inl h ↦
        let q : k ≡ k₀ = keyed k s h (find_where-holds (has k) t s e) in
        let same_row : s ≡ s₀ =
          some-injective _ _ (sym e ∙ ap (λ j. find_where (has j) t) q ∙ found) in
        (
          f s,
          find_where-update_where (has k) (has k₀) f t (same k) ∙ rw e (rw h refl),
          subst (λ (z : A). R z (f z)) (sym same_row) moved,
        )
    | inr h ↦ (s, find_where-update_where (has k) (has k₀) f t (same k) ∙ rw e (rw h refl), r s)
  ]

  -- An UPDATE that moves every row along `R`
  pub Kept-update_all :
      (f : A → A) (p : A → Bool) (t : List A)
      → ((s : A) → R s s)
      → ((k : String) (x : A) → has k (f x) ≡ has k x)
      → ((s : A) → R s (f s))
      → Kept t (update_where p f t)
  Kept-update_all f p t r same moved k s e = elim (Bool-cases (p s)) [
    | inl h ↦ (f s, find_where-update_where (has k) p f t (same k) ∙ rw e (rw h refl), moved s)
    | inr h ↦ (s, find_where-update_where (has k) p f t (same k) ∙ rw e (rw h refl), r s)
  ]
