-- ===== src/Common/Upserts.antt =====
-- INSERT ... ON CONFLICT(key) DO UPDATE, and what it keeps.
use mathlib.Core.Path.{◌≡◌, refl, sym, ◌∙◌}
use mathlib.Core.Logic.{◌≢◌, inl, inr}
use mathlib.Core.Bool.{Bool, true, false, false≢true}
use mathlib.Core.Option
use mathlib.Core.Option.{Option, none, some}
use mathlib.Core.List.{List, [], ◌∷◌, ◌++◌}
use code_sementic_memory.Common.Tests.{Option-cases, Bool-cases, if◌then◌else◌}
use code_sementic_memory.Common.Lists.{All, All-append, All-imp}
use code_sementic_memory.Common.Tables.{
  update_where, find_where, find_where-none, find_where-holds, find_where-append,
  find_where-update_where, All-update_where,
}
use code_sementic_memory.Common.Rows.{Unique, Unique-append, Unique-update_where}

module _ {ℓ} {A : Type ℓ} (p : A → Bool) (f : A → A) (new : A) where
  unfoldable pub upsert_found : Option A → List A → List A
  upsert_found none t = t ++ new ∷ []
  upsert_found (some x) t = update_where p f t

  unfoldable pub upsert : List A → List A
  unfolding upsert_found
  upsert t = upsert_found (find_where p t) t

  -- The row that a SELECT by the key gives afterwards
  unfoldable pub upserted : Option A → A
  upserted none = new
  upserted (some x) = f x

  pub find_where-upsert :
      (t : List A)
      → p new ≡ true
      → ((x : A) → p (f x) ≡ p x)
      → find_where p (upsert t) ≡ some (upserted (find_where p t))
  unfolding upsert upsert_found upserted find_where
  find_where-upsert t new_key same = elim (Option-cases (find_where p t)) [
    | inl e ↦ rw e (rw (find_where-append p t (new ∷ []) e) (rw new_key refl))
    | inr (x, e) ↦
        rw e (find_where-update_where p p f t same ∙ rw e (rw (find_where-holds p t x e) refl))
  ]

  -- A SELECT on other rows sees no difference.
  pub find_where-upsert_other :
      (q : A → Bool) (t : List A)
      → q new ≡ false
      → ((x : A) → q (f x) ≡ q x)
      → ((x : A) → p x ≡ true → q x ≡ false)
      → find_where q (upsert t) ≡ find_where q t
  unfolding upsert upsert_found find_where
  find_where-upsert_other q t other same apart = elim (Option-cases (find_where p t)) [
    | inl e ↦ rw e (appended t)
    | inr (x, e) ↦ rw e (find_where-update_where q p f t same ∙ unchanged (find_where q t) refl)
  ]
    where
      appended : (xs : List A) → find_where q (xs ++ new ∷ []) ≡ find_where q xs
      appended [] = rw other refl
      appended (y ∷ ys) = rw (appended ys) refl

      unchanged :
          (o : Option A) → find_where q t ≡ o → Option.map (λ x. if p x then f x else x) o ≡ o
      unchanged none e = refl
      unchanged (some y) e = elim (Bool-cases (p y)) [
        | inl h ↦ absurd (false≢true (sym (apart y h) ∙ find_where-holds q t y e))
        | inr h ↦ rw h refl
      ]

  pub All-upsert {κ} :
      (P : A → Type κ) (t : List A)
      → P new
      → ((x : A) → P x → p x ≡ true → P (f x))
      → All P t
      → All P (upsert t)
  unfolding upsert upsert_found
  All-upsert P t h step a = elim (Option-cases (find_where p t)) [
    | inl e ↦ rw e (All-append P t (new ∷ []) a (h, tt))
    | inr (x, e) ↦ rw e (All-update_where p f P P t step (λ x k _. k) a)
  ]

  -- Where the conflict clause is the key, keys stay unique.
  pub Unique-upsert :
      {K : Type 0} (key : A → K) (t : List A)
      → ((x : A) → p x ≡ false → key x ≢ key new)
      → ((x : A) → key (f x) ≡ key x)
      → Unique key t
      → Unique key (upsert t)
  unfolding upsert upsert_found
  Unique-upsert key t fixed same u = elim (Option-cases (find_where p t)) [
    | inl e ↦ rw e (Unique-append key t new (All-imp t fixed (find_where-none p t e)) u)
    | inr (x, e) ↦ rw e (Unique-update_where key p f t same u)
  ]
