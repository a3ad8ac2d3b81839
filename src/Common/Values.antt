-- ===== src/Common/Values.antt =====
-- JSON values, as `json.loads` gives them, and errors as values.
use Prim.Native.String.{String}
use mathlib.Core.Bool.{Bool}
use mathlib.Core.Path.{◌≡◌, refl}
use native.Mathlib.Omega.{arith}

-- A number is held by its JSON text: the program stores and compares numbers it never computes with.
mutual
  pub data Json : Type 0 where
    null : Json
    boolean : Bool → Json
    number : String → Json
    string : String → Json
    array : Items → Json
    object : Fields → Json

  pub data Items : Type 0 where
    nil : Items
    cons : Json → Items → Items

  -- A dict, in insertion order
  pub data Fields : Type 0 where
    end : Fields
    field : String → Json → Fields → Fields

-- A transaction that raises is rolled back, so an error carries no state.
pub data Result {ℓ κ} (E : Type ℓ) (A : Type κ) : Type (ℓ ⊔ κ) where
  ok : A → Result E A
  err : E → Result E A

infixl 5 ◌>>=◌
abbrev pub ◌>>=◌ {ℓ κ μ} :
    {E : Type ℓ} {A : Type κ} {B : Type μ} → Result E A → (A → Result E B) → Result E B
ok a >>= f = f a
err e >>= f = err e

-- A chain that succeeds has succeeded at each link.
pub bind-ok {ℓ κ μ} :
    {E : Type ℓ} {A : Type κ} {B : Type μ} (x : Result E A) (f : A → Result E B) (b : B)
    → (x >>= f) ≡ ok b
    → (a : A) × (x ≡ ok a) × (f a ≡ ok b)
bind-ok (ok a) f b h = (a, refl, h)
bind-ok (err e) f b h = ground arith

pub ok-injective {ℓ κ} :
    {E : Type ℓ} {A : Type κ} (a b : A) (x : Result E A) → x ≡ ok a → x ≡ ok b → a ≡ b
ok-injective a b x h k = ground arith
