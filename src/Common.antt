-- ===== src/Common.antt =====
-- The names that the other modules share: the libraries', passed on, and those of the children.
mod Tests
mod Lists
mod Tables
mod Rows
mod Sorting
mod Upserts
mod Keyed
mod Values
unfoldable pub use Tests.*
unfoldable pub use Lists.*
unfoldable pub use Tables.*
unfoldable pub use Rows.*
unfoldable pub use Sorting.*
unfoldable pub use Upserts.*
unfoldable pub use Keyed.*
pub use Values.{
  Json, null, boolean, number, string, array, object, Items, nil, cons, Fields, end, field, Result,
  ok, err, ◌>>=◌, bind-ok, ok-injective,
}
pub use Prim.Native.Nat.{ℕ, zero, suc, ◌+◌, ◌-◌, ◌*◌, ◌^◌, ◌≤◌, ◌<◌, min, max}
pub use Prim.Native.String.{String}
pub use mathlib.Core.Path.{◌≡◌, refl, sym, ap, ◌∙◌, subst}
pub use mathlib.Core.Logic.{◌≢◌, ◌↔◌, ◌⊎◌, inl, inr}
pub use mathlib.Core.Bool.{Bool, true, false, not, ◌&&◌, ◌||◌, false≢true}
pub use mathlib.Core.Option.{Option, none, some, some-injective}
pub use mathlib.Core.List.{List, [], ◌∷◌, ◌++◌, map}
pub use native.Mathlib.Omega.{arith}
pub use text.Mathlib.Text.{◌==◌}
pub use text.Mathlib.TextEquality.{eq_iff}
pub use text.Mathlib.TextPositions.{eq_refl}
