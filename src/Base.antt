-- ===== src/Base.antt =====
-- The names that the other modules share: the libraries', passed on, and those of the children.
pub mod Tests
pub mod Lists
pub mod Int
pub mod Result
pub mod Maps
pub mod Word
pub mod Dynamic
pub mod Bitwise
pub use Tests.*
pub use Lists.*
pub use Result.*
pub use Maps.{
  Eq, same, same_refl, same_ne, nat_eq, string_eq, pair_eq, AssocMap, contains, insert_new, emplace,
  has, find-insert_new, find-emplace, find-erase, find-assign, map_laws,
}
unfoldable pub use Maps.{find, erase, assign}
pub use Prim.Native.Nat.{ℕ, zero, suc, ◌+◌, ◌-◌, ◌*◌, ◌/◌, ◌%◌, ◌^◌, ◌≤◌, ◌<◌, max}
pub use Prim.Native.String.{String}
pub use mathlib.Core.Path.{◌≡◌, refl, sym, ap, subst, ◌∙◌}
pub use mathlib.Core.Logic.{◌≢◌, ◌↔◌, ◌⊎◌, inl, inr}
pub use mathlib.Core.Bool.{Bool, true, false, not, ◌&&◌, ◌||◌}
pub use mathlib.Core.Option.{Option, none, some}
pub use mathlib.Core.List.{List, [], ◌∷◌, ◌++◌, map}
pub use native.Mathlib.Omega.{arith}
