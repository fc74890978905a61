-- ===== src/Common.antt =====
-- The names that the other modules share: the libraries', passed on, and those of the children.
mod Tests
mod Lists
mod Keys
mod JsMap
mod JsSet
mod Sort
mod MapKeys
mod Text
pub use Tests.*
pub use Lists.*
pub use Keys.*
pub use JsMap.*
pub use JsSet.*
pub use Sort.*
pub use MapKeys.*
pub use Text.*
unfoldable pub use JsMap.{map_get, map_set, map_delete, map_update}
unfoldable pub use JsSet.{set_contains, set_add, set_delete}
unfoldable pub use Sort.{insert_by, sort_by}
pub use Prim.Native.Nat.{ℕ, zero, suc, ◌+◌, ◌-◌, ◌*◌, ◌/◌, ◌%◌, ◌^◌, ◌≤◌, ◌<◌}
pub use Prim.Native.String.{String}
pub use mathlib.Core.Path.{◌≡◌, refl, sym, ap, ◌∙◌, subst}
pub use mathlib.Core.Logic.{◌≢◌, ◌↔◌, ◌⊎◌, inl, inr}
pub use mathlib.Core.Bool.{Bool, true, false, ◌&&◌, ◌||◌, not}
pub use mathlib.Core.Option.{Option, none, some}
pub use mathlib.Core.List.{List, [], ◌∷◌, ◌++◌, map}
pub use native.Mathlib.Omega.{arith}
pub use text.Mathlib.TextEquality.{eq_iff}
