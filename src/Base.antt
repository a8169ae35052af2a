-- ===== src/Base.antt =====
-- The names that the other modules share: the libraries', passed on, and the tests and list
-- functions over the native numbers.
mod Tests
mod Lists
mod Text
pub mod Parse
pub mod Dict
pub mod Results
pub use Tests.*
pub use Lists.*
unfoldable pub use Text.{concat, display_ℕ, is_blank}
pub use Text.{string_eq}
pub use Prim.Native.Nat.{ℕ, zero, suc, ◌+◌, ◌-◌, ◌*◌, ◌%◌, ◌^◌, ◌≤◌, ◌<◌, min, max}
pub use Prim.Native.String.{String}
pub use mathlib.Core.Path.{◌≡◌, refl, sym, ap, ◌∙◌, subst}
pub use mathlib.Core.Logic.{◌≢◌, ◌↔◌, ◌⊎◌, inl, inr}
pub use mathlib.Core.Bool.{Bool, true, false, not, ◌&&◌, ◌||◌}
pub use mathlib.Core.Option.{Option, none, some}
pub use mathlib.Core.List.{List, [], ◌∷◌, ◌++◌, map}
pub use native.Mathlib.Omega.{arith}
