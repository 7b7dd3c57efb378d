-- ===== src/Base.antt =====
-- The names that the other modules share: the libraries' names, passed on, the Boolean tests on
-- numbers, lists measured by native numbers, and the text of the program.
mod Tests
mod Lists
mod Strings
mod Space
mod Maps
mod Slots
mod Indexed
pub use Tests.*
pub use Lists.*
unfoldable pub use Strings.*
unfoldable pub use Space.*
unfoldable pub use Maps.*
unfoldable pub use Slots.*
unfoldable pub use Indexed.*
pub use Prim.Native.Nat.{ℕ, zero, suc, ◌+◌, ◌-◌, ◌*◌, ◌/◌, ◌%◌, ◌^◌, ◌≤◌, ◌<◌}
pub use mathlib.Core.Path.{◌≡◌, refl, sym, ap, ◌∙◌}
pub use mathlib.Core.Logic.{◌≢◌, ◌↔◌, ◌⊎◌, inl, inr}
pub use mathlib.Core.Bool.{Bool, true, false, not, ◌&&◌, ◌||◌}
pub use mathlib.Core.Option.{Option, none, some}
pub use mathlib.Core.List.{List, [], ◌∷◌, ◌++◌, map, append_assoc, append-nil}
pub use native.Mathlib.Omega.{arith}
