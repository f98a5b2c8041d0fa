-- ===== src/Base.antt =====
-- Names shared by all parts of the model: the libraries', passed on, and those of the children
-- below. Nothing here models a line of the repository; it is Go's vocabulary over the native
-- numbers.
mod Tests
mod Lists
mod Equality
mod Maps
mod Outcomes
mod Encoding
pub mod Int
pub mod Words
pub mod Split
pub use Tests.*
pub use Lists.*
unfoldable pub use Equality.*
unfoldable pub use Maps.*
pub use Outcomes.*
unfoldable pub use Encoding.*
pub use Prim.Native.Nat.{ℕ, zero, suc, ◌+◌, ◌-◌, ◌*◌, ◌/◌, ◌%◌, ◌^◌, ◌≤◌, ◌<◌, min}
pub use mathlib.Core.Path.{◌≡◌, refl, sym, ap, ◌∙◌}
pub use mathlib.Core.Logic.{◌≢◌, ◌↔◌, ◌⊎◌, inl, inr}
pub use mathlib.Core.Bool.{Bool, true, false, not, ◌&&◌, ◌||◌}
pub use mathlib.Core.Option.{Option, none, some}
pub use mathlib.Core.List.{List, [], ◌∷◌, ◌++◌, map, append_assoc, append-nil}
pub use native.Mathlib.Omega.{arith}
