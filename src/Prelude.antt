-- ===== src/Prelude.antt =====
-- The names that every component shares: the libraries', passed on, the Boolean tests, lists
-- measured by native numbers, outcomes of fallible code, and big-endian bytes.
mod Tests
mod Lists
mod Fallible
pub mod Bytes
pub mod Stream
pub mod Text
pub mod Assoc
pub mod Xor
pub mod Polls
pub mod Drain
pub mod Writes
pub mod Kept
pub mod WriteAll
pub use Tests.*
pub use Lists.*
pub use Fallible.*
pub use Prim.Native.Nat.{ℕ, zero, suc, ◌+◌, ◌-◌, ◌*◌, ◌/◌, ◌%◌, ◌^◌, ◌≤◌, ◌<◌, min}
pub use mathlib.Core.Path.{◌≡◌, refl, sym, ap, ap₂, ◌∙◌}
pub use mathlib.Core.Logic.{◌≢◌, ◌↔◌, ◌⊎◌, inl, inr}
pub use mathlib.Core.Bool.{Bool, true, false, not, ◌&&◌, ◌||◌}
pub use mathlib.Core.Option.{Option, none, some}
pub use mathlib.Core.List.{List, [], ◌∷◌, ◌++◌, map}
pub use native.Mathlib.Omega.{arith}
