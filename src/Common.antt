-- ===== src/Common.antt =====
-- The names that the modules of every component share: the libraries', passed on, and the
-- helpers of the children (tests on numbers, C arrays as lists, `int` as ℤ, texts, outcomes).
mod Tests
mod Lists
mod Results
mod Strings
mod Hoare
pub mod Int
pub use Tests.*
pub use Lists.*
pub use Results.*
unfoldable pub use Hoare.*
unfoldable pub use Strings.*
pub use Prim.Native.Nat.{ℕ, zero, suc, ◌+◌, ◌-◌, ◌*◌, ◌/◌, ◌%◌, ◌^◌, ◌≤◌, ◌<◌}
pub use mathlib.Core.Path.{◌≡◌, refl, sym, ap, ◌∙◌}
pub use mathlib.Core.Logic.{◌≢◌, ◌↔◌, ◌⊎◌, inl, inr}
pub use mathlib.Core.Bool.{Bool, true, false, not, ◌&&◌, ◌||◌}
pub use mathlib.Core.Option.{Option, none, some}
pub use mathlib.Core.List.{List, [], ◌∷◌, ◌++◌, map, append_assoc, append-nil}
pub use native.Mathlib.Omega.{arith}
