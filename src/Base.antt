-- ===== src/Base.antt =====
-- Shared notation and lemmas: the libraries' names passed on, Boolean tests and lists over the
-- native numbers, and the arithmetic of the bit operations that the wire formats use.
mod Tests
mod Lists
mod Index
pub mod Bits
pub mod Ints
pub use Tests.*
pub use Lists.*
unfoldable pub use Index.*
pub use Prim.Native.Nat.{ℕ, zero, suc, ◌+◌, ◌-◌, ◌*◌, ◌/◌, ◌%◌, ◌^◌, ◌≤◌, ◌<◌, min, max}
pub use mathlib.Core.Path.{◌≡◌, refl, sym, ap, ◌∙◌, subst}
pub use mathlib.Core.Logic.{◌≢◌, ◌↔◌, ◌⊎◌, inl, inr}
pub use mathlib.Core.Bool.{Bool, true, false, not, ◌&&◌, ◌||◌}
pub use mathlib.Core.Option.{Option, none, some}
pub use mathlib.Core.List.{List, [], ◌∷◌, ◌++◌, map, append-nil, append_assoc}
pub use native.Mathlib.Omega.{arith}
