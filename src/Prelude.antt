-- ===== src/Prelude.antt =====
-- The names that every module shares: those of the libraries, passed on, and those of the
-- children, which hold Boolean tests, lists measured by native numbers, bits of a byte, and
-- counting over a range of indices.
mod Tests
mod Lists
pub mod Maps
pub mod Same
pub mod Lex
pub mod Sort
pub mod Search
pub mod Bits
pub mod Xor
pub mod Counting
pub mod Int
pub use Tests.*
pub use Lists.*
pub use Prim.Native.Nat.{ℕ, zero, suc, ◌+◌, ◌-◌, ◌*◌, ◌/◌, ◌%◌, ◌^◌, ◌≤◌, ◌<◌, min}
pub use Prim.Native.String.{String}
pub use mathlib.Core.Path.{◌≡◌, refl, sym, ap, ◌∙◌, subst}
pub use mathlib.Core.Logic.{◌≢◌, ◌↔◌, ◌⊎◌, inl, inr}
pub use mathlib.Core.Bool.{Bool, true, false, not, ◌&&◌, ◌||◌}
pub use mathlib.Core.Option.{Option, none, some}
pub use mathlib.Core.List.{List, [], ◌∷◌, ◌++◌, append_assoc, append-nil}
pub use native.Mathlib.Omega.{arith}
