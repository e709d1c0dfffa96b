-- ===== src/Base.antt =====
-- The names that every module shares: the libraries' names passed on, the Boolean tests on numbers,
-- lists, and memories indexed by native numbers.
mod Tests
mod Lists
mod Memory
mod Bytes
mod Bits
mod Words
pub use Tests.*
pub use Lists.*
pub use Memory.*
pub use Bytes.*
pub use Bits.*
pub use Words.*
pub use Prim.Native.Nat.{
  ℕ, zero, suc, ◌+◌, ◌-◌, ◌*◌, ◌/◌, ◌%◌, ◌^◌, ◌≤◌, ◌<◌, bit_and, bit_or, bit_xor,
}
pub use mathlib.Core.Path.{◌≡◌, refl, sym, ap, ap₂, ◌∙◌, fun_ext}
pub use mathlib.Core.Logic.{◌≢◌, ◌↔◌, ◌⊎◌, inl, inr}
pub use mathlib.Core.Bool.{Bool, true, false, not, ◌&&◌, ◌||◌}
pub use mathlib.Core.Option.{Option, none, some}
pub use mathlib.Core.List.{List, [], ◌∷◌, ◌++◌, map}
pub use native.Mathlib.Omega.{arith}
