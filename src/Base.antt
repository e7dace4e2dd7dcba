-- ===== src/Base.antt =====
-- What the other modules share: the libraries' names, passed on, tests on numbers, lists over the
-- native numbers, machine words and their bit operations.
mod Tests
mod Lists
mod Words
pub mod Texts
mod Integers
mod Powers
pub mod Bits
pub mod Bytes
pub use Tests.*
pub use Lists.*
pub use Words.*
pub use Texts.*
pub use Integers.*
pub use Powers.*
pub use Prim.Native.Nat.{ℕ, zero, suc, ◌+◌, ◌-◌, ◌*◌, ◌/◌, ◌%◌, ◌^◌, ◌≤◌, ◌<◌, min, max}
pub use Prim.Native.Nat.{bit_and, bit_or, bit_xor}
pub use mathlib.Core.Path.{◌≡◌, refl, sym, subst, ap, ap₂, ◌∙◌, ◌≡⟨◌⟩◌, ◌∎}
pub use mathlib.Core.Logic.{◌≢◌, ◌↔◌, ◌⊎◌, inl, inr}
pub use mathlib.Core.Bool.{Bool, true, false, ◌&&◌, ◌||◌}
pub use mathlib.Core.Option.{Option, none, some}
pub use mathlib.Core.List.{List, [], ◌∷◌, ◌++◌, map, reverse}
pub use native.Mathlib.Omega.{arith}
