-- ===== src/Base.antt =====
-- The names that the modules of the development share: the libraries', passed on, and those of the
-- children (tests on numbers, lists, byte strings and the maps of the program).
mod Numbers
mod Bits
mod Lists
mod Text
mod Results
mod Maps
mod Integers
mod Decimal
unfoldable pub use Bits.*
unfoldable pub use Numbers.*
unfoldable pub use Lists.*
unfoldable pub use Results.*
unfoldable pub use Text.*
unfoldable pub use Maps.*
unfoldable pub use Integers.*
unfoldable pub use Decimal.*
pub use Prim.Native.Nat.{ℕ, zero, suc, ◌+◌, ◌-◌, ◌*◌, ◌/◌, ◌%◌, ◌^◌, ◌≤◌, ◌<◌}
pub use Prim.Native.Nat.{bit_and, bit_or, bit_xor}
pub use Prim.Native.String.{String}
pub use mathlib.Core.Path.{◌≡◌, refl, sym, ap, ◌∙◌}
pub use mathlib.Core.Logic.{◌≢◌, ◌↔◌, ◌⊎◌, inl, inr}
pub use mathlib.Core.Bool.{Bool, true, false, not, ◌&&◌, ◌||◌}
pub use mathlib.Core.Option.{Option, none, some}
pub use mathlib.Core.List.{List, [], ◌∷◌, ◌++◌, map}
pub use native.Mathlib.Omega.{arith}
