-- ===== src/Base.antt =====
-- The names that the other modules share: the libraries', passed on, and those of the children.
mod Tests
mod Lists
mod Opt
pub mod Bits
mod Decimal
mod Text
pub mod Eq
pub mod Assoc
pub mod Counters
pub mod Ranking
pub mod Largest
pub use Tests.*
pub use Lists.*
pub use Opt.*
unfoldable pub use Decimal.{decimal}
pub use Decimal.{decimal-ind}
unfoldable pub use Text.{bytes_eq, tolower, lower, starts_with, contains_text}
pub use Text.{Bytes, codes, bytes_eq_iff, lower_idem, contains_text-append}
pub use Prim.Native.Nat.{
  ℕ, zero, suc, ◌+◌, ◌-◌, ◌*◌, ◌/◌, ◌%◌, ◌^◌, ◌≤◌, ◌<◌, bit_and, bit_or, bit_xor,
}
pub use mathlib.Core.Path.{◌≡◌, refl, sym, ap, subst, ◌∙◌}
pub use mathlib.Core.Logic.{◌≢◌, ◌↔◌, ◌⊎◌, inl, inr}
pub use mathlib.Core.Bool.{Bool, true, false, not, ◌&&◌, ◌||◌}
pub use mathlib.Core.Option.{Option, none, some}
pub use mathlib.Core.List.{List, [], ◌∷◌, ◌++◌, map, append_assoc, append-nil}
pub use native.Mathlib.Omega.{arith}
