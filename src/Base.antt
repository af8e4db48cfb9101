-- ===== src/Base.antt =====
-- What the other modules share: the libraries' names, passed on, and those of three children.
mod Tests
mod Lists
mod Text
pub mod Int
pub mod Sort
pub use Tests.*
pub use Lists.*
pub use Text.{
  Bytes, codes, bytes_eq_iff, bytes_eq_refl, bytes_eq_sym, bytes_lt_irrefl, bytes_lt_trans,
  bytes_lt_total,
}
unfoldable pub use Text.{bytes_eq, bytes_lt, contains}
pub use Prim.Native.Nat.{ℕ, zero, suc, ◌+◌, ◌-◌, ◌*◌, ◌/◌, ◌%◌, ◌^◌, ◌≤◌, ◌<◌, min, max}
pub use Prim.Native.Nat.{bit_and, bit_or, bit_xor}
pub use mathlib.Core.Path.{◌≡◌, refl, sym, ap, ◌∙◌, subst}
pub use mathlib.Core.Logic.{◌≢◌, ◌↔◌, ◌⊎◌, inl, inr}
pub use mathlib.Core.Bool.{Bool, true, false, not, ◌&&◌, ◌||◌}
pub use mathlib.Core.Option.{Option, none, some}
pub use mathlib.Core.List.{List, [], ◌∷◌, ◌++◌, map}
pub use native.Mathlib.Omega.{arith}
