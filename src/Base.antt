-- ===== src/Base.antt =====
-- The names that the other modules share: the libraries', passed on, and those of the children.
mod Tests
mod Codes
mod Lists
mod Shares
pub mod Words
pub mod Bits
pub use Tests.*
pub use Codes.*
pub use Shares.{
  one_if, occurs, occurs-append, total, size, Partition, first-lt, second-lt, counted_up,
  count_up_next, first_to_second, second_to_third, third_to_first, met_once, occurs_first,
  all_first,
}
pub use Lists.*
pub use Words.{u64_mod, add64, sub64}
pub use Prim.Native.Nat.{ℕ, zero, suc, ◌+◌, ◌-◌, ◌*◌, ◌/◌, ◌%◌, ◌^◌, ◌≤◌, ◌<◌, min, max}
pub use mathlib.Core.Path.{◌≡◌, refl, sym, ap, ap₂, subst, ◌∙◌}
pub use mathlib.Core.Logic.{◌≢◌, ◌↔◌, ◌⊎◌, inl, inr}
pub use mathlib.Core.Bool.{Bool, true, false, ◌&&◌, ◌||◌, not}
pub use mathlib.Core.Option.{Option, none, some}
pub use mathlib.Core.List.{List, [], ◌∷◌, ◌++◌, map}
pub use native.Mathlib.Omega.{arith}
