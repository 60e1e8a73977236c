-- ===== src/Base.antt =====
-- The names that the other modules share: the libraries', passed on, and the helpers of two children.
mod Tests
mod Lists
mod Members
mod Order
mod Outcome
mod Rounding
mod Integers
pub use Tests.*
pub use Lists.*
pub use Members.*
pub use Order.*
pub use Outcome.*
pub use Integers.*
unfoldable pub use Rounding.{round_div}
pub use Rounding.{round_div-le, round_div-le_of}
pub use Prim.Native.Nat.{ℕ, zero, suc, ◌+◌, ◌-◌, ◌*◌, ◌/◌, ◌%◌, ◌^◌, ◌≤◌, ◌<◌, min, max}
pub use mathlib.Core.Path.{◌≡◌, refl, sym, ap, ◌∙◌, subst, fun_ext}
pub use mathlib.Core.Logic.{◌≢◌, ◌↔◌, ◌⊎◌, inl, inr}
pub use mathlib.Core.Bool.{Bool, true, false, not, ◌&&◌, ◌||◌}
pub use mathlib.Core.Option.{Option, none, some}
pub use mathlib.Core.List.{List, [], ◌∷◌, ◌++◌, map, append-nil, append_assoc}
pub use native.Mathlib.Omega.{arith}
