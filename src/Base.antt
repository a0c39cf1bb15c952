-- ===== src/Base.antt =====
-- Names, tests, lists, integers and keyed tables that the parts of the development share.
pub mod Tests
pub mod Lists
pub mod Int
pub mod Keys
pub mod Table
pub mod SignedTable
pub mod Division
pub mod Results
pub mod Texts
pub mod Trimmed
pub mod Decimals
pub mod TextOrder
pub use Tests.*
pub use Lists.*
pub use Results.*
pub use Texts.*
pub use Decimals.*
pub use TextOrder.*
pub use Prim.Native.Nat.{ℕ, zero, suc, ◌+◌, ◌-◌, ◌*◌, ◌/◌, ◌%◌, ◌^◌, ◌≤◌, ◌<◌}
pub use Prim.Native.String.{String}
pub use mathlib.Core.Path.{◌≡◌, refl, sym, ap, ◌∙◌, subst}
pub use mathlib.Core.Logic.{◌≢◌, ◌↔◌, ◌⊎◌, inl, inr}
pub use mathlib.Core.Bool.{Bool, true, false, not, ◌&&◌, ◌||◌}
pub use mathlib.Core.Option.{Option, none, some}
pub use mathlib.Core.List.{List, [], ◌∷◌, ◌++◌, map}
pub use native.Mathlib.Omega.{arith}
