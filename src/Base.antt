-- ===== src/Base.antt =====
-- Names that every module shares: those of the libraries, passed on, and those of the children
-- (tests on numbers, lists, bytes and texts).
pub mod Tests
pub mod Lists
pub mod Words
pub mod Options
pub mod Texts
pub mod Stores
pub use Tests.*
pub use Lists.*
pub use Words.*
pub use Options.*
unfoldable pub use Texts.*
unfoldable pub use Stores.*
pub use Prim.Native.Nat.{ℕ, zero, suc, ◌+◌, ◌-◌, ◌*◌, ◌/◌, ◌%◌, ◌^◌, ◌≤◌, ◌<◌, min}
pub use Prim.Native.String.{String}
pub use mathlib.Core.Path.{◌≡◌, refl, sym, ap, ap₂, ◌∙◌, subst}
pub use mathlib.Core.Logic.{◌≢◌, ◌↔◌, ◌⊎◌, inl, inr}
pub use mathlib.Core.Bool.{Bool, true, false, not, ◌&&◌, ◌||◌}
pub use mathlib.Core.Option.{Option, none, some}
pub use mathlib.Core.List.{List, [], ◌∷◌, ◌++◌, map, append-nil, append_assoc, Perm}
pub use native.Mathlib.Omega.{arith}
