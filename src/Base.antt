-- ===== src/Base.antt =====
-- The names that every part of the model shares: the libraries', passed on, and those of the
-- children (tests on numbers and texts, lists, dictionaries, sorting).
pub mod Tests
pub mod Classes
pub mod Lists
pub mod Dict
pub mod Int
pub mod Sort
pub mod Order
pub mod Shuffle
pub mod Members
pub use Tests.*
pub use Classes.*
pub use Lists.*
pub use Sort.*
pub use Prim.Native.Nat.{ℕ, zero, suc, ◌+◌, ◌-◌, ◌*◌, ◌/◌, ◌%◌, ◌≤◌, ◌<◌, min, max}
pub use Prim.Native.String.{String, ◌++◌ as ◌<>◌}
pub use mathlib.Core.Path.{◌≡◌, refl, sym, ap, ◌∙◌}
pub use mathlib.Core.Logic.{◌≢◌, ◌↔◌, ◌⊎◌, inl, inr}
pub use mathlib.Core.Bool.{Bool, true, false, not, ◌&&◌, ◌||◌}
pub use mathlib.Core.Option.{Option, none, some}
pub use mathlib.Core.List.{List, [], ◌∷◌, ◌++◌, map}
pub use native.Mathlib.Omega.{arith}
