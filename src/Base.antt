-- ===== src/Base.antt =====
-- Shared names: the libraries', passed on, with tests, integers, tables and lists of this library.
pub mod Tests
pub mod Int
pub mod Word
pub mod Table
pub mod Lists
pub mod Float
pub mod Reflect
pub use Tests.*
pub use Int.*
pub use Word.*
pub use Lists.*
pub use Reflect.*
pub use Prim.Native.Nat.{ℕ, zero, suc, ◌+◌, ◌-◌, ◌*◌, ◌/◌, ◌%◌, ◌≤◌, ◌<◌, min, max}
pub use mathlib.Core.Path.{◌≡◌, refl, sym, ap, ◌∙◌}
pub use mathlib.Core.Logic.{◌≢◌, ◌↔◌, ◌⊎◌, inl, inr}
pub use mathlib.Core.Bool.{Bool, true, false, not, ◌&&◌, ◌||◌}
pub use mathlib.Core.Option.{Option, none, some}
pub use mathlib.Core.List.{List, [], ◌∷◌, ◌++◌, map}
pub use native.Mathlib.Omega.{arith}
