-- ===== src/Base.antt =====
-- The names that every other module shares: the library's, passed on, and those of the children,
-- which hold the tests on numbers, the lists, the fallible results and the text of the program.
pub mod Tests
pub mod Lists
pub mod Result
pub mod Text
pub mod Utf8
pub mod Split
pub mod Trimming
pub mod Decimal
pub mod Keys
pub mod Sort
pub use Prim.Native.Nat.{ℕ, zero, suc, ◌+◌, ◌-◌, ◌*◌, ◌/◌, ◌%◌, ◌^◌, ◌≤◌, ◌<◌}
pub use mathlib.Core.Path.{◌≡◌, refl, sym, ap, ◌∙◌, subst}
pub use mathlib.Core.Logic.{◌≢◌, ◌↔◌, ◌⊎◌, inl, inr}
pub use mathlib.Core.Bool.{Bool, true, false, not, ◌&&◌, ◌||◌}
pub use mathlib.Core.Option.{Option, none, some}
pub use mathlib.Core.List.{List, [], ◌∷◌, ◌++◌, map, append-nil, append_assoc}
pub use native.Mathlib.Omega.{arith}
