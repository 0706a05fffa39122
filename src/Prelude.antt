-- ===== src/Prelude.antt =====
-- The names that the components share: the libraries', passed on, and those of the children.
mod Tests
mod Texts
pub mod Lists
pub mod Result
pub mod Split
pub mod Posix
pub mod Strip
pub mod Integers
pub mod Dict
pub use Tests.*
pub use Texts.{
  Text, codes, text_eq_refl, eq_of_text_eq, text_eq_iff, is_empty, length, Text-cases,
  contains-append, ne_of_text_eq,
}
unfoldable pub use Texts.{text_eq, contains, is_space, strip}
pub use Prim.Native.Nat.{ℕ, zero, suc, ◌+◌, ◌-◌, ◌*◌, ◌/◌, ◌%◌, ◌^◌, ◌≤◌, ◌<◌}
pub use mathlib.Core.Path.{◌≡◌, refl, sym, ap, subst, ◌∙◌}
pub use mathlib.Core.Logic.{◌≢◌, ◌↔◌, ◌⊎◌, inl, inr}
pub use mathlib.Core.Bool.{Bool, true, false, not, ◌&&◌, ◌||◌}
pub use mathlib.Core.Option.{Option, none, some}
pub use mathlib.Core.List.{List, [], ◌∷◌, ◌++◌, map, reverse, append_assoc, append-nil}
pub use native.Mathlib.Omega.{arith}
