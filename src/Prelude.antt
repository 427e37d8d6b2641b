-- ===== src/Prelude.antt =====
-- Names shared by the models of all commands: the library's, passed on, and those of the modules
-- below (boolean tests, lists over the native numbers, Go's `strings`, errors and effects).
mod Tests
mod Lists
mod Texts
mod Effects
mod Outcomes
pub mod Sets
pub use Tests.*
pub use Lists.*
unfoldable pub use Lists.{any, keep}
unfoldable pub use Effects.{embed}
unfoldable pub use Texts.{
  ◌==◌, text_lt, cut_prefix, has_prefix, trim_prefix, trim_left, trim, index?, last_index?,
  replace_byte, join, split_byte, contains, digits_from, decimal,
}
pub use Prim.Native.Nat.{ℕ, zero, suc, ◌+◌, ◌-◌, ◌*◌, ◌≤◌, ◌<◌}
pub use mathlib.Core.Path.{◌≡◌, refl, sym, ap, ap₂, subst, ◌∙◌}
pub use mathlib.Core.Logic.{◌≢◌, ◌↔◌, ◌⊎◌, inl, inr}
pub use mathlib.Core.Bool.{Bool, true, false, not, ◌&&◌, ◌||◌}
pub use mathlib.Core.Option.{Option, none, some}
pub use mathlib.Core.List.{List, [], ◌∷◌, ◌++◌, map}
pub use native.Mathlib.Omega.{arith}
pub use Texts.*
pub use Effects.*
pub use Outcomes.*
