-- ===== src/Prelude.antt =====
-- The names that the other modules share: the libraries', passed on, and those of the children.
mod Tests
mod Tables
mod TableLaws
mod Texts
mod Results
pub mod Int
pub use Tests.*
unfoldable pub use Tables.{
  find, filter_where, update_where, count_where, any_where, all_where, first_by, last_of,
}
pub use Tables.{length}
pub use TableLaws.*
unfoldable pub use Texts.{text_eq, trim}
pub use Texts.{
  Text, codes, text_eq-eq, text_eq_refl, text_eq_iff, same_text?, is_empty, trim_or_none,
}
pub use Results.*
pub use Prim.Native.Nat.{ℕ, zero, suc, ◌+◌, ◌-◌, ◌*◌, ◌≤◌, ◌<◌}
pub use mathlib.Core.Path.{◌≡◌, refl, sym, ap, ◌∙◌}
pub use mathlib.Core.Logic.{◌≢◌, ◌↔◌, ◌⊎◌, inl, inr}
pub use mathlib.Core.Bool.{Bool, true, false, ◌&&◌, ◌||◌, not}
pub use mathlib.Core.Option.{Option, none, some}
pub use mathlib.Core.List.{List, [], ◌∷◌, ◌++◌, map}
pub use native.Mathlib.Omega.{arith}
