-- ===== src/Prelude.antt =====
-- The names that the other modules share: library names passed on, Boolean tests on numbers and
-- texts, and the relational operations on lists of rows.
mod Tests
mod Lists
mod Rows
pub mod Keys
pub mod Appended
pub use Tests.*
pub use Lists.*
unfoldable pub use Rows.{select, update, matches, order_by, insert_by}
pub use Rows.{length-update, All-update, select-and, select-update, select_sound, update_unmatched}
pub use Prim.Native.Nat.{ℕ, zero, suc, ◌+◌, ◌-◌, ◌*◌, ◌/◌, ◌%◌, ◌^◌, ◌≤◌, ◌<◌, min, max}
pub use Prim.Native.String.{String}
pub use mathlib.Core.Path.{◌≡◌, refl, sym, ap, ◌∙◌, subst, fun_ext}
pub use mathlib.Core.Logic.{◌≢◌, ◌↔◌, ◌⊎◌, inl, inr}
pub use mathlib.Core.Bool.{Bool, true, false, not, ◌&&◌, ◌||◌}
pub use mathlib.Core.Option.{Option, none, some}
pub use mathlib.Core.List.{List, [], ◌∷◌, ◌++◌, map, append_assoc, append-nil}
pub use native.Mathlib.Omega.{arith}
pub use text.Mathlib.Text.{◌==◌ as str_eq}
pub use text.Mathlib.TextEquality.{eq_iff}
