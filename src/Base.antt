-- ===== src/Base.antt =====
-- The names that the other modules share: the libraries', passed on, and those of the children.
mod Tests
mod Lists
mod Tables
mod Text
mod Integers
mod Sorting
mod Comparing
pub use Tests.*
pub use Lists.*
unfoldable pub use Tables.{get, insert, remove}
pub use Tables.{get-insert, get-remove, table_laws}
unfoldable pub use Text.{
  all_chars, any_char, is_blank, trim, trim_start, trim_end, strip_prefix, contains_text,
}
unfoldable pub use Sorting.{insert_by, sort_by, dedup_from, dedup_by}
pub use Sorting.{then_cmp, not_greater, all-sort_by, any-sort_by, all-dedup_by, any-dedup_by}
pub use Comparing.{not_later, not_later_flip}
pub use Integers.{ℤ, pos, negsuc}
pub use Text.{is_whitespace, is_control, is_empty_text}
pub use Prim.Native.Nat.{ℕ, zero, suc, ◌+◌, ◌-◌, ◌*◌, ◌/◌, ◌%◌, ◌^◌, ◌≤◌, ◌<◌, min, max}
pub use Prim.Native.Char.{Char, code}
pub use Prim.Native.String.{String, ◌++◌ as text_append}
pub use mathlib.Core.Path.{◌≡◌, refl, sym, ap, ◌∙◌}
pub use mathlib.Core.Logic.{◌≢◌, ◌↔◌, ◌⊎◌, inl, inr}
pub use mathlib.Core.Bool.{Bool, true, false, not, ◌&&◌, ◌||◌}
pub use mathlib.Core.Option.{Option, none, some}
pub use mathlib.Core.List.{List, [], ◌∷◌, ◌++◌, map}
pub use native.Mathlib.Omega.{arith}
