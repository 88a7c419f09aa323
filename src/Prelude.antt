-- ===== src/Prelude.antt =====
-- The names that the other modules share: the libraries', passed on, and those of the children.
mod Tests
mod Maps
mod Strings
mod Paths
mod Integers
mod Sorting
mod Decimals
mod PathTests
pub use Tests.*
unfoldable pub use Tests.{contains}
pub use Maps.{Dict, lookup-insert, lookup-delete, value_of}
unfoldable pub use Maps.{lookup, insert, delete}
pub use Strings.{is_space, str_ltb}
unfoldable pub use Strings.{trim_space, split}
pub use Decimals.{digits-format_int, atoi-format_int, format_int-injective, format_int_keeps}
unfoldable pub use Decimals.{format_int, digit}
pub use Sorting.{sort_by-perm, All-sort_by, All-unsorted, Ascending, sort_by-Ascending}
unfoldable pub use Sorting.{sort_by}
pub use Integers.{ℤ, pos, negsuc, int_ltb, int_limit, in_range, in_range_negated}
unfoldable pub use Integers.{number_of, atoi}
unfoldable pub use Paths.{join_path, dir}
pub use Prim.Native.Nat.{ℕ, zero, suc, ◌+◌, ◌-◌, ◌*◌, ◌≤◌, ◌<◌}
pub use Prim.Native.String.{String}
pub use mathlib.Core.Path.{◌≡◌, refl, sym, ap, subst, ◌∙◌}
pub use mathlib.Core.Logic.{◌≢◌, ◌↔◌, ◌⊎◌, inl, inr}
pub use mathlib.Core.Bool.{Bool, true, false, not, ◌&&◌, ◌||◌}
pub use mathlib.Core.Option.{Option, none, some}
pub use mathlib.Core.List.{List, [], ◌∷◌, ◌++◌, map, Perm}
pub use native.Mathlib.Omega.{arith}
pub use text.Mathlib.Text.{◌==◌}
pub use text.Mathlib.TextEquality.{eq_iff}
pub use text.Mathlib.TextPositions.{eq_refl}
