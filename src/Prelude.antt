-- ===== src/Prelude.antt =====
-- The names that the other modules share: those of the libraries, passed on, and of the children.
mod Tests
mod Classes
mod Lists
mod Assoc
mod Order
mod Sorting
mod Text
mod Sets
pub use Tests.*
pub use Classes.*
pub use Lists.*
unfoldable pub use Assoc.{get, put, has, remove, of_pairs}
pub use Assoc.{
  All-get, NoRepeats-put, NoRepeats-of_pairs, Dict, keys, values, get-put, get-remove, get-map,
  has-put, has-of_pairs, All-get_value, All-put, of_pairs-done,
}
pub use Order.{
  Ord, leb_total, leb_trans, num_Ord, text_le, text_total, text_trans, text_Ord, pair_le, pair_Ord,
  list_le, list_Ord, IsSorted,
}
unfoldable pub use Order.{insert_sorted, sorted}
unfoldable pub use Sets.{add_member, add_members}
pub use Sets.{All-add_member, contains-add_member, contains-add_members}
pub use Text.{codes}
pub use Sorting.{
  sorted-done, NoRepeats-map-sorted, IsSorted-take, any-sorted, sorted-perm, All-sorted,
  sorted-IsSorted, length-sorted,
}
unfoldable pub use Text.{
  join, concat, decimal, starts_with, has_part, remove_prefix, text_before, is_space, has_ink,
}
pub use Prim.Native.Nat.{ℕ, zero, suc, ◌+◌, ◌-◌, ◌*◌, ◌/◌, ◌%◌, ◌^◌, ◌≤◌, ◌<◌, min, max}
pub use Prim.Native.String.{String}
pub use Prim.Native.Char.{Char, code}
pub use mathlib.Core.Path.{◌≡◌, refl, sym, ap, ◌∙◌, subst}
pub use mathlib.Core.Logic.{◌≢◌, ◌↔◌, ◌⊎◌, inl, inr}
pub use mathlib.Core.Bool.{Bool, true, false, not, ◌&&◌, ◌||◌}
pub use mathlib.Core.Option.{Option, none, some}
pub use mathlib.Core.List.{List, [], ◌∷◌, ◌++◌, map, foldl, flat_map, Perm}
pub use native.Mathlib.Omega.{arith}
