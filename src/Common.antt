-- ===== src/Common.antt =====
-- The names that the other modules share: the libraries', passed on, and those of the children.
mod Tests
mod Lists
mod Strings
mod Sorting
mod Maps
pub mod Int
pub mod Decimal
pub mod Exec
pub mod Console
pub mod Panics
pub use Tests.*
unfoldable pub use Lists.{select}
pub use Lists.{
  length, length-append, All, All-append, select-append, select-nil, length-map, List-cases,
}
unfoldable pub use Strings.{str_eq, str_le, has_prefix, drop_prefix}
pub use Strings.{
  Str, codes, newline, str_eq_iff, str_eq_refl, str_eq_sym, str_le_total, str_le_antisym,
  str_le_trans, Str-discrete, Str-set,
}
unfoldable pub use Sorting.{insert_by, sort_by}
pub use Sorting.{
  TotalOrder, sort_by-perm, sort_by-IsSorted, sort_by-eq_of_permᴰ, IsSorted, length-sort_by,
}
unfoldable pub use Maps.{put, find, remove}
pub use Maps.{
  Map, keys, UniqueKeys, find-put, find-put_self, find-remove, put-UniqueKeys, find-eq_of_permᴰ,
}
pub use Prim.Native.Nat.{ℕ, zero, suc, ◌+◌, ◌-◌, ◌*◌, ◌/◌, ◌%◌, ◌^◌, ◌≤◌, ◌<◌}
pub use mathlib.Core.Path.{◌≡◌, refl, sym, ap, ap₂, ◌∙◌, subst, fun_ext}
pub use mathlib.Core.Logic.{◌≢◌, ◌↔◌, ◌⊎◌, inl, inr}
pub use mathlib.Core.Bool.{Bool, true, false, not, ◌&&◌, ◌||◌}
pub use mathlib.Core.Option.{Option, none, some}
pub use mathlib.Core.List.{List, [], ◌∷◌, ◌++◌, map, append_assoc, append-nil, map-append}
pub use mathlib.Core.List.{Mem, mem-cons_self, mem-cons_of_mem, Perm, Nodup}
pub use native.Mathlib.Omega.{arith}
