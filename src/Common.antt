-- ===== src/Common.antt =====
-- The names that all modules share: the libraries', passed on, and those of the children.
mod Tests
mod Lists
mod Maps
mod Strings
mod Everywhere
mod Perms
pub use Everywhere.{
  All-implies, All-select, All-map, All-unselect, All-unmap, All-lookup, All-perm, All-of_mem,
  All-mem, lookup-entries,
}
pub use Perms.{select-Perm, length-Perm, select-none, select-every}
unfoldable pub use Tests.*
unfoldable pub use Lists.*
unfoldable pub use Strings.*
unfoldable pub use Maps.{Map, lookup, insert, delete, values, keys}
pub use Maps.{
  lookup-insert, lookup-delete, length-insert_new, length-insert_old, lookup-append_new, IsUnique,
  insert-IsUnique, delete-IsUnique,
}
pub use Prim.Native.Nat.{ℕ, zero, suc, ◌+◌, ◌-◌, ◌*◌, ◌%◌, ◌^◌, ◌≤◌, ◌<◌}
pub use mathlib.Core.Path.{◌≡◌, refl, sym, ap, subst, ◌∙◌}
pub use mathlib.Core.Logic.{◌≢◌, ◌↔◌, ◌⊎◌, inl, inr}
pub use mathlib.Core.Bool.{Bool, true, false, not, ◌&&◌, ◌||◌}
pub use mathlib.Core.Option.{Option, none, some}
pub use mathlib.Core.List.{List, [], ◌∷◌, ◌++◌, map, flatten, Perm, Mem}
pub use native.Mathlib.Omega.{arith}
