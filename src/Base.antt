-- ===== src/Base.antt =====
-- The names that the other modules share: the libraries', passed on, and those of the children.
mod Equality
mod Tests
mod Lists
mod Results
mod Text
mod Queries
mod Paging
mod Tables
mod Rows
mod Members
mod Keys
mod Filters
pub use Equality.{if◌then◌else◌, Eq, ◌==◌, ==_refl, ==_sound, ==_ne}
unfoldable pub use Equality.{contains, option_eq, nat_eq, string_eq}
pub use Tests.*
pub use Lists.{length, All, find_holds, length-append, where_rows-append}
unfoldable pub use Lists.{find, where_rows, any, all, update_rows}
pub use Results.*
pub use Queries.*
pub use Paging.{length-take, take-all, take-add, skip-add}
unfoldable pub use Paging.{skip, take}
pub use Tables.*
pub use Rows.*
pub use Members.{
  any-All, all-All, All-map, All-both, All-keys, find-IsWithin, where_rows-IsWithin, where_rows-All,
  List-cases, where_rows-true,
}
unfoldable pub use Members.{IsWithin}
pub use Filters.*
pub use Keys.{
  contains-append, contains-away, contains-apart, no_repeat-append, no_repeat-where_rows,
}
unfoldable pub use Keys.{no_repeat}
pub use Text.{◌<>◌, given_sound, given-some}
unfoldable pub use Text.{lower, upper, has_part, given, or_text, strip}
pub use Prim.Native.Nat.{ℕ, zero, suc, ◌+◌, ◌-◌, ◌*◌, ◌/◌, ◌≤◌, ◌<◌}
pub use Prim.Native.String.{String}
pub use mathlib.Core.Path.{◌≡◌, refl, sym, ap, subst, ◌∙◌}
pub use mathlib.Core.Logic.{◌≢◌, ◌↔◌, ◌⊎◌, inl, inr}
pub use mathlib.Core.Bool.{Bool, true, false, not, ◌&&◌, ◌||◌}
pub use mathlib.Core.Option.{Option, none, some}
pub use mathlib.Core.List.{List, [], ◌∷◌, ◌++◌, map, append-nil}
pub use native.Mathlib.Omega.{arith}
