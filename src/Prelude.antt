-- ===== src/Prelude.antt =====
-- The names that the other modules share: the libraries', passed on, and those of the children.
mod Tests
mod Lists
pub mod Int
pub mod Equality
mod Sets
pub mod Dict
mod Results
pub use Tests.{ltb, leb, if◌then◌else◌, Bool-cases, Option-cases}
pub use Lists.{
  length, get_elem?, take, drop, is_empty, All, length-append, take-append-drop, All-append,
  get_elem?-lt, get_elem?-ge,
}
pub use Int.{ℤ, pos, negsuc, pos_part, neg_part, sub_ℕ, ltb_ℤ}
pub use Equality.{Eq, ◌==◌, nat_eq, int_eq, list_eq, pair_eq, beq_self}
pub use Prim.Native.Nat.{ℕ, zero, suc, ◌+◌, ◌-◌, ◌*◌, ◌/◌, ◌%◌, ◌^◌, ◌≤◌, ◌<◌}
pub use mathlib.Core.Path.{◌≡◌, refl, sym, ap, ◌∙◌}
pub use mathlib.Core.Logic.{◌≢◌, ◌↔◌, ◌⊎◌, inl, inr}
pub use mathlib.Core.Bool.{Bool, true, false, not, ◌&&◌, ◌||◌}
pub use mathlib.Core.Option.{Option, none, some}
pub use mathlib.Core.List.{List, [], ◌∷◌, ◌++◌, map}
pub use native.Mathlib.Omega.{arith}
pub use Sets.{
  contains, contains-add, contains-to_set, contains-difference, contains-intersection, IsNodup,
  add-IsNodup, to_set-IsNodup, length-add, is_empty_iff, filter_by, contains-filter_by,
}
unfoldable pub use Sets.{add, to_set, difference, intersection}
pub use Results.{
  Exception, value_error, index_error, type_error, assertion_error, runtime_error, os_error,
  overflow_error, called_process_error, timeout_expired, timeout_error, database_error,
  zero_division_error, Result, ok, err, ◌>>=◌, ◌>>◌, >>=-eq-ok, Result-cases,
}
pub use Dict.{keys, values, lookup-insert}
unfoldable pub use Dict.{lookup, insert}
