-- ===== src/Prelude.antt =====
-- The names that every module shares: the libraries', passed on, with those of the children for
-- Boolean tests, lists, results, ordered maps, signed integers and decimal text.
mod Tests
mod Lists
mod Outcome
pub mod Int
pub mod Map
pub mod Sorted
pub mod Decimal
pub mod Text
pub use Tests.*
pub use Lists.*
pub use Outcome.*
pub use Prim.Native.Nat.{ℕ, zero, suc, ◌+◌, ◌-◌, ◌*◌, ◌/◌, ◌%◌, ◌^◌, ◌≤◌, ◌<◌, Ordering, min, max}
pub use Prim.Native.String.{String}
pub use mathlib.Core.Path.{◌≡◌, refl, sym, ap, ◌∙◌, subst}
pub use mathlib.Core.Logic.{◌≢◌, ◌↔◌, ◌⊎◌, inl, inr}
pub use mathlib.Core.Bool.{Bool, true, false, not, ◌&&◌, ◌||◌}
pub use mathlib.Core.Option.{Option, none, some}
pub use mathlib.Core.List.{List, [], ◌∷◌, ◌++◌, map, append_assoc, append-nil}
pub use native.Mathlib.Omega.{arith}
pub use text.Mathlib.Text.{◌==◌ as str_eq}
pub use text.Mathlib.TextEquality.{eq_iff}
pub use Int.{ℤ, pos, negsuc, ◌+ℤ◌, Fits, FitsI32}
pub use Map.{
  Key, string_key, pair_key, int_key, BTreeMap, same, same→eq, same_refl, same_sym, count, contains,
  contains-count, get-insert, get-remove,
}
unfoldable pub use Map.{get, insert, remove, keys}
