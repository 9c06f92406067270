-- ===== src/Prelude.antt =====
-- The names that the other modules share: the library's, passed on, and those of the children:
-- Boolean tests, lists, texts as bytes, and hash maps as association lists.
mod Bools
mod Lists
mod Keys
mod Dict
mod Text
mod Results
mod Decimal
pub use Bools.*
pub use Lists.*
pub use Text.*
pub use Results.*
unfoldable pub use Decimal.{show_nat, show_i32}
unfoldable pub use Keys.{str_eq, contains}
pub use Keys.{
  Key, nat_eq, str_inst, pair_inst, ◌==◌, Str, str_eq_iff, str_eq_refl, beq_refl, beq_false_sym,
}
unfoldable pub use Dict.{get, contains_key, remove, insert, collect_from, collect}
pub use Dict.{keys, IsMap}
pub use Dict.Laws.*
pub use Dict.Folds.*
pub use Dict.Collect.*
pub use Dict.Append.*
pub use Prim.Native.Nat.{ℕ, zero, suc, ◌+◌, ◌-◌, ◌*◌, ◌/◌, ◌%◌, ◌^◌, ◌≤◌, ◌<◌}
pub use Prim.Native.String.{String}
pub use mathlib.Core.Path.{◌≡◌, refl, sym, ap, ◌∙◌, subst}
pub use mathlib.Core.Logic.{◌≢◌, ◌↔◌, ◌⊎◌, inl, inr}
pub use mathlib.Core.Bool.{Bool, true, false, not, ◌&&◌, ◌||◌}
pub use mathlib.Core.Option.{Option, none, some}
pub use mathlib.Core.List.{List, [], ◌∷◌, ◌++◌, map}
pub use native.Mathlib.Omega.{arith}
