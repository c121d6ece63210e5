-- ===== src/Prelude.antt =====
-- The names that the other modules share: the libraries', passed on, and those of the children.
mod Tests
mod Lists
mod Texts
mod Strings
mod Maps
mod Int
mod Results
pub use Tests.*
pub use Lists.*
unfoldable pub use Texts.{text_eq, text_lt, has_prefix, contains}
pub use Texts.{
  Text, codes, is_empty, text_eq_refl, text_eq_iff, text_lt_irrefl, text_lt_trans, text_lt-cases,
}
unfoldable pub use Strings.{trim_space, to_upper, equal_fold, split_comma}
pub use Strings.{equal_fold-to_upper}
unfoldable pub use Maps.{lookup, store}
pub use Maps.{lookup-store, lookup-store_other}
pub use Int.*
pub use Results.*
pub use Prim.Native.Nat.{ℕ, zero, suc, ◌+◌, ◌-◌, ◌*◌, ◌/◌, ◌%◌, ◌^◌, ◌≤◌, ◌<◌, min}
pub use mathlib.Core.Path.{◌≡◌, refl, sym, ap, ◌∙◌, subst}
pub use mathlib.Core.Logic.{◌≢◌, ◌↔◌, ◌⊎◌, inl, inr}
pub use mathlib.Core.Bool.{Bool, true, false, not, ◌&&◌, ◌||◌}
pub use mathlib.Core.Option.{Option, none, some}
pub use mathlib.Core.List.{List, [], ◌∷◌, ◌++◌, map, append_assoc, append-nil}
pub use native.Mathlib.Omega.{arith}
