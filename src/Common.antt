-- ===== src/Common.antt =====
-- The names that the other modules share: the libraries', passed on, and those of the children.
mod Tests
mod Lists
mod Texts
mod Dicts
mod Whitespace
mod Trimmed
mod Worded
mod Numerals
pub mod Sorting
pub use Tests.*
pub use Lists.*
unfoldable pub use Lists.{last_n}
pub use Texts.*
unfoldable pub use Texts.{lit, text_eq, starts_with, is_empty, or_text}
pub use Whitespace.*
pub use Trimmed.*
pub use Worded.*
unfoldable pub use Whitespace.{is_white, trim_end, trim_start, trim, words_from, words}
pub use Numerals.*
unfoldable pub use Numerals.{
  is_digit, is_numeral, show_nat, parse_int, ends_with, includes, join, lower, match_after,
}
pub use Dicts.*
unfoldable pub use Dicts.{
  lookup, put, remove, reject_keys, merge, has_key, set_has, set_add, set_delete,
}
pub use Prim.Native.Nat.{ℕ, zero, suc, ◌+◌, ◌-◌, ◌*◌, ◌/◌, ◌%◌, ◌^◌, ◌≤◌, ◌<◌, min}
pub use Prim.Native.String.{String}
pub use mathlib.Core.Path.{◌≡◌, refl, sym, ap, ◌∙◌, subst}
pub use mathlib.Core.Logic.{◌≢◌, ◌↔◌, ◌⊎◌, inl, inr}
pub use mathlib.Core.Bool.{Bool, true, false, not, ◌&&◌, ◌||◌}
pub use mathlib.Core.Option.{Option, none, some}
pub use mathlib.Core.List.{List, [], ◌∷◌, ◌++◌, map}
pub use native.Mathlib.Omega.{arith}
