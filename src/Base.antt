-- ===== src/Base.antt =====
-- Names that the other modules share: the libraries', passed on, and those of the children.
mod Tests
mod Lists
mod Strings
mod Int
mod Numbers
mod Sort
mod Space
mod Maps
mod Paths
pub use Tests.*
pub use Lists.*
unfoldable pub use Strings.{same, has_prefix, trim_prefix, contains, cut_at, cut, split, text_lt}
unfoldable pub use Space.{
  space_len, trim_from, trim_left, trim_right, trim_space, words, drop_cr, lines_of, scan_lines,
}
pub use Space.{
  unlines, IsLine, scan_lines-unlines, spaces, reverse_onto, reverse_all, trim_space-blank,
}
unfoldable pub use Maps.{lookup, store_field}
pub use Maps.{Fields, lookup-store}
unfoldable pub use Paths.{is_abs, clean, join}
unfoldable pub use Sort.{insert, sort}
pub use Paths.{IsSegment, join-last}
pub use Sort.{IsSorted, length-sort, All-sort, All-unsort, count-sort, sort-IsSorted, sort_congr}
pub use Strings.{
  Text, codes, same_refl, same_eq, same_iff, Eq, nat_eq, text_eq, is_empty, has_prefix-append,
  contains-append, lacks, split-append, cut_at-append, trim_prefix-append, text_lt_irrefl,
  text_lt_trans, text_lt_total, text_lt_asym, text_lt_co,
}
unfoldable pub use Int.{sub_int64, int64_of, mul_int64}
pub use Int.{ℤ, pos, negsuc, pos_part, neg_part, sub_ℕ, is_negative, eqb_ℤ}
unfoldable pub use Numbers.{atoi, scan_digits, parse_uint, parse_uint_below}
pub use Numbers.{
  parse_uint_below_lem, atoi_bounds, max_u64, max_i64, Number, syntax_error, range_error, value,
  is_digit, spelled,
}
pub use Prim.Native.Nat.{ℕ, zero, suc, ◌+◌, ◌-◌, ◌*◌, ◌/◌, ◌%◌, ◌^◌, ◌≤◌, ◌<◌, min}
pub use mathlib.Core.Path.{◌≡◌, refl, sym, ap, ◌∙◌, subst}
pub use mathlib.Core.Logic.{◌≢◌, ◌↔◌, ◌⊎◌, inl, inr}
pub use mathlib.Core.Bool.{Bool, true, false, not, ◌&&◌, ◌||◌}
pub use mathlib.Core.Option.{Option, none, some}
pub use mathlib.Core.List.{List, [], ◌∷◌, ◌++◌, map, append_assoc, append-nil}
pub use native.Mathlib.Omega.{arith}
