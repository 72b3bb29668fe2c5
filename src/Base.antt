-- ===== src/Base.antt =====
-- The names that the other modules share: the libraries', passed on, and those of the children.
mod Tests
mod Lists
mod Int
mod Equality
mod Assoc
mod Bits
mod Errors
pub mod Decimal
pub use Tests.*
pub use Lists.*
pub use Int.{
  ℤ, pos, negsuc, pos_part, neg_part, sub_ℕ, ◌≤ℤ◌, ◌<ℤ◌, ltb_ℤ, leb_ℤ, eqb_ℤ, min_ℤ, max_ℤ,
  +ℤ_parts, -ℤ_parts, neg_parts, *ℤ_pos, eq_of_parts, int_laws, ltb_ℤ→lt, ltb_ℤ→le, leb_ℤ→le,
  leb_ℤ→lt,
}
pub use Equality.{Eq, nat_eq, Text, codes, text_beq, text_beq_iff, text_eq, text_ltb, ◌=?◌}
pub use Assoc.{
  lookup-insert, lookup-replace, lookup-erase, length-insert, length-replace, length-erase-le,
  All-insert,
}
pub use Errors.{
  Result, ok, err, ◌>>=◌, ◌>>◌, >>=-eq-ok, guard, of_option, Ensures, holds, rejected, Ensures-ok,
  Ensures-guard, Ensures-bind, any_result, Ensures-imp,
}
pub use Bits.{bit_or-zero, bit_xor-zero}
pub use Decimal.{is_digit, is_space, max_i64, at_nul}
unfoldable pub use Decimal.{print_ℕ, print_ℤ, scan, strtol, parse_i64}
unfoldable pub use Assoc.{lookup, insert, replace, erase}
unfoldable pub use Int.{◌+ℤ◌, ◌-ℤ◌, ◌*ℤ◌, neg}
pub use Prim.Native.Nat.{
  ℕ, zero, suc, ◌+◌, ◌-◌, ◌*◌, ◌/◌, ◌%◌, ◌^◌, ◌≤◌, ◌<◌, min, max, bit_xor, bit_or, bit_and,
}
pub use mathlib.Core.Path.{◌≡◌, refl, sym, ap, ap₂, ◌∙◌, subst}
pub use mathlib.Core.Logic.{◌≢◌, ◌↔◌, ◌⊎◌, inl, inr}
pub use mathlib.Core.Bool.{Bool, true, false, not, ◌&&◌, ◌||◌}
pub use mathlib.Core.Option.{Option, none, some}
pub use mathlib.Core.List.{List, [], ◌∷◌, ◌++◌, map, reverse, append-nil, append_assoc}
pub use native.Mathlib.Omega.{arith}
