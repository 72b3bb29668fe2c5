-- ===== src/Base/Decimal.antt =====
-- Decimal text: `std::to_string`, and `strtoll` in base 10 with the checks that the code puts round it.
pub mod RoundTrip
use ewb_server.Base.Tests.{ltb, leb, ◌==◌, if◌then◌else◌}
use ewb_server.Base.Int.{ℤ, pos, negsuc}
use ewb_server.Base.Equality.{Text}
use Prim.Native.Nat.{ℕ, zero, suc, ◌+◌, ◌-◌, ◌*◌, ◌/◌, ◌%◌}
use mathlib.Core.Bool.{Bool, true, false, not, ◌&&◌, ◌||◌}
use mathlib.Core.List.{[], ◌∷◌, ◌++◌}
use mathlib.Core.Option.{Option, none, some}

abbrev pub is_digit : ℕ → Bool
is_digit c = leb b'0' c && leb c b'9'

-- C's `isspace`, which `strtoll` skips.
abbrev pub is_space : ℕ → Bool
is_space c = (c == 32) || (leb 9 c && leb c 13)

digits : ℕ → ℕ → Text
digits zero n = []
digits (suc fuel) n =
    let more = digits fuel (n / 10) ++ ((b'0' + n % 10) ∷ []) in
    if ltb n 10 then (b'0' + n) ∷ [] else more

-- `std::to_string` of a number that is not negative. `suc n` rounds are enough for `n`.
unfoldable pub print_ℕ : ℕ → Text
unfolding digits
print_ℕ n = digits (suc n) n

unfoldable pub print_ℤ : ℤ → Text
unfolding print_ℕ
print_ℤ (pos n) = print_ℕ n
print_ℤ (negsuc n) = b'-' ∷ print_ℕ (suc n)

-- The digits at the front, read onto `acc`, and what stands behind them.
unfoldable pub scan : ℕ → Text → ℕ × Text
scan acc [] = (acc, [])
scan acc (c ∷ cs) = if is_digit c then scan (acc * 10 + (c - b'0')) cs else (acc, c ∷ cs)

-- What `strtoll(s, &end, 10)` leaves: the value, whether a digit was read at all (`end != s`), the
-- text from `end` on, and whether `errno` is `ERANGE`.
pub record Strtol : Type 0 where
  pub value : ℤ
  pub found : Bool
  pub rest : Text
  pub range : Bool

abbrev pub max_i64 : ℕ
max_i64 = 0x7fff_ffff_ffff_ffff

-- Out of range the value is the nearest bound.
clamp_i64 : Bool → ℕ → ℤ
clamp_i64 false n = if leb n max_i64 then pos n else pos max_i64
clamp_i64 true zero = pos 0
clamp_i64 true (suc n) = if leb n max_i64 then negsuc n else negsuc max_i64

out_of_i64 : Bool → ℕ → Bool
out_of_i64 false n = ltb max_i64 n
out_of_i64 true n = ltb (suc max_i64) n

starts_digit : Text → Bool
starts_digit [] = false
starts_digit (c ∷ cs) = is_digit c

-- At the first byte that is no space and no sign.
strtol_digits : Bool → Text → Strtol
unfolding clamp_i64 out_of_i64 starts_digit scan
strtol_digits minus s =
    let (n, rest) = scan 0 s in
    record {
      value = clamp_i64 minus n;
      found = starts_digit s;
      rest = rest;
      range = out_of_i64 minus n;
    }

unfoldable pub strtol : Text → Strtol
unfolding strtol_digits
strtol [] = strtol_digits false []
strtol (c ∷ cs) =
    if is_space c
    then strtol cs
    else if c == b'-'
    then strtol_digits true cs
    else if c == b'+'
    then strtol_digits false cs
    else strtol_digits false (c ∷ cs)

abbrev pub at_nul : Text → Bool
at_nul [] = true
at_nul (c ∷ cs) = c == 0

-- `end == s || *end != '\0' || errno == ERANGE` refuses. `*end` is 0 at the end of the string, and
-- also at a NUL byte inside it.
accept : Strtol → Option ℤ
accept r = if not r.found || not (at_nul r.rest) || r.range then none else some r.value

unfoldable pub parse_i64 : Text → Option ℤ
unfolding strtol accept
parse_i64 s = accept (strtol s)
