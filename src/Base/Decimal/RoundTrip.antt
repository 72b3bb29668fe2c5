-- ===== src/Base/Decimal/RoundTrip.antt =====
-- A number that is printed and read back.
use ewb_server.Base.Tests.{◌==◌}
use ewb_server.Base.Lists.{All, All-append, length, length-append}
use ewb_server.Base.Int.{ℤ, pos, negsuc}
use ewb_server.Base.Equality.{Text}
use ewb_server.Base.Decimal.{
  is_digit, digits, print_ℕ, print_ℤ, scan, starts_digit, strtol_digits, strtol, parse_i64, max_i64,
  clamp_i64, out_of_i64, accept, at_nul,
}
use Prim.Native.Nat.{ℕ, zero, suc, ◌+◌, ◌-◌, ◌*◌, ◌/◌, ◌%◌, ◌^◌, ◌≤◌, ◌<◌}
use mathlib.Core.Path.{◌≡◌, refl, sym, ◌∙◌, ap}
use mathlib.Core.Logic.{◌≢◌}
use mathlib.Core.Bool.{Bool, true, false, ◌||◌}
use mathlib.Core.List.{[], ◌∷◌, ◌++◌}
use mathlib.Core.Option.{some}
use native.Mathlib.Omega.{arith}

abbrev pub IsDigit : ℕ → Type 0
IsDigit c = is_digit c ≡ true

value : ℕ → Text → ℕ
value acc [] = acc
value acc (c ∷ cs) = value (acc * 10 + (c - b'0')) cs

value-append : (acc c : ℕ) (xs : Text) → value acc (xs ++ (c ∷ [])) ≡ value acc xs * 10 + (c - b'0')
unfolding value
value-append acc c [] = refl
value-append acc c (x ∷ xs) = value-append (acc * 10 + (x - b'0')) c xs

digits-IsDigit : (f n : ℕ) → All IsDigit (digits f n)
unfolding digits
digits-IsDigit zero n = tt
digits-IsDigit (suc f) n = ground (
  arith,
  digits-IsDigit f (n / 10),
  All-append IsDigit (digits f (n / 10)) ((b'0' + n % 10) ∷ []) (digits-IsDigit f (n / 10))
      (ground arith, tt),
)

value-digits : (f n : ℕ) → n < f → value 0 (digits f n) ≡ n
unfolding digits value
value-digits zero n h = absurd (omega arith)
value-digits (suc f) n h =
    ground (arith, value-append 0 (b'0' + n % 10) (digits f (n / 10)), value-digits f (n / 10))

scan-digits : (acc : ℕ) (xs : Text) → All IsDigit xs → scan acc xs ≡ (value acc xs, [])
unfolding scan value
scan-digits acc [] h = refl
scan-digits acc (c ∷ cs) h = rw h.0 (scan-digits (acc * 10 + (c - b'0')) cs h.1)

starts_digit-append :
    (xs : Text) (c : ℕ) → All IsDigit xs → IsDigit c → starts_digit (xs ++ (c ∷ [])) ≡ true
unfolding starts_digit
starts_digit-append [] c h hc = hc
starts_digit-append (x ∷ xs) c h hc = h.0

starts_digit-digits : (f n : ℕ) → n < f → starts_digit (digits f n) ≡ true
unfolding digits starts_digit
starts_digit-digits zero n h = absurd (omega arith)
starts_digit-digits (suc f) n h = ground (
  arith,
  starts_digit-append (digits f (n / 10)) (b'0' + n % 10) (digits-IsDigit f (n / 10))
      (ground arith),
)

starts_digit-print_ℕ : (n : ℕ) → starts_digit (print_ℕ n) ≡ true
unfolding print_ℕ
starts_digit-print_ℕ n = starts_digit-digits (suc n) n (omega arith)

scan-print_ℕ : (n : ℕ) → scan 0 (print_ℕ n) ≡ (n, [])
unfolding print_ℕ
scan-print_ℕ n =
    scan-digits 0 (digits (suc n) n) (digits-IsDigit (suc n) n)
    ∙ ap (λ (k : ℕ). (k, [])) (value-digits (suc n) n (omega arith))

strtol-digits : (s : Text) → starts_digit s ≡ true → strtol s ≡ strtol_digits false s
unfolding strtol starts_digit
strtol-digits [] h = refl
strtol-digits (c ∷ cs) h = ground arith

-- A number that is printed has digits only, and one at least.
pub print_ℕ-IsDigit : (n : ℕ) → All IsDigit (print_ℕ n)
unfolding print_ℕ
print_ℕ-IsDigit n = digits-IsDigit (suc n) n

starts_digit-ne-nil : (s : Text) → starts_digit s ≡ true → s ≢ []
unfolding starts_digit
starts_digit-ne-nil [] h e = cc
starts_digit-ne-nil (c ∷ cs) h e = cc

pub print_ℕ-ne-nil : (n : ℕ) → print_ℕ n ≢ []
print_ℕ-ne-nil n = starts_digit-ne-nil (print_ℕ n) (starts_digit-print_ℕ n)

strtol_digits-print_ℕ :
    (minus : Bool) (n : ℕ)
    → strtol_digits minus (print_ℕ n)
      ≡ record { value = clamp_i64 minus n; found = true; rest = []; range = out_of_i64 minus n }
unfolding strtol_digits
strtol_digits-print_ℕ minus n = rw (scan-print_ℕ n, starts_digit-print_ℕ n)

parse_i64-pos : (n : ℕ) → n ≤ max_i64 → parse_i64 (print_ℕ n) ≡ some (pos n)
unfolding parse_i64 clamp_i64 out_of_i64
parse_i64-pos n h =
    ap accept (strtol-digits (print_ℕ n) (starts_digit-print_ℕ n) ∙ strtol_digits-print_ℕ false n)
    ∙ ground arith

parse_i64-negsuc : (n : ℕ) → n ≤ max_i64 → parse_i64 (b'-' ∷ print_ℕ (suc n)) ≡ some (negsuc n)
unfolding parse_i64 clamp_i64 out_of_i64 strtol
parse_i64-negsuc n h = ap accept (strtol_digits-print_ℕ true (suc n)) ∙ ground arith

-- `int64_t` holds the value.
abbrev pub IsI64 : ℤ → Type 0
IsI64 (pos n) = n ≤ max_i64
IsI64 (negsuc n) = n ≤ max_i64

-- `strtoll` reads back what `std::to_string` wrote, for every `int64_t`.
pub parse_i64-print_ℤ : (v : ℤ) → IsI64 v → parse_i64 (print_ℤ v) ≡ some v
unfolding print_ℤ
parse_i64-print_ℤ (pos n) h = parse_i64-pos n h
parse_i64-print_ℤ (negsuc n) h = parse_i64-negsuc n h

-- The parts of a number that was accepted.
pub parse_i64-parts :
    (s : Text) (v : ℤ)
    → parse_i64 s ≡ some v
    → ((strtol s).found ≡ true) × (at_nul (strtol s).rest ≡ true) × ((strtol s).value ≡ v)
unfolding parse_i64 accept
parse_i64-parts s v h = (ground (arith, h), ground (arith, h), ground (arith, h))

-- A printed integer holds none of the bytes that the formats use to separate fields.
abbrev pub IsNumeric : ℕ → Type 0
IsNumeric c = (is_digit c || (c == b'-')) ≡ true

digits-IsNumeric : (s : Text) → All IsDigit s → All IsNumeric s
digits-IsNumeric [] h = tt
digits-IsNumeric (c ∷ cs) h = (rw h.0, digits-IsNumeric cs h.1)

pub print_ℤ-IsNumeric : (v : ℤ) → All IsNumeric (print_ℤ v)
unfolding print_ℤ
print_ℤ-IsNumeric (pos n) = digits-IsNumeric (print_ℕ n) (print_ℕ-IsDigit n)
print_ℤ-IsNumeric (negsuc n) = (refl, digits-IsNumeric (print_ℕ (suc n)) (print_ℕ-IsDigit (suc n)))

pub print_ℤ-ne-nil : (v : ℤ) → print_ℤ v ≢ []
unfolding print_ℤ
print_ℤ-ne-nil (pos n) e = print_ℕ-ne-nil n e
print_ℤ-ne-nil (negsuc n) e = cc

-- No two numbers print alike.
pub print_ℕ-injective : (m n : ℕ) → print_ℕ m ≡ print_ℕ n → m ≡ n
print_ℕ-injective m n e =
    let read : (ℕ × Text) → ℕ = λ p. p.0 in
    ap read (sym (scan-print_ℕ m) ∙ ap (scan 0) e ∙ scan-print_ℕ n)

length-snoc : (xs : Text) (c : ℕ) → length (xs ++ (c ∷ [])) ≡ length xs + 1
length-snoc xs c = length-append xs (c ∷ [])

length-digits : (k f n : ℕ) → n < 10 ^ suc k → length (digits f n) ≤ suc k
unfolding digits
length-digits k zero n h = omega arith
length-digits zero (suc f) n h = ground arith
length-digits (suc k) (suc f) n h =
    ground (arith, length-digits k f (n / 10), length-snoc (digits f (n / 10)) (b'0' + n % 10))

-- A number below 10 ^ k has k digits at most.
pub length-print_ℕ : (k n : ℕ) → n < 10 ^ suc k → length (print_ℕ n) ≤ suc k
unfolding print_ℕ
length-print_ℕ k n h = length-digits k (suc n) n h
