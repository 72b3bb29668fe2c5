-- ===== src/Snapz/Integers.antt =====
-- The 32-bit fields of a record in their four bytes.
use ewb_server.Base.{
  ℕ, ◌+◌, ◌*◌, ◌/◌, ◌%◌, ◌^◌, ◌<◌, ◌≡◌, ap, ◌∙◌, ℤ, pos, negsuc, List, ◌∷◌, ◌++◌, All, arith,
}
use ewb_server.Snapz.{to_u32, put_le_i32, to_i32, get_le_i32}
use ewb_server.Snapz.Base64.{IsByte}

abbrev pub IsI32 : ℤ → Type 0
IsI32 (pos n) = n < 2 ^ 31
IsI32 (negsuc n) = n < 2 ^ 31

-- The four bytes of an integer, read back.
abbrev pub first_field : List ℕ → ℤ
first_field (a ∷ b ∷ c ∷ d ∷ rest) = get_le_i32 a b c d
first_field bytes = pos 0

to_u32-lt : (n : ℤ) → to_u32 n < 2 ^ 32
unfolding to_u32
to_u32-lt (pos n) = omega arith
to_u32-lt (negsuc n) = omega arith

four_bytes :
    (u : ℕ)
    → u < 2 ^ 32
    → u % 256 + u / 2 ^ 8 % 256 * 2 ^ 8 + u / 2 ^ 16 % 256 * 2 ^ 16 + u / 2 ^ 24 % 256 * 2 ^ 24 ≡ u
four_bytes u h = omega arith

to_i32-to_u32 : (n : ℤ) → IsI32 n → to_i32 (to_u32 n) ≡ n
unfolding to_i32 to_u32
to_i32-to_u32 (pos n) h = ground arith
to_i32-to_u32 (negsuc n) h = ground arith

pub get_le_i32-put : (n : ℤ) (rest : List ℕ) → IsI32 n → first_field (put_le_i32 n ++ rest) ≡ n
unfolding get_le_i32 put_le_i32
get_le_i32-put n rest h = ap to_i32 (four_bytes (to_u32 n) (to_u32-lt n)) ∙ to_i32-to_u32 n h

pub put_le_i32-IsByte : (n : ℤ) → All IsByte (put_le_i32 n)
unfolding put_le_i32
put_le_i32-IsByte n = (omega arith, (omega arith, (omega arith, (omega arith, tt))))
