-- ===== src/Snapz.antt =====
-- snapz_codec.h: base64, the packing of records and the `SNAPZ` line. zlib's deflate is a parameter.
pub mod Base64
pub mod Integers
pub mod Frames
mod Tests
use ewb_server.Base.{
  ℕ, zero, suc, ◌+◌, ◌-◌, ◌*◌, ◌/◌, ◌%◌, ◌^◌, ℤ, pos, negsuc, List, [], ◌∷◌, ◌++◌, Bool, true,
  false, ◌||◌, ◌&&◌, Option, none, some, ltb, leb, ◌==◌, if◌then◌else◌, length, get_or, Text, codes,
  print_ℕ, Result, ok, err, ◌>>=◌,
}
use ewb_server.Region.{SnapRec}

abbrev pub alphabet : Text
alphabet = codes "ABCDEFGHIJKLMNOPQRSTUVWXYZabcdefghijklmnopqrstuvwxyz0123456789+/"

-- `T[n & 63]`.
unfoldable pub letter : ℕ → ℕ
letter n = get_or alphabet (n % 64) 0

-- `|` of parts that share no bit is their sum.
unfoldable pub b64_encode : List ℕ → Text
unfolding letter
b64_encode [] = []
b64_encode (a ∷ []) = let n = a * 0x1_0000 in letter (n / 2 ^ 18) ∷ letter (n / 2 ^ 12) ∷ []
b64_encode (a ∷ b ∷ []) =
    let n = a * 0x1_0000 + b * 0x100 in
    letter (n / 2 ^ 18) ∷ letter (n / 2 ^ 12) ∷ letter (n / 2 ^ 6) ∷ []
b64_encode (a ∷ b ∷ c ∷ rest) =
    let n = a * 0x1_0000 + b * 0x100 + c in
    letter (n / 2 ^ 18) ∷ letter (n / 2 ^ 12) ∷ letter (n / 2 ^ 6) ∷ letter n ∷ b64_encode rest

unfoldable pub letter_value : ℕ → Option ℕ
letter_value c =
    if leb b'A' c && leb c b'Z'
    then some (c - b'A')
    else if leb b'a' c && leb c b'z'
    then some (c - b'a' + 26)
    else if leb b'0' c && leb c b'9'
    then some (c - b'0' + 52)
    else if c == b'+'
    then some 62
    else if c == b'/'
    then some 63
    else none

unfoldable pub is_ignored : ℕ → Bool
is_ignored c = (c == b'=') || (c == 10) || (c == 13) || (c == 32) || (c == 9)

-- `buf` is 32 bits wide; `bits` of it are not used up yet.
pub record Decoder : Type 0 where
  pub buf : ℕ
  pub bits : ℕ

unfoldable pub take_byte : Decoder → Decoder × List ℕ
take_byte d =
    if leb 8 d.bits
    then (record d { bits = d.bits - 8 }, (d.buf / 2 ^ (d.bits - 8) % 256) ∷ [])
    else (d, [])

take_value : Decoder → Option ℕ → Result Text (Decoder × List ℕ)
take_value d none = err (codes "bad base64 character")
take_value d (some v) =
    ok (take_byte (record { buf = (d.buf * 64 + v) % 2 ^ 32; bits = d.bits + 6 }))

unfoldable pub take_char : Decoder → ℕ → Result Text (Decoder × List ℕ)
unfolding take_value take_byte is_ignored letter_value
take_char d c = if is_ignored c then ok (d, []) else take_value d (letter_value c)

unfoldable pub decode_from : Decoder → Text → Result Text (List ℕ)
unfolding take_char
decode_from d [] = ok []
decode_from d (c ∷ cs) = do (d', out) ← take_char d c; rest ← decode_from d' cs; ok (out ++ rest)

unfoldable pub b64_decode : Text → Result Text (List ℕ)
unfolding decode_from
b64_decode s = decode_from (record { buf = 0; bits = 0 }) s

-- The cast to `uint32_t`.
unfoldable pub to_u32 : ℤ → ℕ
to_u32 (pos n) = n % 2 ^ 32
to_u32 (negsuc n) = 2 ^ 32 - 1 - n % 2 ^ 32

unfoldable pub put_le_i32 : ℤ → List ℕ
unfolding to_u32
put_le_i32 n =
    let u = to_u32 n in (u % 256) ∷ (u / 2 ^ 8 % 256) ∷ (u / 2 ^ 16 % 256) ∷ (u / 2 ^ 24 % 256) ∷ []

-- The cast to `int32_t`.
unfoldable pub to_i32 : ℕ → ℤ
to_i32 u = if ltb u (2 ^ 31) then pos u else negsuc (2 ^ 32 - 1 - u)

unfoldable pub get_le_i32 : ℕ → ℕ → ℕ → ℕ → ℤ
unfolding to_i32
get_le_i32 a b c d = to_i32 (a + b * 2 ^ 8 + c * 2 ^ 16 + d * 2 ^ 24)

unfoldable pub pack_records : List SnapRec → List ℕ
unfolding put_le_i32
pack_records [] = []
pack_records (r ∷ rs) =
    put_le_i32 r.x
    ++ (put_le_i32 r.y
        ++ (put_le_i32 r.z ++ (put_le_i32 r.flag ++ (put_le_i32 r.type ++ pack_records rs))))

unfoldable pub snapz_line : ℕ → List ℕ → Text
unfolding b64_encode
snapz_line n z = codes "SNAPZ:" ++ (print_ℕ n ++ (b':' ∷ (b64_encode z ++ (10 ∷ []))))

-- `deflate` is zlib's raw stream of the bytes at the encoder's level; the encoder object keeps a
-- buffer and a stream between calls, which a reset clears.
unfoldable pub encode_snapz : (List ℕ → List ℕ) → List SnapRec → Text
unfolding snapz_line pack_records
encode_snapz deflate recs = snapz_line (length recs) (deflate (pack_records recs))

unfoldable pub deflate_level_clamp : ℤ → ℤ
deflate_level_clamp (negsuc n) = pos 0
deflate_level_clamp (pos n) = if ltb 9 n then pos 9 else pos n
