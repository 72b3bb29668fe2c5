-- ===== src/Snapz/Frames.antt =====
-- A `SNAPZ` line as its reader takes it apart.
use ewb_server.Base.{
  ℕ, zero, suc, ◌+◌, ◌*◌, ◌/◌, ◌%◌, ◌^◌, ◌<◌, ◌≡◌, ◌≢◌, refl, ℤ, List, [], ◌∷◌, ◌++◌, All,
  All-append, arith, length, drop, Text, codes, print_ℕ, ok, Bool, true, ◌&&◌, not, ◌==◌,
  Bool-cases, inl, inr,
}
use ewb_server.Region.{SnapRec}
use ewb_server.Snapz.{
  put_le_i32, pack_records, b64_encode, b64_decode, letter, snapz_line, encode_snapz,
}
use ewb_server.Snapz.Base64.{IsByte, letter_mod, b64_decode-b64_encode}
use ewb_server.Snapz.Integers.{IsI32, first_field, get_le_i32-put, put_le_i32-IsByte}

pub record IsRecord (r : SnapRec) : Type 0 where
  pub x : IsI32 r.x
  pub y : IsI32 r.y
  pub z : IsI32 r.z
  pub flag : IsI32 r.flag
  pub type : IsI32 r.type

-- What a client reads: `n` records of five little-endian integers.
abbrev pub records_in : ℕ → List ℕ → List SnapRec
records_in zero bytes = []
records_in (suc n) bytes =
    record {
      x = first_field bytes;
      y = first_field (drop 4 bytes);
      z = first_field (drop 8 bytes);
      flag = first_field (drop 12 bytes);
      type = first_field (drop 16 bytes);
    }
    ∷ records_in n (drop 20 bytes)

records_in-pack_records :
    (recs : List SnapRec) → All IsRecord recs → records_in (length recs) (pack_records recs) ≡ recs
unfolding pack_records put_le_i32
records_in-pack_records [] h = refl
records_in-pack_records (r ∷ rs) h =
    let v = h.0 in
    rw (
      get_le_i32-put r.x [] v.x,
      get_le_i32-put r.y [] v.y,
      get_le_i32-put r.z [] v.z,
      get_le_i32-put r.flag [] v.flag,
      get_le_i32-put r.type [] v.type,
      records_in-pack_records rs h.1,
    )

length-pack_records : (recs : List SnapRec) → length (pack_records recs) ≡ 20 * length recs
unfolding pack_records put_le_i32
length-pack_records [] = refl
length-pack_records (r ∷ rs) = omega (arith, length-pack_records rs)

field-IsByte : (n : ℤ) (rest : List ℕ) → All IsByte rest → All IsByte (put_le_i32 n ++ rest)
field-IsByte n rest h = All-append IsByte (put_le_i32 n) rest (put_le_i32-IsByte n) h

pack_records-IsByte : (recs : List SnapRec) → All IsByte (pack_records recs)
unfolding pack_records
pack_records-IsByte [] = tt
pack_records-IsByte (r ∷ rs) =
    let type_on = put_le_i32 r.type ++ pack_records rs in
    let flag_on = put_le_i32 r.flag ++ type_on in
    let z_on = put_le_i32 r.z ++ flag_on in
    field-IsByte r.x (put_le_i32 r.y ++ z_on) (
      field-IsByte r.y z_on (
        field-IsByte r.z flag_on (
          field-IsByte r.flag type_on
            (field-IsByte r.type (pack_records rs) (pack_records-IsByte rs)))))

-- No byte of the text ends a line.
abbrev pub IsLine : Text → Type 0
IsLine = All (λ c. c ≢ 10)

no_line_end : ℕ → Bool
no_line_end v = not (letter v == 10)

none_below : ℕ → Bool
none_below zero = true
none_below (suc n) = no_line_end n && none_below n

none_ends : none_below 64 ≡ true
unfolding none_below no_line_end letter
none_ends = refl

none_at : (n v : ℕ) → none_below n ≡ true → v < n → no_line_end v ≡ true
unfolding none_below
none_at zero v h l = absurd (omega arith)
none_at (suc n) v h l = elim (Bool-cases (v == n)) [
  | inl e ↦ (let same : v ≡ n = ground (arith, e) in rw same (ground (arith, h)))
  | inr e ↦ none_at n v (ground (arith, h)) (ground (arith, e))
]

letter-ne-10 : (n : ℕ) → letter n ≢ 10
unfolding no_line_end
letter-ne-10 n e =
    let h = none_at 64 (n % 64) none_ends (omega arith) in ground (arith, h, letter_mod n, e)

b64_encode-IsLine : (bytes : List ℕ) → IsLine (b64_encode bytes)
unfolding b64_encode
b64_encode-IsLine [] = tt
b64_encode-IsLine (a ∷ []) =
    let n = a * 0x1_0000 in (letter-ne-10 (n / 2 ^ 18), (letter-ne-10 (n / 2 ^ 12), tt))
b64_encode-IsLine (a ∷ b ∷ []) =
    let n = a * 0x1_0000 + b * 0x100 in
    (letter-ne-10 (n / 2 ^ 18), (letter-ne-10 (n / 2 ^ 12), (letter-ne-10 (n / 2 ^ 6), tt)))
b64_encode-IsLine (a ∷ b ∷ c ∷ rest) =
    let n = a * 0x1_0000 + b * 0x100 + c in
    (
      letter-ne-10 (n / 2 ^ 18),
      (
        letter-ne-10 (n / 2 ^ 12),
        (letter-ne-10 (n / 2 ^ 6), (letter-ne-10 n, b64_encode-IsLine rest)),
      ),
    )

-- How a client takes a line apart: one line, its record count, and a body that decodes and inflates
-- to 20 bytes for each record, which read back as the records.
pub record IsFrame (inflate : List ℕ → List ℕ) (line : Text) (recs : List SnapRec) : Type 0 where
  pub body : Text
  pub packed : List ℕ
  pub layout : line ≡ codes "SNAPZ:" ++ (print_ℕ (length recs) ++ (b':' ∷ (body ++ (10 ∷ []))))
  pub one_line : IsLine body
  pub decoded : b64_decode body ≡ ok packed
  pub size : length (inflate packed) ≡ 20 * length recs
  pub read : records_in (length recs) (inflate packed) ≡ recs

-- If `inflate` undoes `deflate` on bytes, and `deflate` gives bytes, then the line of any records of
-- 32-bit integers is one that a client reads back as those records.
pub encode_snapz-IsFrame :
    (deflate inflate : List ℕ → List ℕ)
    → ((raw : List ℕ) → All IsByte raw → All IsByte (deflate raw) × (inflate (deflate raw) ≡ raw))
    → (recs : List SnapRec) → All IsRecord recs
    → IsFrame inflate (encode_snapz deflate recs) recs
unfolding encode_snapz snapz_line
encode_snapz-IsFrame deflate inflate zlib recs h =
    let raw = pack_records recs in
    let (bytes, undone) = zlib raw (pack_records-IsByte recs) in
    record {
      body = b64_encode (deflate raw);
      packed = deflate raw;
      layout = refl;
      one_line = b64_encode-IsLine (deflate raw);
      decoded = b64_decode-b64_encode (deflate raw) bytes;
      size = rw undone (length-pack_records recs);
      read = rw undone (records_in-pack_records recs h);
    }
