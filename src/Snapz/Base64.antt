-- ===== src/Snapz/Base64.antt =====
-- Bytes that are written in base64 and read back.
use ewb_server.Base.{
  ℕ, zero, suc, ◌+◌, ◌*◌, ◌/◌, ◌%◌, ◌^◌, ◌<◌, ◌≡◌, refl, ap, ap₂, ◌∙◌, inl, inr, List, [], ◌∷◌,
  ◌++◌, Bool, true, false, not, ◌&&◌, Option, none, some, ◌==◌, All, Text, arith, ok, Bool-cases,
}
use ewb_server.Snapz.{
  letter, b64_encode, letter_value, is_ignored, Decoder, take_byte, take_value, take_char,
  decode_from, b64_decode,
}

abbrev pub IsByte : ℕ → Type 0
IsByte b = b < 256

abbrev is_value : ℕ → Option ℕ → Bool
is_value v none = false
is_value v (some w) = v == w

-- The decoder knows the letter of `v`.
letter_known : ℕ → Bool
letter_known v = not (is_ignored (letter v)) && is_value v (letter_value (letter v))

known_below : ℕ → Bool
known_below zero = true
known_below (suc n) = letter_known n && known_below n

all_known : known_below 64 ≡ true
unfolding known_below letter_known letter letter_value is_ignored
all_known = refl

known_at : (n v : ℕ) → known_below n ≡ true → v < n → letter_known v ≡ true
unfolding known_below
known_at zero v h l = absurd (omega arith)
known_at (suc n) v h l = elim (Bool-cases (v == n)) [
  | inl e ↦ (let same : v ≡ n = ground (arith, e) in rw same (ground (arith, h)))
  | inr e ↦ known_at n v (ground (arith, h)) (ground (arith, e))
]

is_value-some : (v : ℕ) (o : Option ℕ) → is_value v o ≡ true → o ≡ some v
is_value-some v none h = cc
is_value-some v (some w) h = ap some (ground (arith, h))

pub letter_mod : (n : ℕ) → letter n ≡ letter (n % 64)
unfolding letter
letter_mod n = let e : n % 64 % 64 ≡ n % 64 = omega arith in rw e

-- A written value is taken in as it is.
take_char-letter :
    (d : Decoder) (n : ℕ)
    → take_char d (letter n)
      ≡ ok (take_byte (record { buf = (d.buf * 64 + n % 64) % 2 ^ 32; bits = d.bits + 6 }))
unfolding take_char take_value letter_known
take_char-letter d n =
    let known = known_at 64 (n % 64) all_known (omega arith) in
    let plain : is_ignored (letter (n % 64)) ≡ false = ground (arith, known) in
    let same : letter_value (letter (n % 64)) ≡ some (n % 64) =
      is_value-some (n % 64) (letter_value (letter (n % 64))) (ground (arith, known)) in
    rw (letter_mod n, plain, same)

first_byte :
    (buf v w : ℕ)
    → v < 64
    → w < 64
    → ((buf * 64 + v) % 2 ^ 32 * 64 + w) % 2 ^ 32 / 2 ^ 4 % 256 ≡ v * 4 + w / 16
first_byte buf v w h k = omega arith

second_byte :
    (buf v w : ℕ)
    → v < 64
    → w < 64
    → ((buf * 64 + v) % 2 ^ 32 * 64 + w) % 2 ^ 32 / 2 ^ 2 % 256 ≡ v % 16 * 16 + w / 4
second_byte buf v w h k = omega arith

third_byte :
    (buf v w : ℕ)
    → v < 64
    → w < 64
    → ((buf * 64 + v) % 2 ^ 32 * 64 + w) % 2 ^ 32 / 2 ^ 0 % 256 ≡ v % 4 * 64 + w
third_byte buf v w h k = omega arith

-- The first, second and third byte of a group of 24 bits, from its four values.
group_bytes :
    (a b c : ℕ)
    → IsByte a
    → IsByte b
    → IsByte c
    → (let n = a * 0x1_0000 + b * 0x100 + c in
        (n / 2 ^ 18 % 64 * 4 + n / 2 ^ 12 % 64 / 16 ≡ a)
        × (n / 2 ^ 12 % 64 % 16 * 16 + n / 2 ^ 6 % 64 / 4 ≡ b)
        × (n / 2 ^ 6 % 64 % 4 * 64 + n % 64 ≡ c))
group_bytes a b c h k l = (omega arith, omega arith, omega arith)

one_byte : (a : ℕ) → IsByte a → a * 0x1_0000 / 2 ^ 18 % 64 * 4 + a * 0x1_0000 / 2 ^ 12 % 64 / 16 ≡ a
one_byte a h = omega arith

two_bytes :
    (a b : ℕ)
    → IsByte a
    → IsByte b
    → (let n = a * 0x1_0000 + b * 0x100 in
        (n / 2 ^ 18 % 64 * 4 + n / 2 ^ 12 % 64 / 16 ≡ a)
        × (n / 2 ^ 12 % 64 % 16 * 16 + n / 2 ^ 6 % 64 / 4 ≡ b))
two_bytes a b h k = (omega arith, omega arith)

abbrev pushed : ℕ → ℕ → ℕ
pushed buf n = (buf * 64 + n % 64) % 2 ^ 32

decode_letter :
    (buf bits n : ℕ) (rest : Text) (r : List ℕ)
    → decode_from (take_byte (record { buf = pushed buf n; bits = bits + 6 })).0 rest ≡ ok r
    → decode_from (record { buf = buf; bits = bits }) (letter n ∷ rest)
      ≡ ok ((take_byte (record { buf = pushed buf n; bits = bits + 6 })).1 ++ r)
unfolding decode_from
decode_letter buf bits n rest r h = rw (take_char-letter (record { buf = buf; bits = bits }) n, h)

-- The letters of `k`, `l` and `m` at the start of a group.
decode_one :
    (buf k l : ℕ) (rest : Text) (r : List ℕ)
    → decode_from (record { buf = pushed (pushed buf k) l; bits = 4 }) rest ≡ ok r
    → decode_from (record { buf = buf; bits = 0 }) (letter k ∷ letter l ∷ rest)
      ≡ ok ((k % 64 * 4 + l % 64 / 16) ∷ r)
unfolding take_byte
decode_one buf k l rest r h =
    decode_letter buf 0 k (letter l ∷ rest) _ (decode_letter (pushed buf k) 6 l rest r h)
    ∙ ap (λ (b : ℕ). ok (b ∷ r)) (first_byte buf (k % 64) (l % 64) (omega arith) (omega arith))

decode_two :
    (buf k l m : ℕ) (rest : Text) (r : List ℕ)
    → decode_from (record { buf = pushed (pushed (pushed buf k) l) m; bits = 2 }) rest ≡ ok r
    → decode_from (record { buf = buf; bits = 0 }) (letter k ∷ letter l ∷ letter m ∷ rest)
      ≡ ok ((k % 64 * 4 + l % 64 / 16) ∷ (l % 64 % 16 * 16 + m % 64 / 4) ∷ r)
unfolding take_byte
decode_two buf k l m rest r h =
    decode_one buf k l (letter m ∷ rest) _ (decode_letter (pushed (pushed buf k) l) 4 m rest r h)
    ∙ ap (λ (b : ℕ). ok ((k % 64 * 4 + l % 64 / 16) ∷ b ∷ r))
        (second_byte (pushed buf k) (l % 64) (m % 64) (omega arith) (omega arith))

decode_three :
    (buf k l m n : ℕ) (rest : Text) (r : List ℕ)
    → ((b : ℕ) → decode_from (record { buf = b; bits = 0 }) rest ≡ ok r)
    → decode_from
        (record { buf = buf; bits = 0 })
        (letter k ∷ letter l ∷ letter m ∷ letter n ∷ rest)
      ≡ ok (
          (k % 64 * 4 + l % 64 / 16)
          ∷ (l % 64 % 16 * 16 + m % 64 / 4)
          ∷ (m % 64 % 4 * 64 + n % 64)
          ∷ r)
unfolding take_byte
decode_three buf k l m n rest r h =
    decode_two buf k l m (letter n ∷ rest) _
      (decode_letter (pushed (pushed (pushed buf k) l) m) 2 n rest r (h _))
    ∙ ap (λ (b : ℕ). ok ((k % 64 * 4 + l % 64 / 16) ∷ (l % 64 % 16 * 16 + m % 64 / 4) ∷ b ∷ r))
        (third_byte (pushed (pushed buf k) l) (m % 64) (n % 64) (omega arith) (omega arith))

decode_from-b64_encode :
    (bytes : List ℕ) (buf : ℕ)
    → All IsByte bytes
    → decode_from (record { buf = buf; bits = 0 }) (b64_encode bytes) ≡ ok bytes
unfolding b64_encode decode_from
decode_from-b64_encode [] buf h = refl
decode_from-b64_encode (a ∷ []) buf h =
    let n = a * 0x1_0000 in
    decode_one buf (n / 2 ^ 18) (n / 2 ^ 12) [] [] refl
    ∙ ap (λ (x : ℕ). ok (x ∷ [])) (one_byte a h.0)
decode_from-b64_encode (a ∷ b ∷ []) buf h =
    let n = a * 0x1_0000 + b * 0x100 in
    let (e, f) = two_bytes a b h.0 h.1.0 in
    decode_two buf (n / 2 ^ 18) (n / 2 ^ 12) (n / 2 ^ 6) [] [] refl
    ∙ ap₂ (λ (x y : ℕ). ok (x ∷ y ∷ [])) e f
decode_from-b64_encode (a ∷ b ∷ c ∷ rest) buf h =
    let n = a * 0x1_0000 + b * 0x100 + c in
    let (e, f, g) = group_bytes a b c h.0 h.1.0 h.1.1.0 in
    decode_three buf (n / 2 ^ 18) (n / 2 ^ 12) (n / 2 ^ 6) n (b64_encode rest) rest
      (λ k. decode_from-b64_encode rest k h.1.1.1)
    ∙ ap₂ (λ (x y : ℕ). ok (x ∷ y ∷ (n / 2 ^ 6 % 64 % 4 * 64 + n % 64) ∷ rest)) e f
    ∙ ap (λ (z : ℕ). ok (a ∷ b ∷ z ∷ rest)) g

-- Every byte string comes back from its base64 text.
pub b64_decode-b64_encode :
    (bytes : List ℕ) → All IsByte bytes → b64_decode (b64_encode bytes) ≡ ok bytes
unfolding b64_decode
b64_decode-b64_encode bytes h = decode_from-b64_encode bytes 0 h
