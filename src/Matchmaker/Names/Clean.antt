-- ===== src/Matchmaker/Names/Clean.antt =====
-- What a cleaned name and a slug can hold.
use ewb_server.Base.{
  ℕ, zero, suc, ◌+◌, ◌≤◌, ◌≡◌, ◌≢◌, refl, [], ◌∷◌, reverse, true, false, ◌&&◌, ◌||◌, not, All,
  All-append, length, length-append, length-drop, drop, ltb, ◌==◌, arith, inl, inr, Bool-cases,
  Text,
}
use mathlib.Core.List.{reverse-cons}
use ewb_server.Zones.{is_empty}
use ewb_server.Matchmaker.{max_name_len, max_slug_len}
use ewb_server.Matchmaker.Names.{
  Cleaned, cont_run, trim_at, code_width, trim_partial_utf8, put, put_after, name_step, clean_bytes,
  sanitize_name, is_alnum, to_lower, slug_step, slug_bytes, or_world, world_slug,
}

-- No byte that ends a field or a line, and no other control byte.
abbrev pub IsShown : ℕ → Type 0
IsShown c = (c ≢ b':') × (32 ≤ c) × (c ≢ 0x7f)

abbrev pub IsSlugByte : ℕ → Type 0
IsSlugByte c = (c ≢ b'/') × (c ≢ b'.') × ((is_alnum c && (to_lower c == c)) || (c == b'_') ≡ true)

All-drop {ℓ} : (P : ℕ → Type ℓ) (n : ℕ) (s : Text) → All P s → All P (drop n s)
All-drop P zero s h = h
All-drop P (suc n) [] h = h
All-drop P (suc n) (c ∷ cs) h = All-drop P n cs h.1

pub All-reverse {ℓ} : (P : ℕ → Type ℓ) (s : Text) → All P s → All P (reverse s)
All-reverse P [] h = tt
All-reverse P (c ∷ cs) h =
    rw (reverse-cons c cs) (All-append P (reverse cs) (c ∷ []) (All-reverse P cs h.1) (h.0, tt))

pub length-reverse : (s : Text) → length (reverse s) ≡ length s
length-reverse [] = refl
length-reverse (c ∷ cs) =
    rw (reverse-cons c cs) (omega (arith, length-append (reverse cs) (c ∷ []), length-reverse cs))

-- A property of the bytes and a bound on the length carry over to what is left.
pub record Fits (P : ℕ → Type 0) (cap : ℕ) (s : Text) : Type 0 where
  pub bytes : All P s
  pub short : length s ≤ cap

trim_at-Fits :
    (P : ℕ → Type 0) (cap cont : ℕ) (s r : Text)
    → Fits P cap s
    → Fits P cap r
    → Fits P cap (trim_at s cont r)
unfolding trim_at
trim_at-Fits P cap cont s [] h k = record { bytes = tt; short = omega arith }
trim_at-Fits P cap cont s (lead ∷ before) h k =
    let whole : Fits P cap (reverse (lead ∷ before)) = record {
      bytes = All-reverse P (lead ∷ before) k.bytes;
      short = omega (arith, length-reverse (lead ∷ before), k.short);
    } in
    let cut : Fits P cap (reverse before) = record {
      bytes = All-reverse P before (k.bytes).1;
      short = omega (arith, length-reverse before, k.short);
    } in
    elim (Bool-cases (ltb lead 0x80)) [
      | inl y ↦ rw y whole
      | inr n ↦
          rw n (elim (Bool-cases ((code_width lead == 0) || not (cont + 1 == code_width lead))) [
            | inl y ↦ rw y cut
            | inr m ↦ rw m h
          ])
    ]

trim_partial_utf8-Fits :
    (P : ℕ → Type 0) (cap : ℕ) (s : Text) → Fits P cap s → Fits P cap (trim_partial_utf8 s)
unfolding trim_partial_utf8
trim_partial_utf8-Fits P cap s h =
    let cont = cont_run 3 (reverse s) in
    trim_at-Fits P cap cont s (drop cont (reverse s)) h (record {
      bytes = All-drop P cont (reverse s) (All-reverse P s h.bytes);
      short = omega (arith, length-drop cont (reverse s), length-reverse s, h.short);
    })

put-Fits : (P : ℕ → Type 0) (cap c : ℕ) (s : Text) → P c → Fits P cap s → Fits P cap (put cap c s)
put-Fits P cap c s p h = elim (Bool-cases (ltb (length s) cap)) [
  | inl y ↦ rw y (record {
    bytes = All-append P s (c ∷ []) h.bytes (p, tt);
    short = ground (arith, y, length-append s (c ∷ []));
  })
  | inr n ↦ rw n h
]

put_after-Fits :
    (P : ℕ → Type 0) (cap gap c : ℕ) (s : Cleaned)
    → P gap
    → P c
    → Fits P cap s.out
    → Fits P cap (put_after cap gap c s).out
unfolding put_after
put_after-Fits P cap gap c s g p h = elim (Bool-cases (s.pending && not (is_empty s.out))) [
  | inl y ↦ rw y (put-Fits P cap c (put cap gap s.out) p (put-Fits P cap gap s.out g h))
  | inr n ↦ rw n (put-Fits P cap c s.out p h)
]

clean_bytes-Fits :
    (cs : Text) (s : Cleaned)
    → Fits IsShown max_name_len s.out
    → Fits IsShown max_name_len (clean_bytes cs s).out
unfolding clean_bytes
clean_bytes-Fits [] s h = h
clean_bytes-Fits (c ∷ cs) s h = clean_bytes-Fits cs (name_step c s) (stepped s h)
  where
    stepped :
        (s : Cleaned)
        → Fits IsShown max_name_len s.out
        → Fits IsShown max_name_len (name_step c s).out
    stepped s h =
        unfold name_step in
        elim (Bool-cases (c == b':')) [
          | inl y ↦ rw y h
          | inr n ↦ rw n (elim (Bool-cases ((c == 32) || (c == 9))) [
            | inl y ↦ rw y h
            | inr k ↦ rw k (elim (Bool-cases (ltb c 0x20 || (c == 0x7f))) [
              | inl y ↦ rw y h
              | inr m ↦ rw m (
                  put_after-Fits IsShown max_name_len 32 c s (omega arith, omega arith, omega arith)
                    (ground (arith, n), ground (arith, m), ground (arith, m)) h)
            ])
          ])
        ]

-- A display name holds 48 bytes at most, and no colon or control byte: it cannot forge a field of a
-- row, nor a line.
pub sanitize_name-Fits : (s : Text) → Fits IsShown max_name_len (sanitize_name s)
unfolding sanitize_name
sanitize_name-Fits s = trim_partial_utf8-Fits IsShown max_name_len _ (
    clean_bytes-Fits s (record { out = []; pending = false })
      (record { bytes = tt; short = omega arith }))

slug_bytes-Fits :
    (cs : Text) (s : Cleaned)
    → Fits IsSlugByte max_slug_len s.out
    → Fits IsSlugByte max_slug_len (slug_bytes cs s).out
unfolding slug_bytes
slug_bytes-Fits [] s h = h
slug_bytes-Fits (c ∷ cs) s h = slug_bytes-Fits cs (slug_step c s) (stepped s h)
  where
    stepped :
        (s : Cleaned)
        → Fits IsSlugByte max_slug_len s.out
        → Fits IsSlugByte max_slug_len (slug_step c s).out
    stepped s h =
        unfold slug_step in
        elim (Bool-cases (is_alnum c)) [
          | inl y ↦ rw y (
              put_after-Fits IsSlugByte max_slug_len b'_' (to_lower c) s
                (omega arith, omega arith, refl)
                (ground (arith, y), ground (arith, y), ground (arith, y)) h)
          | inr n ↦ rw n h
        ]

-- The name of a world's file is never empty, holds 40 bytes at most, and no byte but lower-case
-- letters, digits and underscores: no slash and no dot, so it names no other directory.
pub world_slug-Fits : (s : Text) → (world_slug s ≢ []) × Fits IsSlugByte max_slug_len (world_slug s)
unfolding world_slug
world_slug-Fits s = finished (slug_bytes s (record { out = []; pending = false })).out (
    slug_bytes-Fits s (record { out = []; pending = false })
      (record { bytes = tt; short = omega arith }))
  where
    finished :
        (t : Text)
        → Fits IsSlugByte max_slug_len t
        → (or_world t ≢ []) × Fits IsSlugByte max_slug_len (or_world t)
    finished [] h =
        unfold or_world in
        (
          (λ e. cc),
          record {
            bytes = (
              (omega arith, omega arith, refl),
              (
                (omega arith, omega arith, refl),
                (
                  (omega arith, omega arith, refl),
                  ((omega arith, omega arith, refl), ((omega arith, omega arith, refl), tt)),
                ),
              ),
            );
            short = omega arith;
          },
        )
    finished (c ∷ cs) h = unfold or_world in ((λ e. cc), h)
