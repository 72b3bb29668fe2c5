-- ===== src/Zones/Line.antt =====
-- A zone that is written as a line and read back.
use ewb_server.Base.{
  ℕ, suc, ◌≤◌, ◌≡◌, ◌≢◌, refl, ap, ◌∙◌, ℤ, pos, negsuc, leb_ℤ, ltb_ℤ, min_ℤ, max_ℤ, ◌≤ℤ◌, List, [],
  ◌∷◌, true, false, ◌&&◌, ◌||◌, not, if◌then◌else◌, ltb, ◌==◌, Text, All, length, arith,
  eq_of_parts, print_ℤ, ok, get_or, Bool-cases, inl, inr,
}
use ewb_server.Base.Decimal.RoundTrip.{
  parse_i64-print_ℤ, print_ℤ-IsNumeric, print_ℤ-ne-nil, IsI64, IsNumeric,
}
use ewb_server.Zones.{
  Zone, name_byte, all_name_bytes, zone_name_valid, fields, coordinate, flag_of, level_of,
  level_number, store_zone, build_zone, parse_fields, zone_parse_line, colon, flag_text, tail_text,
  zone_serialize_line, is_empty, zone_xz_max, zone_y_max,
}

-- A corner pair in order and in range.
pub record IsSide (top : ℕ) (lo hi : ℤ) : Type 0 where
  pub low : pos 0 ≤ℤ lo
  pub ordered : lo ≤ℤ hi
  pub high : hi ≤ℤ pos top

-- A zone that a file may hold: a legal name, normalised corners in the world, and a level of 0 to
-- 2, or none.
pub record IsZone (r : Zone) : Type 0 where
  pub name : zone_name_valid r.name ≡ true
  pub x : IsSide zone_xz_max r.x0 r.x1
  pub y : IsSide zone_y_max r.y0 r.y1
  pub z : IsSide zone_xz_max r.z0 r.z1
  pub level_low : pos 0 ≤ℤ r.level
  pub level_high : r.level ≤ℤ pos 2
  pub no_level : r.has_level ≡ false → r.level ≡ pos 0

abbrev pub NoColon : Text → Type 0
NoColon = All (λ c. c ≢ b':')

pub fields-colon : (s t : Text) → NoColon s → fields (colon s t) ≡ s ∷ fields t
unfolding fields
fields-colon [] t h = refl
fields-colon (c ∷ cs) t h = ground (arith, fields-colon cs t h.1, h.0)

pub fields_one : (s : Text) → NoColon s → fields s ≡ s ∷ []
unfolding fields
fields_one [] h = refl
fields_one (c ∷ cs) h = ground (arith, fields_one cs h.1, h.0)

name-NoColon : (s : Text) → all_name_bytes s ≡ true → NoColon s
unfolding all_name_bytes name_byte
name-NoColon [] h = tt
name-NoColon (c ∷ cs) h = (ground (arith, h), name-NoColon cs (ground (arith, h)))

pub print_ℤ-NoColon : (v : ℤ) → NoColon (print_ℤ v)
print_ℤ-NoColon v = All-numeric (print_ℤ v) (print_ℤ-IsNumeric v)
  where
    All-numeric : (s : Text) → All IsNumeric s → NoColon s
    All-numeric [] h = tt
    All-numeric (c ∷ cs) h = (ground (arith, h.0), All-numeric cs h.1)

pub nonempty_text : (s : Text) → s ≢ [] → is_empty s ≡ false
nonempty_text [] n = absurd (n refl)
nonempty_text (c ∷ cs) n = refl

print_ℤ_nonempty : (v : ℤ) → is_empty (print_ℤ v) ≡ false
print_ℤ_nonempty v = nonempty_text (print_ℤ v) (print_ℤ-ne-nil v)

coordinate-print_ℤ : (v : ℤ) → IsI64 v → coordinate (print_ℤ v) ≡ ok v
unfolding coordinate
coordinate-print_ℤ v h = rw (print_ℤ_nonempty v, parse_i64-print_ℤ v h)

level_number-print_ℤ : (v : ℤ) → IsI64 v → level_number (print_ℤ v) ≡ ok v
unfolding level_number
level_number-print_ℤ v h = rw (print_ℤ_nonempty v, parse_i64-print_ℤ v h)

flag_of-flag_text : (r : Zone) → flag_of (flag_text r) ≡ ok r.enforced
unfolding flag_of flag_text
flag_of-flag_text r = elim (Bool-cases r.enforced) [ inl e ↦ rw e refl | inr e ↦ rw e refl ]

flag_text-NoColon : (r : Zone) → NoColon (flag_text r)
unfolding flag_text
flag_text-NoColon r = elim (Bool-cases r.enforced) [
  | inl e ↦ rw e (omega arith, (omega arith, (omega arith, tt)))
  | inr e ↦ rw e (omega arith, (omega arith, (omega arith, tt)))
]

small-IsI64 : (n : ℕ) (v : ℤ) → n ≤ zone_xz_max → pos 0 ≤ℤ v → v ≤ℤ pos n → IsI64 v
small-IsI64 n (pos v) h a b = omega arith
small-IsI64 n (negsuc v) h a b = absurd (omega arith)

level_fields : Zone → List Text
level_fields r = if r.has_level then print_ℤ r.level ∷ [] else []

fields-tail_text : (r : Zone) → fields (tail_text r) ≡ flag_text r ∷ level_fields r
unfolding tail_text level_fields
fields-tail_text r = elim (Bool-cases r.has_level) [
  | inl e ↦ rw (
    e,
    fields-colon (flag_text r) (print_ℤ r.level) (flag_text-NoColon r),
    fields_one (print_ℤ r.level) (print_ℤ-NoColon r.level),
  )
  | inr e ↦ rw (e, fields_one (flag_text r) (flag_text-NoColon r))
]

name_bytes_valid : (s : Text) → zone_name_valid s ≡ true → all_name_bytes s ≡ true
unfolding zone_name_valid
name_bytes_valid s h = ground (arith, h)

fields-zone_serialize_line :
    (r : Zone)
    → IsZone r
    → fields (zone_serialize_line r)
      ≡ r.name
        ∷ print_ℤ r.x0
        ∷ print_ℤ r.y0
        ∷ print_ℤ r.z0
        ∷ print_ℤ r.x1
        ∷ print_ℤ r.y1
        ∷ print_ℤ r.z1
        ∷ flag_text r
        ∷ level_fields r
unfolding zone_serialize_line
fields-zone_serialize_line r v =
    let number : (v : ℤ) (t : Text) → fields (colon (print_ℤ v) t) ≡ print_ℤ v ∷ fields t =
      λ v t. fields-colon (print_ℤ v) t (print_ℤ-NoColon v) in
    rw (
      fields-colon r.name _ (name-NoColon r.name (name_bytes_valid r.name v.name)),
      number r.x0,
      number r.y0,
      number r.z0,
      number r.x1,
      number r.y1,
      number r.z1,
      fields-tail_text r,
    )

level_of-print_ℤ :
    (r : Zone)
    → IsZone r
    → level_of r.has_level (get_or (level_fields r) 0 []) ≡ ok (r.has_level, r.level)
unfolding level_of level_fields
level_of-print_ℤ r v = elim (Bool-cases r.has_level) [
  | inl e ↦
      (let n : level_number (print_ℤ r.level) ≡ ok r.level =
          level_number-print_ℤ r.level
            (small-IsI64 2 r.level (omega arith) v.level_low v.level_high) in
        let low : ltb_ℤ r.level (pos 0) ≡ false = ground (arith, v.level_low) in
        let high : ltb_ℤ (pos 2) r.level ≡ false = ground (arith, v.level_high) in
        rw (e, n, low, high))
  | inr e ↦ rw (e, v.no_level e)
]

side_range :
    (top : ℕ) (lo hi : ℤ)
    → IsSide top lo hi
    → ((leb_ℤ (pos 0) lo && leb_ℤ lo (pos top)) ≡ true)
      × ((leb_ℤ (pos 0) hi && leb_ℤ hi (pos top)) ≡ true)
side_range top lo hi s = ground (arith, s.low, s.ordered, s.high)

store_zone-fields :
    (r : Zone) (lv : Text)
    → IsZone r
    → level_of r.has_level lv ≡ ok (r.has_level, r.level)
    → store_zone r.name r.x0 r.y0 r.z0 r.x1 r.y1 r.z1 (flag_text r) r.has_level lv ≡ ok r
unfolding store_zone
store_zone-fields r lv v h =
    let (xl, xh) = side_range zone_xz_max r.x0 r.x1 v.x in
    let (yl, yh) = side_range zone_y_max r.y0 r.y1 v.y in
    let (zl, zh) = side_range zone_xz_max r.z0 r.z1 v.z in
    rw (xl, xh, yl, yh, zl, zh, flag_of-flag_text r, h)

min_side : (top : ℕ) (lo hi : ℤ) → IsSide top lo hi → (min_ℤ lo hi ≡ lo) × (max_ℤ lo hi ≡ hi)
min_side top lo hi s = ground (arith, s.ordered, eq_of_parts lo hi)

build_zone-fields :
    (r : Zone) (lv : Text)
    → IsZone r
    → level_of r.has_level lv ≡ ok (r.has_level, r.level)
    → build_zone r.name r.x0 r.y0 r.z0 r.x1 r.y1 r.z1 (flag_text r) r.has_level lv ≡ ok r
unfolding build_zone
build_zone-fields r lv v h =
    let (x0, x1) = min_side zone_xz_max r.x0 r.x1 v.x in
    let (y0, y1) = min_side zone_y_max r.y0 r.y1 v.y in
    let (z0, z1) = min_side zone_xz_max r.z0 r.z1 v.z in
    rw (x0, x1, y0, y1, z0, z1) (store_zone-fields r lv v h)

length-level_fields-le : (r : Zone) → length (level_fields r) ≤ 1
unfolding level_fields
length-level_fields-le r = ground arith

field_count :
    (r : Zone)
    → (suc (suc (suc (suc (suc (suc (suc (suc (length (level_fields r))))))))) == 9) ≡ r.has_level
unfolding level_fields
field_count r = elim (Bool-cases r.has_level) [ inl e ↦ rw e refl | inr e ↦ rw e refl ]

parse_fields-zone :
    (r : Zone)
    → IsZone r
    → parse_fields (
        r.name
        ∷ print_ℤ r.x0
        ∷ print_ℤ r.y0
        ∷ print_ℤ r.z0
        ∷ print_ℤ r.x1
        ∷ print_ℤ r.y1
        ∷ print_ℤ r.z1
        ∷ flag_text r
        ∷ level_fields r)
      ≡ ok r
unfolding parse_fields
parse_fields-zone r v =
    let few = length-level_fields-le r in
    let n : ℕ = suc (suc (suc (suc (suc (suc (suc (suc (length (level_fields r))))))))) in
    let count : not (ltb n 8 || ltb 9 n) ≡ true = ground arith in
    let read : (lo hi : ℤ) (top : ℕ)
        → top ≤ zone_xz_max
        → IsSide top lo hi
        → (coordinate (print_ℤ lo) ≡ ok lo) × (coordinate (print_ℤ hi) ≡ ok hi) =
      λ lo hi top small s. (
        coordinate-print_ℤ lo (small-IsI64 top lo small s.low (omega (arith, s.ordered, s.high))),
        coordinate-print_ℤ hi (small-IsI64 top hi small (omega (arith, s.low, s.ordered)) s.high),
      ) in
    let (x0, x1) = read r.x0 r.x1 zone_xz_max (omega arith) v.x in
    let (y0, y1) = read r.y0 r.y1 zone_y_max (omega arith) v.y in
    let (z0, z1) = read r.z0 r.z1 zone_xz_max (omega arith) v.z in
    rw (count, v.name, x0, y0, z0, x1, y1, z1, field_count r)
      (build_zone-fields r (get_or (level_fields r) 0 []) v (level_of-print_ℤ r v))

-- A legal zone that is written as a line and read back is the same zone.
pub zone_parse_line-serialize :
    (r : Zone) → IsZone r → zone_parse_line (zone_serialize_line r) ≡ ok r
unfolding zone_parse_line
zone_parse_line-serialize r v =
    ap parse_fields (fields-zone_serialize_line r v) ∙ parse_fields-zone r v
