-- ===== src/Region/Cells.antt =====
-- region_query.h: the records of one cell, and how many lines a reply takes.
use ewb_server.Base.{
  ℕ, ◌+◌, ◌-◌, ◌*◌, ◌/◌, ◌≤◌, ◌<◌, ◌≡◌, ◌≢◌, refl, ◌⊎◌, inl, inr, ℤ, pos, negsuc, List, [], ◌∷◌,
  Bool, true, ◌&&◌, not, leb, ◌==◌, if◌then◌else◌, All, arith, Bool-cases,
}
use ewb_server.Region.{SnapRec, snapz_frame_records}

abbrev pub snap_flag_solid : ℤ
snap_flag_solid = pos 0

abbrev pub snap_flag_air : ℤ
snap_flag_air = pos 1

abbrev pub snap_flag_paint : ℤ
snap_flag_paint = pos 3

abbrev pub snap_air_type : ℤ
snap_air_type = negsuc 0

abbrev pub cell_air : ℕ
cell_air = 0

abbrev pub cell_painted_base : ℕ
cell_painted_base = 255

abbrev pub cell_max_paint : ℕ
cell_max_paint = 54

abbrev pub record_at : ℤ → ℤ → ℤ → ℤ → ℤ → SnapRec
record_at x y z flag type = record { x = x; y = y; z = z; flag = flag; type = type }

abbrev paintable : ℕ → Bool
paintable color = not (color == 0) && leb color cell_max_paint

-- What the call pushes onto `out`.
unfoldable pub emit_cell_records : ℤ → ℤ → ℤ → ℕ → ℕ → List SnapRec
emit_cell_records x y z type color =
    let paint = if paintable color then record_at x y z snap_flag_paint (pos color) ∷ [] else [] in
    if type == cell_air
    then record_at x y z snap_flag_air snap_air_type ∷ []
    else if type == cell_painted_base
    then paint
    else record_at x y z snap_flag_solid (pos type) ∷ paint

unfoldable pub snapz_frame_count : ℕ → ℕ
snapz_frame_count n = (n + snapz_frame_records - 1) / snapz_frame_records

-- A record that the wire format allows for the cell: air as -1, a block as 1 to 254, a paint as 1 to
-- 54.
pub record IsAllowed (x y z : ℤ) (r : SnapRec) : Type 0 where
  pub at_x : r.x ≡ x
  pub at_y : r.y ≡ y
  pub at_z : r.z ≡ z
  pub kind :
      ((r.flag ≡ snap_flag_air) × (r.type ≡ snap_air_type))
      ⊎ ((r.flag ≡ snap_flag_solid)
          × (b : ℕ) × (r.type ≡ pos b)
          × (0 < b)
          × (b < cell_painted_base))
      ⊎ ((r.flag ≡ snap_flag_paint) × (c : ℕ) × (r.type ≡ pos c) × (0 < c) × (c ≤ cell_max_paint))

solid-IsAllowed :
    (x y z : ℤ) (type : ℕ)
    → type ≢ 0
    → type < cell_painted_base
    → IsAllowed x y z (record_at x y z snap_flag_solid (pos type))
solid-IsAllowed x y z type n l = record {
  at_x = refl;
  at_y = refl;
  at_z = refl;
  kind = inr (inl (refl, type, refl, omega arith, l));
}

paint-IsAllowed :
    (x y z : ℤ) (color : ℕ)
    → paintable color ≡ true
    → IsAllowed x y z (record_at x y z snap_flag_paint (pos color))
paint-IsAllowed x y z color h = record {
  at_x = refl;
  at_y = refl;
  at_z = refl;
  kind = inr (inr (refl, color, refl, ground (arith, h), ground (arith, h)));
}

paint_list :
    (x y z : ℤ) (color : ℕ)
    → All
        (IsAllowed x y z)
        (if paintable color then record_at x y z snap_flag_paint (pos color) ∷ [] else [])
paint_list x y z color = elim (Bool-cases (paintable color)) [
  | inl e ↦ rw e (paint-IsAllowed x y z color e, tt)
  | inr e ↦ rw e tt
]

-- Whatever type and paint a cell holds, its records stand at its place and are ones that the wire
-- format allows: the marker 255 of a painted natural block and a paint above 54 never get out.
pub emit_cell_records-IsAllowed :
    (x y z : ℤ) (type color : ℕ)
    → type < 256
    → All (IsAllowed x y z) (emit_cell_records x y z type color)
unfolding emit_cell_records
emit_cell_records-IsAllowed x y z type color h =
    let painted = paint_list x y z color in
    elim (Bool-cases (type == cell_air)) [
      | inl air ↦
          rw air (record { at_x = refl; at_y = refl; at_z = refl; kind = inl (refl, refl) }, tt)
      | inr no_air ↦ elim (Bool-cases (type == cell_painted_base)) [
        | inl base ↦ rw (no_air, base) painted
        | inr no_base ↦
            rw (no_air, no_base)
              (
                solid-IsAllowed x y z type (ground (arith, no_air)) (ground (arith, no_base)),
                painted,
              )
      ]
    ]

-- A reply of `n` records takes as many lines as it needs and no more.
pub snapz_frame_count_least :
    (n : ℕ)
    → (n ≤ snapz_frame_count n * snapz_frame_records)
      × ((k : ℕ) → n ≤ k * snapz_frame_records → snapz_frame_count n ≤ k)
unfolding snapz_frame_count
snapz_frame_count_least n = (omega arith, λ k h. omega arith)
