-- ===== src/Explode/Blocks.antt =====
-- block_rules.h: which blocks burn, what an expansion block fills with, and which faces are solid.
use ewb_server.Base.{
  ℕ, ◌+◌, ◌-◌, ◌%◌, ℤ, pos, negsuc, Bool, true, false, ◌&&◌, ◌||◌, Option, none, some, List, [],
  ◌∷◌, ◌==◌, ltb, leb, if◌then◌else◌, get_or, keep, length,
}

abbrev pub blk_expand_first : ℕ
blk_expand_first = 81

abbrev pub blk_expand_last : ℕ
blk_expand_last = 111

abbrev pub between : ℕ → ℕ → ℕ → Bool
between lo hi n = leb lo n && leb n hi

unfoldable pub is_expansion : ℕ → Bool
is_expansion kind = between blk_expand_first blk_expand_last kind

unfoldable pub is_flammable : ℕ → Bool
unfolding is_expansion
is_flammable kind =
    kind == 5
    || kind == 6
    || kind == 7
    || kind == 9
    || kind == 18
    || kind == 21
    || between 28 31 kind
    || between 44 47 kind
    || kind == 65
    || between 66 70 kind
    || kind == 73
    || is_expansion kind

-- The cases 82 to 111, in order.
abbrev materials : List ℕ
materials =
    8 ∷ 10 ∷ 2 ∷ 3 ∷ 4 ∷ 9 ∷ 7 ∷ 56 ∷ 58 ∷ 57 ∷ 6 ∷ 5 ∷ 13 ∷ 14 ∷ 22 ∷ 18 ∷ 15 ∷ 16 ∷ 17 ∷ 19 ∷ 2
    ∷ 7 ∷ 15 ∷ 56 ∷ 21 ∷ 20 ∷ 23 ∷ 65 ∷ 72 ∷ 74 ∷ []

unfoldable pub expansion_material : ℕ → ℕ
expansion_material kind = if leb 82 kind then get_or materials (kind - 82) 0 else 0

unfoldable pub expansion_ramp : ℕ → ℕ
expansion_ramp kind =
    if kind == 102
    then 24
    else if kind == 103
    then 28
    else if kind == 104
    then 36
    else if kind == 105
    then 32
    else 0

unfoldable pub ramp_solid_material : ℕ → ℕ
ramp_solid_material ramp1 =
    if ramp1 == 24
    then 2
    else if ramp1 == 36
    then 15
    else if ramp1 == 28
    then 7
    else if ramp1 == 32
    then 56
    else ramp1

-- The horizontal neighbours: +x, +z, -x, -z.
unfoldable pub face_dx : ℕ → ℤ
face_dx d = if d == 0 then pos 1 else if d == 2 then negsuc 0 else pos 0

unfoldable pub face_dz : ℕ → ℤ
face_dz d = if d == 1 then pos 1 else if d == 3 then negsuc 0 else pos 0

-- The faces of a ramp and of a side block that are solid, by rotation.
abbrev ramp_face_solid : ℕ → ℕ → Bool
ramp_face_solid rot d =
    d == 5
    || (rot == 0 && d == 3)
    || (rot == 1 && d == 0)
    || (rot == 2 && d == 1)
    || (rot == 3 && d == 2)

abbrev side_face_solid : ℕ → ℕ → Bool
side_face_solid rot d =
    (rot == 0 && (d == 2 || d == 3))
    || (rot == 1 && (d == 0 || d == 3))
    || (rot == 2 && (d == 0 || d == 1))
    || (rot == 3 && (d == 1 || d == 2))

-- `none` is an unknown cell, a negative type of the code.
unfoldable pub face_solid : Option ℕ → ℕ → Bool
face_solid none d = false
face_solid (some kind) d =
    if kind == 0
    then false
    else if between 24 39 kind
    then ramp_face_solid (kind % 4) d
    else if between 40 55 kind
    then side_face_solid (kind % 4) d
    else true

-- The four faces, in order.
pub record Faces : Type 0 where
  pub east : Bool
  pub south : Bool
  pub west : Bool
  pub north : Bool

abbrev solid_count : Faces → ℕ
solid_count f = length (keep (λ (b : Bool). b) (f.east ∷ f.south ∷ f.west ∷ f.north ∷ []))

unfoldable pub ramp_for_faces : ℕ → Faces → ℕ
unfolding ramp_solid_material
ramp_for_faces ramp1 f =
    let n = solid_count f in
    let corner =
      if f.east && f.south
      then ramp1 + 16
      else if f.south && f.west
      then ramp1 + 17
      else if f.west && f.north
      then ramp1 + 18
      else if f.north && f.east
      then ramp1 + 19
      else ramp1 in
    if n == 2 then corner else if ltb 2 n then ramp_solid_material ramp1 else ramp1
