-- ===== src/Region/Box.antt =====
-- region_query.h: the box of blocks that a reply covers.
use ewb_server.Base.{
  ℕ, suc, ◌+◌, ◌*◌, ◌/◌, ◌%◌, ◌≡◌, sym, subst, ℤ, pos, negsuc, ◌+ℤ◌, ◌-ℤ◌, neg, leb_ℤ, ◌≤ℤ◌,
  pos_part, neg_part, +ℤ_parts, -ℤ_parts, Bool, ◌&&◌, ◌==◌, if◌then◌else◌, arith, eq_of_parts, ◌<ℤ◌,
}

abbrev pub region_radius : ℤ
region_radius = pos 224

abbrev pub region_chunk : ℕ
region_chunk = 16

abbrev pub region_coord_max : ℕ
region_coord_max = 0xff_ffff

-- `v / 16` rounds towards 0, so a negative value off the grid goes one further down. -(n + 1) / 16 is
-- -((n + 1) / 16).
unfoldable pub snap_chunk : ℤ → ℤ
snap_chunk (pos n) = pos (n / region_chunk * region_chunk)
snap_chunk (negsuc n) =
    let q = suc n / region_chunk in
    neg (pos ((if suc n % region_chunk == 0 then q else suc q) * region_chunk))

pub record RegionBox : Type 0 where
  pub x0 : ℤ
  pub x1 : ℤ
  pub z0 : ℤ
  pub z1 : ℤ

unfoldable pub contains : RegionBox → ℤ → ℤ → Bool
contains b x z = leb_ℤ b.x0 x && leb_ℤ x b.x1 && leb_ℤ b.z0 z && leb_ℤ z b.z1

unfoldable pub low_edge : ℤ → ℤ → ℤ
unfolding snap_chunk
low_edge c radius = snap_chunk (c -ℤ radius)

unfoldable pub high_edge : ℤ → ℤ → ℤ
unfolding snap_chunk
high_edge c radius = snap_chunk (c +ℤ radius) +ℤ pos region_chunk -ℤ pos 1

unfoldable pub region_box : ℤ → ℤ → ℤ → RegionBox
unfolding low_edge high_edge
region_box cx cz radius = record {
  x0 = low_edge cx radius;
  x1 = high_edge cx radius;
  z0 = low_edge cz radius;
  z1 = high_edge cz radius;
}

unfoldable pub region_point_valid : ℤ → ℤ → Bool
region_point_valid x z =
    leb_ℤ (pos 0) x
    && leb_ℤ x (pos region_coord_max)
    && leb_ℤ (pos 0) z
    && leb_ℤ z (pos region_coord_max)

-- A whole number of chunks, at most 15 blocks below the value.
pub record IsFloor (v s : ℤ) : Type 0 where
  pub below : s ≤ℤ v
  pub close : v <ℤ s +ℤ pos region_chunk
  pub aligned : (pos_part s + neg_part s) % region_chunk ≡ 0

snap_chunk-IsFloor : (v : ℤ) → IsFloor v (snap_chunk v)
unfolding snap_chunk neg ◌+ℤ◌
snap_chunk-IsFloor (pos n) = record {
  below = omega arith;
  close = ground arith;
  aligned = omega arith;
}
snap_chunk-IsFloor (negsuc n) = record {
  below = ground arith;
  close = ground arith;
  aligned = ground arith;
}

abbrev pub IsAligned : ℤ → Type 0
IsAligned v = (pos_part v + neg_part v) % region_chunk ≡ 0

next_chunk : (s : ℤ) → IsAligned s → IsAligned (s +ℤ pos region_chunk)
unfolding ◌+ℤ◌
next_chunk (pos n) h = ground arith
next_chunk (negsuc n) h = ground arith

step_back : (v : ℤ) → v -ℤ pos 1 +ℤ pos 1 ≡ v
step_back v =
    eq_of_parts (v -ℤ pos 1 +ℤ pos 1) v
      (omega (arith, -ℤ_parts v (pos 1), +ℤ_parts (v -ℤ pos 1) (pos 1)))

-- How one side of a box lies to the point in its middle.
pub record IsCover (c radius lo hi : ℤ) : Type 0 where
  pub low : lo ≤ℤ c -ℤ radius
  pub high : c +ℤ radius ≤ℤ hi
  pub low_close : c -ℤ radius <ℤ lo +ℤ pos region_chunk
  pub high_close : hi <ℤ c +ℤ radius +ℤ pos region_chunk
  pub low_aligned : IsAligned lo
  pub high_aligned : IsAligned (hi +ℤ pos 1)

edges-IsCover : (c radius : ℤ) → IsCover c radius (low_edge c radius) (high_edge c radius)
unfolding low_edge high_edge
edges-IsCover c radius =
    let f = snap_chunk-IsFloor (c -ℤ radius) in
    let g = snap_chunk-IsFloor (c +ℤ radius) in
    let s = snap_chunk (c +ℤ radius) in
    let hi = s +ℤ pos region_chunk -ℤ pos 1 in
    let up = +ℤ_parts s (pos region_chunk) in
    let down = -ℤ_parts (s +ℤ pos region_chunk) (pos 1) in
    record {
      low = f.below;
      high = omega (arith, g.close, up, down);
      low_close = f.close;
      high_close = omega (arith, g.below, up, down, +ℤ_parts (c +ℤ radius) (pos region_chunk));
      low_aligned = f.aligned;
      high_aligned =
          subst IsAligned (sym (step_back (s +ℤ pos region_chunk))) (next_chunk s g.aligned);
    }

-- The box of a request reaches at least `radius` blocks from the point on every side and at most 15
-- further, and begins and ends at the edge of a chunk.
pub region_box-IsCover :
    (cx cz radius : ℤ)
    → IsCover cx radius (region_box cx cz radius).x0 (region_box cx cz radius).x1
      × IsCover cz radius (region_box cx cz radius).z0 (region_box cx cz radius).z1
unfolding region_box
region_box-IsCover cx cz radius = (edges-IsCover cx radius, edges-IsCover cz radius)
