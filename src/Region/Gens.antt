-- ===== src/Region/Gens.antt =====
-- region_cache.h, `ColumnGens`: when a column of chunks last changed. The table is a function from
-- its slots; the counter is a plain number, since 2 ^ 64 writes do not happen.
pub mod Columns
pub mod Changes
mod Tests
use ewb_server.Base.{
  ℕ, zero, suc, ◌+◌, ◌-◌, ◌*◌, ◌/◌, ◌%◌, ℤ, pos, negsuc, ◌+ℤ◌, ◌-ℤ◌, List, [], ◌∷◌, Bool, ltb, leb,
  ◌==◌, if◌then◌else◌,
}
use ewb_server.Region.Box.{RegionBox}

abbrev pub tile : ℕ
tile = 256

-- `v >> 4`.
unfoldable pub column : ℤ → ℤ
column (pos n) = pos (n / 16)
column (negsuc n) = negsuc (n / 16)

-- `(unsigned)c & (TILE - 1)`.
unfoldable pub folded : ℤ → ℕ
folded (pos n) = n % tile
folded (negsuc n) = tile - 1 - n % tile

unfoldable pub slot : ℤ → ℤ → ℕ
unfolding folded
slot cx cz = folded cx * 256 + folded cz

pub record ColumnGens : Type 0 where
  pub gen : ℕ → ℕ
  pub now : ℕ
  pub floor : ℕ

unfoldable pub new : ColumnGens
new = record { gen = λ s. 0; now = 0; floor = 0 }

unfoldable pub bump : ℤ → ℤ → ColumnGens → ColumnGens
unfolding slot column
bump x z g =
    let at = slot (column x) (column z) in
    record g { gen = λ (s : ℕ). if s == at then suc g.now else g.gen s; now = suc g.now }

unfoldable pub bump_all : ColumnGens → ColumnGens
bump_all g = record g { floor = suc g.now; now = suc g.now }

unfoldable pub clamp_span : ℤ → ℕ
clamp_span (negsuc n) = 0
clamp_span (pos n) = if ltb tile n then tile else n

-- The inner loop: `n` columns from `cz` on.
unfoldable pub newest_in_row : ColumnGens → ℕ → ℤ → ℤ → ℕ → ℕ
newest_in_row g m cx cz zero = m
newest_in_row g m cx cz (suc n) =
    let v = g.gen (slot cx cz) in newest_in_row g (if ltb m v then v else m) cx (cz +ℤ pos 1) n

unfoldable pub newest_in_rows : ColumnGens → ℕ → ℤ → ℤ → ℕ → ℕ → ℕ
unfolding newest_in_row
newest_in_rows g m cx cz nz zero = m
newest_in_rows g m cx cz nz (suc n) =
    newest_in_rows g (newest_in_row g m cx cz nz) (cx +ℤ pos 1) cz nz n

unfoldable pub span : ℤ → ℤ → ℕ
unfolding column clamp_span
span lo hi = clamp_span (column hi -ℤ column lo +ℤ pos 1)

unfoldable pub newest_in : RegionBox → ColumnGens → ℕ
unfolding newest_in_rows span column
newest_in b g =
    newest_in_rows g g.floor (column b.x0) (column b.z0) (span b.z0 b.z1) (span b.x0 b.x1)

unfoldable pub unchanged_since : RegionBox → ℕ → ColumnGens → Bool
unfolding newest_in
unchanged_since b stamp g = leb (newest_in b g) stamp
