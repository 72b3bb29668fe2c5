-- ===== src/Region/Gens/Columns.antt =====
-- The sweep over a box sees the slot of every column in it.
use ewb_server.Base.{
  ℕ, zero, suc, ◌+◌, ◌*◌, ◌%◌, ◌≤◌, ◌<◌, ◌≡◌, ap, ap₂, ◌∙◌, subst, ℤ, pos, negsuc, ◌+ℤ◌, ◌-ℤ◌, ◌≤ℤ◌,
  pos_part, neg_part, +ℤ_parts, -ℤ_parts, eq_of_parts, true, ltb, if◌then◌else◌, arith,
}
use ewb_server.Region.Box.{RegionBox, contains}
use ewb_server.Region.Gens.{
  tile, column, folded, slot, ColumnGens, clamp_span, newest_in_row, newest_in_rows, span,
  newest_in,
}

shift_one : (c : ℤ) (j : ℕ) → c +ℤ pos (suc j) ≡ c +ℤ pos 1 +ℤ pos j
shift_one c j =
    eq_of_parts (c +ℤ pos (suc j)) (c +ℤ pos 1 +ℤ pos j)
      (omega (arith, +ℤ_parts c (pos (suc j)), +ℤ_parts c (pos 1), +ℤ_parts (c +ℤ pos 1) (pos j)))

shift_none : (c : ℤ) → c +ℤ pos 0 ≡ c
shift_none c = eq_of_parts (c +ℤ pos 0) c (omega (arith, +ℤ_parts c (pos 0)))

row-ge : (g : ColumnGens) (m : ℕ) (cx cz : ℤ) (n : ℕ) → m ≤ newest_in_row g m cx cz n
unfolding newest_in_row
row-ge g m cx cz zero = omega arith
row-ge g m cx cz (suc n) =
    let v = g.gen (slot cx cz) in
    ground (arith, row-ge g (if ltb m v then v else m) cx (cz +ℤ pos 1) n)

row-sees :
    (g : ColumnGens) (m : ℕ) (cx cz : ℤ) (n j : ℕ)
    → j < n
    → g.gen (slot cx (cz +ℤ pos j)) ≤ newest_in_row g m cx cz n
unfolding newest_in_row
row-sees g m cx cz zero j h = absurd (omega arith)
row-sees g m cx cz (suc n) zero h =
    let v = g.gen (slot cx cz) in
    rw (shift_none cz) (ground (arith, row-ge g (if ltb m v then v else m) cx (cz +ℤ pos 1) n))
row-sees g m cx cz (suc n) (suc j) h =
    let v = g.gen (slot cx cz) in
    rw (shift_one cz j) (row-sees g (if ltb m v then v else m) cx (cz +ℤ pos 1) n j (omega arith))

rows-ge : (g : ColumnGens) (m : ℕ) (cx cz : ℤ) (nz n : ℕ) → m ≤ newest_in_rows g m cx cz nz n
unfolding newest_in_rows
rows-ge g m cx cz nz zero = omega arith
rows-ge g m cx cz nz (suc n) =
    let m' = newest_in_row g m cx cz nz in
    omega (arith, row-ge g m cx cz nz, rows-ge g m' (cx +ℤ pos 1) cz nz n)

rows-sees :
    (g : ColumnGens) (m : ℕ) (cx cz : ℤ) (nz n i j : ℕ)
    → i < n
    → j < nz
    → g.gen (slot (cx +ℤ pos i) (cz +ℤ pos j)) ≤ newest_in_rows g m cx cz nz n
unfolding newest_in_rows
rows-sees g m cx cz nz zero i j h k = absurd (omega arith)
rows-sees g m cx cz nz (suc n) zero j h k =
    let m' = newest_in_row g m cx cz nz in
    rw (shift_none cx)
      (omega (arith, row-sees g m cx cz nz j k, rows-ge g m' (cx +ℤ pos 1) cz nz n))
rows-sees g m cx cz nz (suc n) (suc i) j h k =
    rw (shift_one cx i)
      (rows-sees g (newest_in_row g m cx cz nz) (cx +ℤ pos 1) cz nz n i j (omega arith) k)

folded_again : (c : ℤ) (d : ℕ) → folded (c +ℤ pos (d % tile)) ≡ folded (c +ℤ pos d)
unfolding folded ◌+ℤ◌
folded_again c d = ground arith

column_monotone : (v w : ℤ) → v ≤ℤ w → column v ≤ℤ column w
unfolding column
column_monotone v w h = ground arith

-- The distance of two columns in order, as a number.
distance :
    (a c : ℤ)
    → a ≤ℤ c
    → pos_part (a +ℤ pos (pos_part (c -ℤ a))) + neg_part c
      ≡ pos_part c + neg_part (a +ℤ pos (pos_part (c -ℤ a)))
unfolding ◌+ℤ◌ ◌-ℤ◌
distance a c le = ground arith

clamp_span-lt : (s : ℤ) (d : ℕ) → pos (suc d) ≤ℤ s → d % tile < clamp_span s
unfolding clamp_span
clamp_span-lt (pos n) d h = ground arith
clamp_span-lt (negsuc n) d h = absurd (omega arith)

-- A column between two others has an offset inside the span, up to whole tiles.
offset :
    (lo hi v : ℤ)
    → lo ≤ℤ v
    → v ≤ℤ hi
    → (i : ℕ) × (i < span lo hi) × (folded (column lo +ℤ pos i) ≡ folded (column v))
unfolding span
offset lo hi v h k =
    let a = column lo in
    let b = column hi in
    let c = column v in
    let le = column_monotone lo v h in
    let d = pos_part (c -ℤ a) in
    let whole : a +ℤ pos d ≡ c = eq_of_parts (a +ℤ pos d) c (distance a c le) in
    (
      d % tile,
      clamp_span-lt (b -ℤ a +ℤ pos 1) d (
          omega (
            arith,
            distance a c le,
            +ℤ_parts a (pos d),
            -ℤ_parts b a,
            +ℤ_parts (b -ℤ a) (pos 1),
            column_monotone v hi k,
          )),
      folded_again a d ∙ ap folded whole,
    )

-- Every column of a cell in the box is looked at.
pub newest_in-sees :
    (b : RegionBox) (g : ColumnGens) (x z : ℤ)
    → contains b x z ≡ true
    → g.gen (slot (column x) (column z)) ≤ newest_in b g
unfolding newest_in contains slot
newest_in-sees b g x z h =
    let (i, i_in, same_x) = offset b.x0 b.x1 x (ground (arith, h)) (ground (arith, h)) in
    let (j, j_in, same_z) = offset b.z0 b.z1 z (ground (arith, h)) (ground (arith, h)) in
    let seen =
      rows-sees g g.floor (column b.x0) (column b.z0) (span b.z0 b.z1) (span b.x0 b.x1) i j i_in
        j_in in
    subst (λ (s : ℕ). g.gen s ≤ newest_in b g) (ap₂ (λ (p q : ℕ). p * 256 + q) same_x same_z) seen

pub newest_in-floor : (b : RegionBox) (g : ColumnGens) → g.floor ≤ newest_in b g
unfolding newest_in
newest_in-floor b g =
    rows-ge g g.floor (column b.x0) (column b.z0) (span b.z0 b.z1) (span b.x0 b.x1)
