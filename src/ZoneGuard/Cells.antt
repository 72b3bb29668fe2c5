-- ===== src/ZoneGuard/Cells.antt =====
-- zone_guard.h, `ZoneCellSet`: the cells that one refusal restores.
pub mod Firsts
use ewb_server.Base.{
  ℕ, suc, ◌+◌, ◌-◌, ◌*◌, ◌%◌, ◌^◌, ℤ, pos_part, neg_part, Bool, true, false, ◌||◌, List, [], ◌∷◌,
  ◌++◌, ◌==◌, leb, if◌then◌else◌, length,
}

pub record RevertCell : Type 0 where
  pub x : ℤ
  pub y : ℤ
  pub z : ℤ

-- `(uint32_t)c` cut to its low `w` bits.
unfoldable low_bits : ℕ → ℤ → ℕ
low_bits w c = (pos_part c % 2 ^ w + (2 ^ w - neg_part c % 2 ^ w)) % 2 ^ w

unfoldable pub zone_cell_key : RevertCell → ℕ
unfolding low_bits
zone_cell_key c = low_bits 24 c.x * 2 ^ 40 + low_bits 24 c.z * 2 ^ 16 + low_bits 16 c.y

pub record ZoneCellSet : Type 0 where
  pub cap : ℕ
  pub seen : List ℕ
  pub cells : List RevertCell
  pub overflow : ℕ

unfoldable pub empty_set : ℕ → ZoneCellSet
empty_set cap = record { cap = cap; seen = []; cells = []; overflow = 0 }

abbrev pub has : ℕ → List ℕ → Bool
has k [] = false
has k (l ∷ ls) = k == l || has k ls

unfoldable pub contains : RevertCell → ZoneCellSet → Bool
contains c s = has (zone_cell_key c) s.seen

unfoldable pub add : RevertCell → ZoneCellSet → ZoneCellSet × Bool
add c s =
    let k = zone_cell_key c in
    if has k s.seen
    then (s, false)
    else if leb s.cap (length s.cells)
    then (record s { overflow = suc s.overflow }, false)
    else (record s { seen = k ∷ s.seen; cells = s.cells ++ c ∷ [] }, true)

unfoldable pub add_all : List RevertCell → ZoneCellSet → ZoneCellSet
add_all [] s = s
add_all (c ∷ cs) s = add_all cs (add c s).0
