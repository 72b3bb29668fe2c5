-- ===== src/Control/Fill/Bounds.antt =====
-- The cap of a `fill` and the size of its box.
use ewb_server.Base.{
  ◌*◌, ℤ, pos, negsuc, ◌+ℤ◌, ◌*ℤ◌, *ℤ_pos, +ℤ_parts, eq_of_parts, ltb_ℤ, ◌≤ℤ◌, ◌<ℤ◌, ◌≡◌, ◌∙◌,
  arith, if◌then◌else◌,
}
use ewb_server.Control.Fill.{ctl_fill_cap, under_ceiling}

double_parts : (a : ℤ) → pos 1 ≤ℤ a → a *ℤ pos 2 ≡ a +ℤ a
double_parts (pos n) h =
    *ℤ_pos n 2
    ∙ eq_of_parts (pos (n * 2)) (pos n +ℤ pos n) (omega (arith, +ℤ_parts (pos n) (pos n)))
double_parts (negsuc n) h = absurd (omega (arith, h))

under_ceiling_bounds :
    (ceiling cap : ℤ)
    → (under_ceiling ceiling cap ≤ℤ cap) × (pos 1 ≤ℤ ceiling → under_ceiling ceiling cap ≤ℤ ceiling)
unfolding under_ceiling
under_ceiling_bounds ceiling cap = (ground arith, λ h. ground (arith, h))

at_least_one : (cap : ℤ) → pos 1 ≤ℤ (if ltb_ℤ cap (pos 1) then pos 1 else cap)
at_least_one cap = ground arith

-- One `fill` may change one cell at least, twice what a player's command may at most (or two cells,
-- where that is set below one), and no more than the world's own ceiling where there is one.
pub ctl_fill_cap_bounds :
    (we_max_cells ceiling : ℤ)
    → (pos 1 ≤ℤ ctl_fill_cap we_max_cells ceiling)
      × (pos 1 ≤ℤ we_max_cells → ctl_fill_cap we_max_cells ceiling ≤ℤ we_max_cells +ℤ we_max_cells)
      × (we_max_cells <ℤ pos 1 → ctl_fill_cap we_max_cells ceiling ≤ℤ pos 2)
      × (pos 1 ≤ℤ ceiling → ctl_fill_cap we_max_cells ceiling ≤ℤ ceiling)
unfolding ctl_fill_cap
ctl_fill_cap_bounds w c =
    let cells : ℤ = if ltb_ℤ w (pos 1) then pos 1 else w in
    let positive : pos 1 ≤ℤ cells = ground arith in
    let twice = double_parts cells positive in
    let parts = +ℤ_parts cells cells in
    let (below, under) = under_ceiling_bounds c (cells *ℤ pos 2) in
    let below' : under_ceiling c (cells *ℤ pos 2) ≤ℤ cells +ℤ cells = rw (← twice) below in
    (
      ground arith,
      λ h. ground (arith, below', parts, +ℤ_parts w w, h),
      λ h. ground (arith, below', parts, h),
      λ h. ground (arith, under h, h),
    )
