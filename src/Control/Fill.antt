-- ===== src/Control/Fill.antt =====
-- control.h: how much one `fill` may change, and the answers to `fill` and `setblock`. The numbers of
-- a `long long` are exact: the code's coordinates are below 2 ^ 24 here, so none overflows.
pub mod Bounds
use ewb_server.Base.{
  ℕ, ℤ, pos, ◌+ℤ◌, ◌-ℤ◌, ◌*ℤ◌, ltb_ℤ, eqb_ℤ, Bool, ◌&&◌, [], ◌∷◌, ◌++◌, if◌then◌else◌, Text, codes,
  print_ℤ,
}

abbrev pub ctl_fill_cap_multiple : ℤ
ctl_fill_cap_multiple = pos 2

-- `if (world_ceiling > 0 && cap > world_ceiling) cap = world_ceiling;`
under_ceiling : ℤ → ℤ → ℤ
under_ceiling ceiling cap = if ltb_ℤ (pos 0) ceiling && ltb_ℤ ceiling cap then ceiling else cap

unfoldable pub ctl_fill_cap : ℤ → ℤ → ℤ
unfolding under_ceiling
ctl_fill_cap we_max_cells world_ceiling =
    let cells = if ltb_ℤ we_max_cells (pos 1) then pos 1 else we_max_cells in
    let cap = under_ceiling world_ceiling (cells *ℤ ctl_fill_cap_multiple) in
    if ltb_ℤ cap (pos 1) then pos 1 else cap

unfoldable pub side : ℤ → ℤ → ℤ
side a b = (if ltb_ℤ a b then b -ℤ a else a -ℤ b) +ℤ pos 1

unfoldable pub ctl_fill_volume : ℤ → ℤ → ℤ → ℤ → ℤ → ℤ → ℤ
unfolding side
ctl_fill_volume x0 y0 z0 x1 y1 z1 = side x0 x1 *ℤ side y0 y1 *ℤ side z0 z1

pub record CtlFillResult : Type 0 where
  pub applied : ℤ
  pub refused : ℤ

unfoldable pub ctl_fill_reply : CtlFillResult → Text
ctl_fill_reply r =
    let why =
      codes "refused "
      ++ print_ℤ r.refused
      ++ codes " cell(s): the world is at its edited-cell cap (--max-world-cells)" in
    if eqb_ℤ r.refused (pos 0)
    then codes "ok: filled " ++ print_ℤ r.applied ++ codes " cells"
    else if eqb_ℤ r.applied (pos 0)
    then codes "error: " ++ why ++ codes "; nothing was changed"
    else codes "ok: filled " ++ print_ℤ r.applied ++ codes " cells, but " ++ why

unfoldable pub ctl_setblock_reply : CtlFillResult → Text
ctl_setblock_reply r =
    if eqb_ℤ r.refused (pos 0)
    then codes "ok: set 1 block"
    else codes "error: the world is at its edited-cell cap (--max-world-cells); block not set"
