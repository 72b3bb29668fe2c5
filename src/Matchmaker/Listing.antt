-- ===== src/Matchmaker/Listing.antt =====
-- matchmaker.h: the reply to LIST (`format_server_row`, `format_list`), and `find_live_by_name`.
-- `std::stable_sort` is insertion from the back, which keeps the order of equal rows.
pub mod Rows
use ewb_server.Base.{
  ℕ, ℤ, ltb_ℤ, eqb_ℤ, List, [], ◌∷◌, ◌++◌, map, Bool, true, false, ◌&&◌, not, Option, none, some,
  ◌==◌, if◌then◌else◌, Text, codes, text_beq, text_ltb, print_ℤ,
}
use ewb_server.Zones.{colon}
use ewb_server.Zones.Set.{put_line}
use ewb_server.Matchmaker.{Registration}
use ewb_server.Matchmaker.Names.{to_lower}
use ewb_server.Matchmaker.Lines.{bit_text}

-- The first row of a connected server with the name, in either case.
unfoldable pub find_live : Text → List Registration → Option Registration
find_live target [] = none
find_live target (r ∷ rs) =
    if not (r.conn == 0) && text_beq (map to_lower r.name) target
    then some r
    else find_live target rs

unfoldable pub find_live_by_name : List Registration → Text → Option Registration
unfolding find_live
find_live_by_name regs name = find_live (map to_lower name) regs

pub data RowForm : Type 0 where
  capture7 prod6 sketch4 : RowForm

unfoldable pub row_tail : Registration → RowForm → Text
row_tail r RowForm.capture7 =
    colon (bit_text r.has_password) (colon (print_ℤ r.players) (print_ℤ r.flag6))
row_tail r RowForm.prod6 = colon (bit_text r.has_password) (print_ℤ r.players)
row_tail r RowForm.sketch4 = bit_text r.has_password

unfoldable pub format_server_row : Registration → RowForm → Text
unfolding row_tail
format_server_row r form =
    colon (codes "SERVER") (colon r.name (colon r.ip (colon (print_ℤ r.port) (row_tail r form))))

-- More players first, then by name.
abbrev pub goes_before : Registration → Registration → Bool
goes_before a b =
    if eqb_ℤ a.players b.players then text_ltb a.name b.name else ltb_ℤ b.players a.players

unfoldable pub place : Registration → List Registration → List Registration
place r [] = r ∷ []
place r (e ∷ es) = let rest = place r es in if goes_before e r then e ∷ rest else r ∷ e ∷ es

unfoldable pub stable_sort : List Registration → List Registration
unfolding place
stable_sort [] = []
stable_sort (r ∷ rs) = place r (stable_sort rs)

unfoldable pub list_lines : List Registration → RowForm → Text
unfolding format_server_row
list_lines [] form = put_line (codes "END") []
list_lines (r ∷ rs) form = put_line (format_server_row r form) (list_lines rs form)

unfoldable pub format_list : List Registration → RowForm → Text
unfolding list_lines stable_sort
format_list regs form = list_lines (stable_sort regs) form
