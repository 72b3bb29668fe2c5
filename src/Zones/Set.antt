-- ===== src/Zones/Set.antt =====
-- zones.h, `ZoneSet`: the zones of one world, in file order.
use ewb_server.Base.{
  ℕ, suc, ℤ, min_ℤ, max_ℤ, List, [], ◌∷◌, ◌++◌, Bool, true, false, ◌&&◌, ◌||◌, not, Option, none,
  some, leb, ◌==◌, if◌then◌else◌, length, Text, codes, text_beq, Result, ok, err, ◌>>=◌, ◌>>◌,
  guard,
}
use ewb_server.Zones.{
  Zone, contains, bypassed_by, overlaps, zone_max, zone_parse_line, zone_serialize_line, is_empty,
}

abbrev pub ZoneSet : Type 0
ZoneSet = List Zone

clear : ZoneSet → ZoneSet
clear zones = []

unfoldable pub find : Text → ZoneSet → Option Zone
find name [] = none
find name (r ∷ rs) = if text_beq r.name name then some r else find name rs

abbrev pub is_some : Option Zone → Bool
is_some none = false
is_some (some r) = true

-- The set with the zone at its end.
unfoldable pub add : Zone → ZoneSet → Result Text ZoneSet
unfolding find
add r zones = do
  guard (not (is_some (find r.name zones))) (codes "duplicate name")
  guard (not (leb zone_max (length zones))) (codes "zone cap reached")
  ok (zones ++ (r ∷ []))

-- Only the first zone of the name goes.
unfoldable pub remove : Text → ZoneSet → ZoneSet × Bool
remove name [] = ([], false)
remove name (r ∷ rs) =
    let (rest, removed) = remove name rs in
    if text_beq r.name name then (rs, true) else (r ∷ rest, removed)

unfoldable pub blocks : ℤ → ℤ → ℤ → ℤ → Zone → Bool
unfolding contains bypassed_by
blocks x y z level r = r.enforced && contains r x y z && not (bypassed_by r level)

unfoldable pub blocking : ℤ → ℤ → ℤ → ℤ → ZoneSet → Option Zone
unfolding blocks
blocking x y z level [] = none
blocking x y z level (r ∷ rs) = if blocks x y z level r then some r else blocking x y z level rs

unfoldable pub has_bypass_levels : ZoneSet → Bool
has_bypass_levels [] = false
has_bypass_levels (r ∷ rs) = (r.enforced && r.has_level) || has_bypass_levels rs

unfoldable pub any_overlaps : ℤ → ℤ → ℤ → ℤ → ℤ → ℤ → ZoneSet → Bool
unfolding overlaps
any_overlaps bx0 by0 bz0 bx1 by1 bz1 [] = false
any_overlaps bx0 by0 bz0 bx1 by1 bz1 (r ∷ rs) =
    (r.enforced && overlaps r bx0 by0 bz0 bx1 by1 bz1) || any_overlaps bx0 by0 bz0 bx1 by1 bz1 rs

unfoldable pub intersects : ℤ → ℤ → ℤ → ℤ → ℤ → ℤ → ZoneSet → Bool
unfolding any_overlaps
intersects x0 y0 z0 x1 y1 z1 zones =
    any_overlaps (min_ℤ x0 x1) (min_ℤ y0 y1) (min_ℤ z0 z1) (max_ℤ x0 x1) (max_ℤ y0 y1) (max_ℤ z0 z1)
      zones

abbrev cons_line : ℕ → List Text → List Text
cons_line c [] = (c ∷ []) ∷ []
cons_line c (l ∷ ls) = (c ∷ l) ∷ ls

-- The lines that `std::getline` hands out one by one. A line feed at the end opens no further line.
unfoldable pub lines : Text → List Text
lines [] = []
lines (c ∷ cs) = let rest = lines cs in if c == 10 then [] ∷ rest else cons_line c rest

-- The blanks at the end go first (with the carriage return of a DOS line), then those at the front.
unfoldable pub drop_end : Text → Text
drop_end [] = []
drop_end (c ∷ cs) =
    let rest = drop_end cs in
    if is_empty rest && ((c == 13) || (c == 32) || (c == 9)) then [] else c ∷ rest

unfoldable pub drop_front : Text → Text
drop_front [] = []
drop_front (c ∷ cs) = if (c == 32) || (c == 9) then drop_front cs else c ∷ cs

abbrev pub is_skipped : Text → Bool
is_skipped [] = true
is_skipped (c ∷ cs) = c == b'#'

unfoldable pub at_line : ℕ → Result Text ZoneSet → Result (Text × ℕ) ZoneSet
at_line n (ok zones) = ok zones
at_line n (err why) = err (why, n)

unfoldable pub load_line : Text → ZoneSet → Result Text ZoneSet
unfolding zone_parse_line add
load_line line built = do r ← zone_parse_line line; add r built

-- The loop; `n` lines have been read.
unfoldable pub load_lines : ℕ → List Text → ZoneSet → Result (Text × ℕ) ZoneSet
unfolding load_line at_line drop_end drop_front
load_lines n [] built = ok built
load_lines n (line ∷ rest) built =
    let text = drop_front (drop_end line) in
    let skipped = load_lines (suc n) rest built in
    if is_skipped text
    then skipped
    else at_line (suc n) (load_line text built) >>= λ (more : ZoneSet). load_lines (suc n) rest more

unfoldable pub finish : ZoneSet → Result (Text × ℕ) ZoneSet → ZoneSet × Option (Text × ℕ)
finish out (ok built) = (built, none)
finish out (err e) = (out, some e)

-- What `out` holds after the call, and the error with its line number.
unfoldable pub load : Text → ZoneSet → ZoneSet × Option (Text × ℕ)
unfolding finish load_lines lines
load text out = finish out (load_lines 0 (lines text) [])

-- The dash of the first line is not ASCII.
abbrev pub heading_1 : Text
heading_1 =
    codes "# eden_zones.txt "
    ++ (0xe2 ∷ 0x80 ∷ 0x94 ∷ codes " protected boxes (ROADMAP-SERVER Phase 8).")

abbrev pub heading_2 : Text
heading_2 = codes "# name:x0:y0:z0:x1:y1:z1:flags[:level]"

-- `out << s << "\n"`.
abbrev pub put_line : Text → Text → Text
put_line s rest = s ++ (10 ∷ rest)

unfoldable pub zone_lines : ZoneSet → Text
unfolding zone_serialize_line
zone_lines [] = []
zone_lines (r ∷ rs) = put_line (zone_serialize_line r) (zone_lines rs)

unfoldable pub serialize : ZoneSet → Text
unfolding zone_lines
serialize zones = put_line heading_1 (put_line heading_2 (zone_lines zones))
