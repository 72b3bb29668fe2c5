-- ===== src/Control/Ops.antt =====
-- control.h, `OpsFile`: the op levels of names, in the order in which they were set.
pub mod File
pub mod RoundTrip
use ewb_server.Base.{
  ℕ, ℤ, pos, leb_ℤ, List, [], ◌∷◌, ◌++◌, Bool, true, false, ◌&&◌, ◌||◌, not, Option, none, some,
  ◌==◌, if◌then◌else◌, Text, codes, text_beq, print_ℤ, strtol,
}
use ewb_server.Zones.{is_empty, colon}
use ewb_server.Zones.Set.{lines, is_skipped, put_line}
use ewb_server.Matchmaker.Lines.{to_i32}

abbrev pub ctl_level_min : ℤ
ctl_level_min = pos 0

abbrev pub ctl_level_max : ℤ
ctl_level_max = pos 2

abbrev pub ctl_level_valid : ℤ → Bool
ctl_level_valid lvl = leb_ℤ ctl_level_min lvl && leb_ℤ lvl ctl_level_max

abbrev pub OpsFile : Type 0
OpsFile = List (Text × ℤ)

unfoldable pub level_of : Text → ℤ → OpsFile → ℤ
level_of name default [] = default
level_of name default ((n, lvl) ∷ es) = if text_beq n name then lvl else level_of name default es

unfoldable pub put : Text → ℤ → OpsFile → OpsFile
put name lvl [] = (name, lvl) ∷ []
put name lvl ((n, l) ∷ es) = if text_beq n name then (n, lvl) ∷ es else (n, l) ∷ put name lvl es

unfoldable pub set : Text → ℤ → OpsFile → OpsFile × Bool
set name lvl es =
    if is_empty name || not (ctl_level_valid lvl) then (es, false) else (put name lvl es, true)

-- Only the first entry of the name goes.
unfoldable pub erase : Text → OpsFile → OpsFile × Bool
erase name [] = ([], false)
erase name ((n, l) ∷ es) =
    let (rest, found) = erase name es in
    if text_beq n name then (es, true) else ((n, l) ∷ rest, found)

-- `std::atoi`, which is `(int)strtol(s, NULL, 10)`.
unfoldable pub atoi : Text → ℤ
atoi s = to_i32 (strtol s).value

-- The carriage returns and blanks at the end of a line go.
unfoldable pub drop_blanks : Text → Text
drop_blanks [] = []
drop_blanks (c ∷ cs) =
    let rest = drop_blanks cs in if is_empty rest && ((c == 13) || (c == 32)) then [] else c ∷ rest

-- What stands before and behind the last colon.
unfoldable pub last_colon : Text → Option (Text × Text)
last_colon [] = none
last_colon (c ∷ cs) = elim (last_colon cs) [
  | none ↦ if c == b':' then some ([], cs) else none
  | some p ↦ some (c ∷ p.0, p.1)
]

unfoldable pub set_parts : Option (Text × Text) → OpsFile → OpsFile
set_parts none es = es
set_parts (some (name, level)) es = (set name (atoi level) es).0

unfoldable pub load_line : Text → OpsFile → OpsFile
load_line line es =
    let text = drop_blanks line in if is_skipped text then es else set_parts (last_colon text) es

unfoldable pub load_lines : List Text → OpsFile → OpsFile
load_lines [] es = es
load_lines (l ∷ ls) es = load_lines ls (load_line l es)

unfoldable pub load : Text → OpsFile
load text = load_lines (lines text) []

abbrev pub heading : Text
heading =
    codes "# edenserver op levels "
    ++ (0xe2 ∷ 0x80 ∷ 0x94 ∷ codes " <name>:<0..2> per line (stage 3.2).")

unfoldable pub entry_lines : OpsFile → Text
entry_lines [] = []
entry_lines ((n, l) ∷ es) = put_line (colon n (print_ℤ l)) (entry_lines es)

unfoldable pub serialize : OpsFile → Text
serialize es = put_line heading (entry_lines es)
