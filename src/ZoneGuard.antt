-- ===== src/ZoneGuard.antt =====
-- zone_guard.h, `ZoneAuditAgg`: the audit lines of refused edits, one for each player and zone in a
-- window at most. The table of the code is a map in the order of player and zone.
pub mod Counted
pub mod Cells
mod Tests
use ewb_server.Base.{
  ℕ, suc, ◌+◌, ℤ, pos, ◌-ℤ◌, ltb_ℤ, Bool, true, false, not, ◌&&◌, ◌||◌, Option, none, some, List,
  [], ◌∷◌, ◌++◌, ◌==◌, if◌then◌else◌, Text, codes, text_beq, text_ltb, print_ℕ, print_ℤ,
}

pub record Entry : Type 0 where
  pub player : Text
  pub zone : Text
  pub is_open : Bool
  pub start : ℤ
  pub folded : ℕ
  pub verb : Text
  pub x : ℤ
  pub y : ℤ
  pub z : ℤ

-- One refused edit.
pub record Denial : Type 0 where
  pub player : Text
  pub zone : Text
  pub verb : Text
  pub x : ℤ
  pub y : ℤ
  pub z : ℤ

-- A line to write: a denial at once, with what was folded before it, or the sum of a closed window.
pub data Line : Type 0 where
  at_once : Denial → ℕ → Line
  summary : Entry → Line

coords : ℤ → ℤ → ℤ → Text
coords x y z = print_ℤ x ++ codes "," ++ print_ℤ y ++ codes "," ++ print_ℤ z

unfoldable pub line_text : Line → Text
unfolding coords
line_text (Line.at_once d folded) =
    codes "denied "
    ++ d.verb
    ++ codes " in zone "
    ++ d.zone
    ++ codes " at "
    ++ coords d.x d.y d.z
    ++ (if folded == 0 then [] else codes " (" ++ print_ℕ folded ++ codes " more before this)")
line_text (Line.summary e) =
    codes "denied "
    ++ print_ℕ e.folded
    ++ codes " more edit(s) in zone "
    ++ e.zone
    ++ codes " (last: "
    ++ e.verb
    ++ codes " at "
    ++ coords e.x e.y e.z
    ++ codes ")"

-- `entries_[{player, zone}]`, where there is none.
unfoldable pub new_entry : Denial → Entry
new_entry d = record {
  player = d.player;
  zone = d.zone;
  is_open = false;
  start = pos 0;
  folded = 0;
  verb = [];
  x = pos 0;
  y = pos 0;
  z = pos 0;
}

is_within : ℤ → ℤ → Entry → Bool
is_within window now e = ltb_ℤ (now -ℤ e.start) window

unfoldable pub note_entry : ℤ → ℤ → Denial → Entry → Entry × List Line
unfolding is_within new_entry
note_entry window now d e =
    if e.is_open && is_within window now e
    then (record e { folded = suc e.folded; verb = d.verb; x = d.x; y = d.y; z = d.z }, [])
    else (record (new_entry d) { is_open = true; start = now }, Line.at_once d e.folded ∷ [])

same_key : Denial → Entry → Bool
same_key d e = text_beq d.player e.player && text_beq d.zone e.zone

goes_first : Denial → Entry → Bool
goes_first d e =
    text_ltb d.player e.player || (text_beq d.player e.player && text_ltb d.zone e.zone)

-- The lines are the one that is written now, or none.
unfoldable pub note : ℤ → ℤ → Denial → List Entry → List Entry × List Line
unfolding same_key goes_first
note window now d [] = let r = note_entry window now d (new_entry d) in (r.0 ∷ [], r.1)
note window now d (e ∷ es) =
    let hit = note_entry window now d e in
    let new = note_entry window now d (new_entry d) in
    let rest = note window now d es in
    if same_key d e
    then (hit.0 ∷ es, hit.1)
    else if goes_first d e
    then (new.0 ∷ e ∷ es, new.1)
    else (e ∷ rest.0, rest.1)

unfoldable pub flush_entry : ℤ → ℤ → Entry → List Entry × List Line
unfolding is_within
flush_entry window now e =
    if is_within window now e
    then (e ∷ [], [])
    else if e.folded == 0
    then ([], [])
    else (record e { folded = 0; start = now } ∷ [], Line.summary e ∷ [])

unfoldable pub flush : ℤ → ℤ → List Entry → List Entry × List Line
flush window now [] = ([], [])
flush window now (e ∷ es) =
    let first = flush_entry window now e in
    let rest = flush window now es in (first.0 ++ rest.0, first.1 ++ rest.1)

-- The server's calls, by their times.
pub data Call : Type 0 where
  noted : ℤ → Denial → Call
  flushed : ℤ → Call

unfoldable pub call : ℤ → Call → List Entry → List Entry × List Line
call window (Call.noted now d) es = note window now d es
call window (Call.flushed now) es = flush window now es

unfoldable pub run : ℤ → List Call → List Entry → List Entry × List Line
run window [] es = (es, [])
run window (c ∷ cs) es =
    let first = call window c es in let rest = run window cs first.0 in (rest.0, first.1 ++ rest.1)
