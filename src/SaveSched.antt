-- ===== src/SaveSched.antt =====
-- save_sched.h: when the autosave thread writes the world. The clock is an argument of each call,
-- as in the source; an instant or a duration is an exact signed number of clock units in place of a
-- `double` of seconds, so rounding is left out.
pub mod Policy
pub mod Runs
mod Tests
use ewb_server.Base.{
  ℤ, pos, ◌+ℤ◌, ◌-ℤ◌, ltb_ℤ, leb_ℤ, List, [], ◌∷◌, Bool, true, false, ◌&&◌, if◌then◌else◌, Text,
  codes, neg,
}

pub data SaveReason : Type 0 where
  none autosave departure : SaveReason

unfoldable pub save_reason_name : SaveReason → Text
save_reason_name autosave = codes "autosave"
save_reason_name departure = codes "departure"
save_reason_name none = codes "none"

unfoldable pub departure_requests_save : Bool → Bool
departure_requests_save joined = joined

pub record SaveSched : Type 0 where
  pub period : ℤ
  pub min_gap : ℤ
  pub last_save : ℤ
  pub next_tick : ℤ
  pub requested : Bool

-- The start of time: `last_save = -1e18`, in the same clock units.
abbrev pub long_ago : ℤ
long_ago = neg (pos 1_000_000_000_000_000_000)

unfoldable pub init : ℤ → ℤ → ℤ → SaveSched
init period min_gap now = record {
  period = period;
  min_gap = min_gap;
  last_save = long_ago;
  next_tick = now +ℤ period;
  requested = false;
}

unfoldable pub request : SaveSched → SaveSched
request s = record s { requested = true }

unfoldable pub due : SaveSched → ℤ → SaveReason
due s now =
    if leb_ℤ s.next_tick now
    then autosave
    else if s.requested && leb_ℤ s.min_gap (now -ℤ s.last_save)
    then departure
    else none

unfoldable pub earliest : SaveSched → ℤ
earliest s =
    let req = s.last_save +ℤ s.min_gap in
    if s.requested && ltb_ℤ req s.next_tick then req else s.next_tick

unfoldable pub next_wake : SaveSched → ℤ → ℤ
next_wake s now = if ltb_ℤ now (earliest s) then earliest s -ℤ now else pos 0

-- `next_tick` after an autosave: one period on, and never in the past.
advance : SaveSched → ℤ → ℤ
advance s now =
    let tick = s.next_tick +ℤ s.period in if leb_ℤ tick now then now +ℤ s.period else tick

unfoldable pub begin : SaveSched → ℤ → SaveReason → SaveSched
unfolding advance
begin s now none = s
begin s now departure = record s { requested = false; last_save = now }
begin s now autosave = record s { requested = false; last_save = now; next_tick = advance s now }

-- What reaches the scheduler: a connection closes, joined or not; the autosave thread runs a round
-- at `now`. A round that finds nothing due changes nothing.
pub data Event : Type 0 where
  closes : Bool → Event
  wakes : ℤ → Event

unfoldable pub close : SaveSched → Bool → SaveSched
unfolding departure_requests_save request
close s joined = if departure_requests_save joined then request s else s

-- The saves that are written, in order, each with its time and its reason.
log_save : ℤ → SaveReason → List (ℤ × SaveReason) → List (ℤ × SaveReason)
log_save now none saves = saves
log_save now autosave saves = (now, autosave) ∷ saves
log_save now departure saves = (now, departure) ∷ saves

unfoldable pub saves : SaveSched → List Event → List (ℤ × SaveReason)
unfolding close log_save due begin
saves s [] = []
saves s (closes joined ∷ es) = saves (close s joined) es
saves s (wakes now ∷ es) = log_save now (due s now) (saves (begin s now (due s now)) es)
