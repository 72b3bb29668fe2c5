-- ===== src/SaveSched/Policy.antt =====
-- What the scheduler decides at one instant, and after one save.
use ewb_server.Base.{ℤ, pos, ◌+ℤ◌, ◌≤ℤ◌, ◌<ℤ◌, +ℤ_parts, -ℤ_parts, true, ◌≡◌, ◌≢◌, ◌↔◌, arith, refl}
use ewb_server.SaveSched.{
  SaveReason, none, autosave, departure, SaveSched, due, next_wake, begin, earliest, advance,
}

due-earliest : (s : SaveSched) (now : ℤ) → (due s now ≡ none) ↔ (now <ℤ earliest s)
unfolding due earliest
due-earliest s now = ground (arith, -ℤ_parts now s.last_save, +ℤ_parts s.last_save s.min_gap)

-- `next_wake` is positive exactly when nothing is due.
next_wake-due : (s : SaveSched) (now : ℤ) → (due s now ≡ none) ↔ (pos 0 <ℤ next_wake s now)
unfolding next_wake
next_wake-due s now = ground (arith, due-earliest s now, -ℤ_parts (earliest s) now)

next_wake-earliest : (s : SaveSched) (now : ℤ) → earliest s ≤ℤ now +ℤ next_wake s now
unfolding next_wake
next_wake-earliest s now = ground (arith, +ℤ_parts now (next_wake s now), -ℤ_parts (earliest s) now)

-- `next_wake` is how long the thread may sleep: while it is positive nothing is due, and after a
-- sleep of that length something is.
pub next_wake_lem :
    (s : SaveSched) (now : ℤ)
    → ((due s now ≡ none) ↔ (pos 0 <ℤ next_wake s now)) × (due s (now +ℤ next_wake s now) ≢ none)
next_wake_lem s now = (
  next_wake-due s now,
  λ e. omega (arith, next_wake-earliest s now, (due-earliest s (now +ℤ next_wake s now)).0 e),
)

due_autosave : (s : SaveSched) (now : ℤ) → due s now ≡ autosave → s.next_tick ≤ℤ now
unfolding due
due_autosave s now e = ground arith

pub due_departure :
    (s : SaveSched) (now : ℤ)
    → due s now ≡ departure
    → (s.last_save +ℤ s.min_gap ≤ℤ now) × (now <ℤ s.next_tick) × (s.requested ≡ true)
unfolding due
due_departure s now e = ground (arith, -ℤ_parts now s.last_save, +ℤ_parts s.last_save s.min_gap)

-- After an autosave the next tick lies ahead, by one period at most.
advance_bounds :
    (s : SaveSched) (now : ℤ)
    → pos 0 <ℤ s.period
    → s.next_tick ≤ℤ now
    → (now <ℤ advance s now) × (advance s now ≤ℤ now +ℤ s.period)
unfolding advance
advance_bounds s now h e = ground (arith, +ℤ_parts s.next_tick s.period, +ℤ_parts now s.period)

begin-quiet :
    (s : SaveSched) (now : ℤ) (r : SaveReason)
    → pos 0 <ℤ s.period
    → due s now ≡ r
    → due (begin s now r) now ≡ none
unfolding begin due
begin-quiet s now none h e = e
begin-quiet s now autosave h e =
    ground (arith, due_autosave s now e, advance_bounds s now h (due_autosave s now e))
begin-quiet s now departure h e = ground (arith, due_departure s now e)

-- Starting the save that is due settles the instant, however late it is: nothing more is due at the
-- same `now`. So a thread that overslept writes one save and not a burst.
pub begin_once :
    (s : SaveSched) (now : ℤ) → pos 0 <ℤ s.period → due (begin s now (due s now)) now ≡ none
begin_once s now h = begin-quiet s now (due s now) h refl
