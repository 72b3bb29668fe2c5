-- ===== src/SaveSched/Tests.antt =====
-- The theorems on the autosave scheduler at concrete times.
use ewb_server.Base.{pos, ◌+ℤ◌, ◌-ℤ◌, neg, ◌≡◌, refl, List, [], ◌∷◌, true}
use ewb_server.SaveSched.{SaveSched, Event, closes, wakes, autosave, departure, init, saves}
use ewb_server.SaveSched.Runs.{IsSpaced, saves-IsSpaced}

-- In seconds: a save every 15, and at most one requested save in 5.
abbrev start : SaveSched
start = init (pos 15) (pos 5) (pos 0)

abbrev party : List Event
party =
    closes true ∷ wakes (pos 1) ∷ closes true ∷ wakes (pos 3) ∷ wakes (pos 6) ∷ wakes (pos 40) ∷ []

party-saves : saves start party ≡ (pos 1, departure) ∷ (pos 6, departure) ∷ (pos 40, autosave) ∷ []
unfolding saves init ◌+ℤ◌ ◌-ℤ◌ neg
party-saves = refl

saves-IsSpaced_example : IsSpaced start.min_gap start.last_save (saves start party)
saves-IsSpaced_example = saves-IsSpaced start party
