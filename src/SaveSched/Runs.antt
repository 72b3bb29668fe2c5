-- ===== src/SaveSched/Runs.antt =====
-- The saves of a whole run of the server.
use ewb_server.Base.{ℤ, ◌+ℤ◌, ◌≤ℤ◌, List, [], ◌∷◌, true, false, ◌≡◌, refl, All}
use ewb_server.SaveSched.{
  SaveReason, none, autosave, departure, SaveSched, Event, closes, wakes, close, due, begin,
  log_save, saves,
}
use ewb_server.SaveSched.Policy.{due_departure}

-- A departure save comes at least `gap` after the save before it; `last` is when that one began.
abbrev pub IsSpaced : ℤ → ℤ → List (ℤ × SaveReason) → Type 0
IsSpaced gap last [] = Unit {0}
IsSpaced gap last ((t, r) ∷ saves) = (r ≡ departure → last +ℤ gap ≤ℤ t) × IsSpaced gap t saves

log_save-IsSpaced :
    (s : SaveSched) (now : ℤ) (r : SaveReason) (later : List (ℤ × SaveReason))
    → due s now ≡ r
    → IsSpaced (begin s now r).min_gap (begin s now r).last_save later
    → IsSpaced s.min_gap s.last_save (log_save now r later)
unfolding log_save begin
log_save-IsSpaced s now none later e h = h
log_save-IsSpaced s now autosave later e h = (λ p. cc, h)
log_save-IsSpaced s now departure later e h = (λ p. (due_departure s now e).0, h)

-- Whatever connects and closes, however often the thread wakes: a departure save is at least
-- `min_gap` after the save of any kind before it.
pub saves-IsSpaced : (s : SaveSched) (es : List Event) → IsSpaced s.min_gap s.last_save (saves s es)
unfolding saves
saves-IsSpaced s [] = tt
saves-IsSpaced s (closes true ∷ es) = saves-IsSpaced (close s true) es
saves-IsSpaced s (closes false ∷ es) = saves-IsSpaced (close s false) es
saves-IsSpaced s (wakes now ∷ es) =
    log_save-IsSpaced s now (due s now) _ refl (saves-IsSpaced (begin s now (due s now)) es)

-- The peers that close had not joined.
abbrev pub IsStranger : Event → Type 0
IsStranger (closes joined) = joined ≡ false
IsStranger (wakes now) = Unit {0}

abbrev pub IsPeriodic : ℤ × SaveReason → Type 0
IsPeriodic (t, r) = r ≡ autosave

log_save-IsPeriodic :
    (s : SaveSched) (now : ℤ) (r : SaveReason) (later : List (ℤ × SaveReason))
    → due s now ≡ r
    → s.requested ≡ false
    → All IsPeriodic later
    → All IsPeriodic (log_save now r later)
unfolding log_save
log_save-IsPeriodic s now none later e q h = h
log_save-IsPeriodic s now autosave later e q h = (refl, h)
log_save-IsPeriodic s now departure later e q h = cc ((due_departure s now e).2)

begin-requested :
    (s : SaveSched) (now : ℤ) (r : SaveReason)
    → s.requested ≡ false
    → (begin s now r).requested ≡ false
unfolding begin
begin-requested s now none q = q
begin-requested s now autosave q = refl
begin-requested s now departure q = refl

-- Connections that close without having joined cause no save: with no request pending at the start,
-- every save of such a run is a periodic one.
pub strangers_save_nothing :
    (s : SaveSched) (es : List Event)
    → s.requested ≡ false
    → All IsStranger es
    → All IsPeriodic (saves s es)
unfolding saves
strangers_save_nothing s [] q h = tt
strangers_save_nothing s (closes true ∷ es) q h = cc (h.0)
strangers_save_nothing s (closes false ∷ es) q h = strangers_save_nothing (close s false) es q h.1
strangers_save_nothing s (wakes now ∷ es) q h =
    log_save-IsPeriodic s now (due s now) _ refl q (
      strangers_save_nothing (begin s now (due s now)) es (begin-requested s now (due s now) q) h.1)
