-- ===== src/ZoneGuard/Counted.antt =====
-- zone_guard.h, `ZoneAuditAgg`: what the audit lines add up to.
use ewb_server.Base.{ℕ, ◌+◌, ◌≡◌, refl, ℤ, List, [], ◌∷◌, ◌++◌, arith}
use ewb_server.ZoneGuard.{
  Entry, Denial, Line, Call, new_entry, note_entry, note, flush_entry, flush, call, run,
}

-- How many denials a line tells of.
abbrev pub denials : Line → ℕ
denials (Line.at_once d folded) = 1 + folded
denials (Line.summary e) = e.folded

abbrev pub told : List Line → ℕ
told [] = 0
told (l ∷ ls) = denials l + told ls

-- How many are still to be told of.
abbrev pub waiting : List Entry → ℕ
waiting [] = 0
waiting (e ∷ es) = e.folded + waiting es

abbrev pub denied : List Call → ℕ
denied [] = 0
denied (Call.noted now d ∷ cs) = 1 + denied cs
denied (Call.flushed now ∷ cs) = denied cs

told-append : (ls ms : List Line) → told (ls ++ ms) ≡ told ls + told ms
told-append [] ms = omega arith
told-append (l ∷ ls) ms = omega (arith, told-append ls ms)

waiting-append : (es fs : List Entry) → waiting (es ++ fs) ≡ waiting es + waiting fs
waiting-append [] fs = omega arith
waiting-append (e ∷ es) fs = omega (arith, waiting-append es fs)

note_entry-told :
    (window now : ℤ) (d : Denial) (e : Entry)
    → told (note_entry window now d e).1 + (note_entry window now d e).0.folded ≡ 1 + e.folded
unfolding note_entry
note_entry-told window now d e = ground arith

note-told :
    (window now : ℤ) (d : Denial) (es : List Entry)
    → told (note window now d es).1 + waiting (note window now d es).0 ≡ 1 + waiting es
unfolding note note_entry
note-told window now d [] = omega (arith, note_entry-told window now d (new_entry d))
note-told window now d (e ∷ es) = ground (
  arith,
  note_entry-told window now d e,
  note_entry-told window now d (new_entry d),
  note-told window now d es,
)

flush_entry-told :
    (window now : ℤ) (e : Entry)
    → told (flush_entry window now e).1 + waiting (flush_entry window now e).0 ≡ e.folded
unfolding flush_entry
flush_entry-told window now e = ground arith

flush-told :
    (window now : ℤ) (es : List Entry)
    → told (flush window now es).1 + waiting (flush window now es).0 ≡ waiting es
unfolding flush
flush-told window now [] = refl
flush-told window now (e ∷ es) = omega (
  arith,
  told-append (flush_entry window now e).1 (flush window now es).1,
  waiting-append (flush_entry window now e).0 (flush window now es).0,
  flush_entry-told window now e,
  flush-told window now es,
)

-- Whatever is denied and whenever the sums are written, every denial is in exactly one line or still
-- waits in the table: the lines written and the table add up to what the table held and what came.
pub run-told :
    (window : ℤ) (cs : List Call) (es : List Entry)
    → told (run window cs es).1 + waiting (run window cs es).0 ≡ waiting es + denied cs
unfolding run call
run-told window [] es = omega arith
run-told window (Call.noted now d ∷ cs) es = omega (
  arith,
  told-append (note window now d es).1 (run window cs (note window now d es).0).1,
  note-told window now d es,
  run-told window cs (note window now d es).0,
)
run-told window (Call.flushed now ∷ cs) es = omega (
  arith,
  told-append (flush window now es).1 (run window cs (flush window now es).0).1,
  flush-told window now es,
  run-told window cs (flush window now es).0,
)
