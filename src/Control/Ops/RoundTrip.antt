-- ===== src/Control/Ops/RoundTrip.antt =====
-- The file of the op levels: what is written loads back.
use ewb_server.Base.{
  ℕ, zero, suc, ◌≤◌, ℤ, pos, negsuc, ◌≡◌, ◌≢◌, refl, sym, ◌∙◌, ap, subst, List, [], ◌∷◌, ◌++◌,
  append-nil, append_assoc, true, false, some, All, All-append, Text, text_beq, print_ℤ, strtol,
  arith, ◌==◌,
}
use ewb_server.Zones.{is_empty, colon}
use ewb_server.Zones.Set.{lines, is_skipped, put_line}
use ewb_server.Zones.Visible.{lines-put_line}
use ewb_server.Matchmaker.Lines.{to_i32}
use ewb_server.Control.Ops.{
  OpsFile, ctl_level_valid, put, set, atoi, drop_blanks, last_colon, set_parts, load_line,
  load_lines, load, heading, entry_lines, serialize,
}
use ewb_server.Control.Ops.File.{IsDistinct, IsLevel, IsOps}

-- A digit that stands for a level.
abbrev IsDigitOf : ℤ → ℕ → Type 0
IsDigitOf l c = (print_ℤ l ≡ c ∷ []) × (atoi (c ∷ []) ≡ l) × (48 ≤ c) × (c ≤ 57)

level_digit : (l : ℤ) → ctl_level_valid l ≡ true → (c : ℕ) × IsDigitOf l c
unfolding print_ℤ atoi strtol to_i32
level_digit (negsuc n) h = absurd (ground (arith, h))
level_digit (pos zero) h = (b'0', (refl, refl, omega arith, omega arith))
level_digit (pos (suc zero)) h = (b'1', (refl, refl, omega arith, omega arith))
level_digit (pos (suc (suc zero))) h = (b'2', (refl, refl, omega arith, omega arith))
level_digit (pos (suc (suc (suc n)))) h = absurd (ground (arith, h))

-- A name that the loader reads back: on one line, not empty, and no comment.
pub record IsKept (name : Text) : Type 0 where
  pub one_line : All (λ c. c ≢ 10) name
  pub kept : is_skipped name ≡ false

abbrev line_of : Text → ℕ → Text
line_of name c = name ++ (b':' ∷ c ∷ [])

module _ (c : ℕ) (low : 48 ≤ c) (high : c ≤ 57) where
  line_filled : (name : Text) → is_empty (line_of name c) ≡ false
  line_filled [] = refl
  line_filled (x ∷ xs) = refl

  drop_blanks_line : (name : Text) → drop_blanks (line_of name c) ≡ line_of name c
  unfolding drop_blanks
  drop_blanks_line [] = ground arith
  drop_blanks_line (x ∷ xs) = rw (drop_blanks_line xs, line_filled xs) refl

  last_colon_line : (name : Text) → last_colon (line_of name c) ≡ some (name, c ∷ [])
  unfolding last_colon
  last_colon_line [] = let n : c == b':' ≡ false = ground arith in rw (n, last_colon) refl
  last_colon_line (x ∷ xs) = rw (last_colon_line xs) refl

  skipped_line : (name : Text) → is_skipped name ≡ false → is_skipped (line_of name c) ≡ false
  skipped_line [] h = cc
  skipped_line (x ∷ xs) h = h

  feedless_line : (name : Text) → All (λ x. x ≢ 10) name → All (λ x. x ≢ 10) (line_of name c)
  feedless_line name h = All-append _ name (b':' ∷ c ∷ []) h (omega arith, (omega arith, tt))

put_fresh :
    (name : Text) (lvl : ℤ) (es : OpsFile)
    → All (λ (e : Text × ℤ). text_beq e.0 name ≡ false) es
    → put name lvl es ≡ es ++ ((name, lvl) ∷ [])
unfolding put
put_fresh name lvl [] h = refl
put_fresh name lvl ((n, l) ∷ es) h = rw h.0 (ap (λ t. (n, l) ∷ t) (put_fresh name lvl es h.1))

before_last :
    (pre es : OpsFile) (name : Text) (lvl : ℤ)
    → IsDistinct (pre ++ ((name, lvl) ∷ es))
    → All (λ (e : Text × ℤ). text_beq e.0 name ≡ false) pre
before_last [] es name lvl h = tt
before_last ((n, l) ∷ pre) es name lvl h = (at_middle pre h.0, before_last pre es name lvl h.1)
  where
    at_middle :
        (vs : OpsFile)
        → All (λ (e : Text × ℤ). text_beq n e.0 ≡ false) (vs ++ ((name, lvl) ∷ es))
        → text_beq n name ≡ false
    at_middle [] k = k.0
    at_middle (w ∷ ws) k = at_middle ws k.1

set_fresh :
    (name : Text) (lvl : ℤ) (pre : OpsFile)
    → is_skipped name ≡ false
    → ctl_level_valid lvl ≡ true
    → All (λ (e : Text × ℤ). text_beq e.0 name ≡ false) pre
    → (set name lvl pre).0 ≡ pre ++ ((name, lvl) ∷ [])
unfolding set
set_fresh [] lvl pre k h a = cc
set_fresh (x ∷ xs) lvl pre k h a = rw h (put_fresh (x ∷ xs) lvl pre a)

abbrev IsWritten : Text × ℤ → Type 0
IsWritten e = IsKept e.0 × (ctl_level_valid e.1 ≡ true)

set_parts-some :
    (name level : Text) (es : OpsFile)
    → set_parts (some (name, level)) es ≡ (set name (atoi level) es).0
unfolding set_parts
set_parts-some name level es = refl

load_entry :
    (name : Text) (lvl : ℤ) (pre : OpsFile)
    → IsWritten (name, lvl)
    → All (λ (e : Text × ℤ). text_beq e.0 name ≡ false) pre
    → load_line (colon name (print_ℤ lvl)) pre ≡ pre ++ ((name, lvl) ∷ [])
unfolding load_line
load_entry name lvl pre w a =
    let (c, digit) = level_digit lvl w.1 in
    let (text, value, low, high) = digit in
    rw
      (
        text,
        drop_blanks_line c low high name,
        skipped_line c low high name (w.0).kept,
        last_colon_line c low high name,
        set_parts-some name (c ∷ []) pre,
        value,
      )
      (set_fresh name lvl pre (w.0).kept w.1 a)

feedless :
    (name : Text) (lvl : ℤ) → IsWritten (name, lvl) → All (λ x. x ≢ 10) (colon name (print_ℤ lvl))
feedless name lvl w =
    let (c, digit) = level_digit lvl w.1 in
    let (text, value, low, high) = digit in rw text (feedless_line c low high name (w.0).one_line)

load_more :
    (l : Text) (ls : List Text) (es : OpsFile)
    → load_lines (l ∷ ls) es ≡ load_lines ls (load_line l es)
unfolding load_lines
load_more l ls es = refl

load_entries :
    (es pre : OpsFile)
    → IsDistinct (pre ++ es)
    → All IsWritten es
    → load_lines (lines (entry_lines es)) pre ≡ pre ++ es
unfolding entry_lines
load_entries [] pre h k = unfold load_lines lines in sym (append-nil pre)
load_entries ((name, lvl) ∷ es) pre h k =
    let e : (pre ++ ((name, lvl) ∷ [])) ++ es ≡ pre ++ ((name, lvl) ∷ es) =
      append_assoc pre ((name, lvl) ∷ []) es in
    rw
      (
        lines-put_line (colon name (print_ℤ lvl)) (entry_lines es) (feedless name lvl k.0),
        load_more (colon name (print_ℤ lvl)) (lines (entry_lines es)) pre,
        load_entry name lvl pre k.0 (before_last pre es name lvl h),
      )
      (load_entries es (pre ++ ((name, lvl) ∷ [])) (subst IsDistinct (sym e) h) k.1 ∙ e)

load-heading : (rest : Text) → load (put_line heading rest) ≡ load_lines (lines rest) []
unfolding load lines load_lines load_line
load-heading rest = unfold drop_blanks in refl

-- Op levels that are written to the file and loaded from it are the same, in the same order, if no
-- name begins with `#` or holds a line end. A name may hold colons and blanks.
pub load-serialize_ops :
    (es : OpsFile) → IsOps es → All (λ (e : Text × ℤ). IsKept e.0) es → load (serialize es) ≡ es
unfolding serialize
load-serialize_ops es v k =
    load-heading (entry_lines es) ∙ load_entries es [] v.distinct (written es k v.levels)
  where
    written :
        (fs : OpsFile) → All (λ (e : Text × ℤ). IsKept e.0) fs → All IsLevel fs → All IsWritten fs
    written [] a b = tt
    written (f ∷ fs) a b = ((a.0, (b.0).1), written fs a.1 b.1)
