-- ===== src/Matchmaker/Names/Tidy.antt =====
-- matchmaker.h, `sanitize_name`: the names that it leaves as they are.
use ewb_server.Base.{
  ℕ, zero, suc, ◌+◌, ◌≤◌, ◌<◌, ◌≡◌, refl, sym, ap, ◌∙◌, subst, [], ◌∷◌, ◌++◌, append_assoc,
  append-nil, reverse, Bool, true, false, ◌&&◌, All, ◌⊎◌, length, length-append, drop, ltb, ◌==◌,
  arith, inl, inr, Bool-cases, Text,
}
use mathlib.Core.List.{reverse-cons, reverse-append, reverse-reverse}
use ewb_server.Zones.{is_empty}
use ewb_server.Matchmaker.{max_name_len}
use ewb_server.Matchmaker.Names.{
  Cleaned, is_cont, cont_run, trim_at, code_width, trim_partial_utf8, put_after, name_step,
  clean_bytes, sanitize_name,
}
use ewb_server.Matchmaker.Names.Clean.{IsShown, All-reverse, length-reverse}

-- Bytes that may be shown, no blank behind a blank and none at the end; `blank` says whether one
-- stands before them, as the front of a name counts.
abbrev pub IsSpaced : Bool → Text → Type 0
IsSpaced blank [] = blank ≡ false
IsSpaced blank (c ∷ cs) = IsShown c × ((c == 32) && blank ≡ false) × IsSpaced (c == 32) cs

-- The last character is whole: a byte of ASCII, or a first byte with the number of bytes behind it
-- that it asks for.
pub record EndsWhole (s : Text) : Type 0 where
  pub before : Text
  pub lead : ℕ
  pub conts : Text
  pub parts : s ≡ before ++ (lead ∷ conts)
  pub own : is_cont lead ≡ false
  pub more : All (λ c. is_cont c ≡ true) conts
  pub width :
      ((conts ≡ []) × (lead < 0x80)) ⊎ ((0x80 ≤ lead) × (length conts + 1 ≡ code_width lead))

pub record IsTidy (s : Text) : Type 0 where
  pub spaced : IsSpaced true s
  pub short : length s ≤ max_name_len
  pub whole : EndsWhole s

step_blank :
    (c : ℕ) (s : Cleaned)
    → IsShown c
    → (c == 32) ≡ true
    → name_step c s ≡ record s { pending = true }
unfolding name_step
step_blank c s shown h = let colon : (c == b':') ≡ false = ground (arith, h) in rw (colon, h) refl

step_plain :
    (c : ℕ) (o : Text)
    → IsShown c
    → (c == 32) ≡ false
    → length o < max_name_len
    → name_step c (record { out = o; pending = false })
      ≡ record { out = o ++ (c ∷ []); pending = false }
unfolding name_step put_after
step_plain c o shown h room =
    let colon : (c == b':') ≡ false = ground (arith, shown.0) in
    let tab : (c == 9) ≡ false = ground (arith, shown.1) in
    let low : ltb c 0x20 ≡ false = ground (arith, shown.1) in
    let del : (c == 0x7f) ≡ false = ground (arith, shown.1) in
    let fits : ltb (length o) max_name_len ≡ true = ground (arith, room) in
    rw (colon, h, tab, low, del, fits) refl

step_gap :
    (c : ℕ) (o : Text)
    → IsShown c
    → (c == 32) ≡ false
    → is_empty o ≡ false
    → length o + 1 < max_name_len
    → name_step c (record { out = o; pending = true })
      ≡ record { out = (o ++ (32 ∷ [])) ++ (c ∷ []); pending = false }
unfolding name_step put_after
step_gap c o shown h filled room =
    let colon : (c == b':') ≡ false = ground (arith, shown.0) in
    let tab : (c == 9) ≡ false = ground (arith, shown.1) in
    let low : ltb c 0x20 ≡ false = ground (arith, shown.1) in
    let del : (c == 0x7f) ≡ false = ground (arith, shown.1) in
    let fits : ltb (length o) max_name_len ≡ true = ground (arith, room) in
    let more : ltb (length (o ++ (32 ∷ []))) max_name_len ≡ true =
      ground (arith, room, length-append o (32 ∷ [])) in
    rw (colon, h, tab, low, del, filled, fits, more) refl

abbrev gap : Bool → Text
gap true = 32 ∷ []
gap false = []

more-filled : (o : Text) (c : ℕ) → is_empty (o ++ (c ∷ [])) ≡ false
more-filled [] c = refl
more-filled (d ∷ o) c = refl

-- `o` is cleaned, with a blank waiting where `blank` says so.
clean_bytes-spaced :
    (blank : Bool) (cs o : Text)
    → is_empty o ≡ false
    → IsSpaced blank cs
    → length o + length (gap blank) + length cs ≤ max_name_len
    → (clean_bytes cs (record { out = o; pending = blank })).out ≡ o ++ (gap blank ++ cs)
unfolding clean_bytes
clean_bytes-spaced true [] o f h room = cc
clean_bytes-spaced false [] o f h room = sym (append-nil o)
clean_bytes-spaced false (c ∷ cs) o f h room = elim (Bool-cases (c == 32)) [
  | inl y ↦
      (let e : c ≡ 32 = ground (arith, y) in
        let rest = subst (λ (b : Bool). IsSpaced b cs) y h.2 in
        ap (λ (s : Cleaned). (clean_bytes cs s).out)
          (step_blank c (record { out = o; pending = false }) h.0 y)
        ∙ clean_bytes-spaced true cs o f rest (omega (arith, room))
        ∙ ap (λ (d : ℕ). o ++ (d ∷ cs)) (sym e))
  | inr n ↦
      (let rest = subst (λ (b : Bool). IsSpaced b cs) n h.2 in
        ap (λ (s : Cleaned). (clean_bytes cs s).out) (step_plain c o h.0 n (omega (arith, room)))
        ∙ clean_bytes-spaced false cs (o ++ (c ∷ [])) (more-filled o c) rest
            (omega (arith, room, length-append o (c ∷ [])))
        ∙ append_assoc o (c ∷ []) cs)
]
clean_bytes-spaced true (c ∷ cs) o f h room =
    let n : (c == 32) ≡ false = ground (arith, h.1) in
    let rest = subst (λ (b : Bool). IsSpaced b cs) n h.2 in
    ap (λ (s : Cleaned). (clean_bytes cs s).out) (step_gap c o h.0 n f (omega (arith, room)))
    ∙ clean_bytes-spaced false cs ((o ++ (32 ∷ [])) ++ (c ∷ [])) (more-filled (o ++ (32 ∷ [])) c)
        rest
        (omega (arith, room, length-append o (32 ∷ []), length-append (o ++ (32 ∷ [])) (c ∷ [])))
    ∙ append_assoc (o ++ (32 ∷ [])) (c ∷ []) cs
    ∙ append_assoc o (32 ∷ []) (c ∷ cs)

clean_bytes-tidy :
    (s : Text) → IsTidy s → (clean_bytes s (record { out = []; pending = false })).out ≡ s
unfolding clean_bytes
clean_bytes-tidy [] h = refl
clean_bytes-tidy (c ∷ cs) h =
    let n : (c == 32) ≡ false = ground (arith, (h.spaced).1) in
    let rest = subst (λ (b : Bool). IsSpaced b cs) n (h.spaced).2 in
    ap (λ (s : Cleaned). (clean_bytes cs s).out) (step_plain c [] (h.spaced).0 n (omega arith))
    ∙ clean_bytes-spaced false cs (c ∷ []) refl rest (omega (arith, h.short))

cont_run-append :
    (n lead : ℕ) (cs r : Text)
    → All (λ c. is_cont c ≡ true) cs
    → is_cont lead ≡ false
    → length cs ≤ n
    → cont_run n (cs ++ (lead ∷ r)) ≡ length cs
unfolding cont_run
cont_run-append zero lead [] r h own le = refl
cont_run-append zero lead (c ∷ cs) r h own le = absurd (omega (arith, le))
cont_run-append (suc n) lead [] r h own le = rw own refl
cont_run-append (suc n) lead (c ∷ cs) r h own le =
    rw h.0 (ap suc (cont_run-append n lead cs r h.1 own (omega (arith, le))))

drop-length : (xs ys : Text) → drop (length xs) (xs ++ ys) ≡ ys
drop-length [] ys = refl
drop-length (x ∷ xs) ys = drop-length xs ys

code_width-le : (lead : ℕ) → code_width lead ≤ 4
unfolding code_width
code_width-le lead = ground arith

trim_at-whole :
    (s before conts : Text) (lead : ℕ)
    → reverse (lead ∷ reverse before) ≡ before ++ (lead ∷ [])
    → s ≡ before ++ (lead ∷ conts)
    → ((conts ≡ []) × (lead < 0x80)) ⊎ ((0x80 ≤ lead) × (length conts + 1 ≡ code_width lead))
    → trim_at s (length conts) (lead ∷ reverse before) ≡ s
unfolding trim_at
trim_at-whole s before conts lead back parts (inl (none_more, ascii)) =
    let low : ltb lead 0x80 ≡ true = ground (arith, ascii) in
    rw low (back ∙ ap (λ (t : Text). before ++ (lead ∷ t)) (sym none_more) ∙ sym parts)
trim_at-whole s before conts lead back parts (inr (high, width)) =
    let wide : ltb lead 0x80 ≡ false = ground (arith, high) in
    let some_width : (code_width lead == 0) ≡ false = ground (arith, width) in
    let same : (length conts + 1 == code_width lead) ≡ true = ground (arith, width) in
    rw (wide, some_width, same) refl

reversed :
    (before conts : Text) (lead : ℕ)
    → reverse (before ++ (lead ∷ conts)) ≡ reverse conts ++ (lead ∷ reverse before)
reversed before conts lead =
    reverse-append before (lead ∷ conts)
    ∙ ap (λ (t : Text). t ++ reverse before) (reverse-cons lead conts)
    ∙ append_assoc (reverse conts) (lead ∷ []) (reverse before)

trim_partial_utf8-whole : (s : Text) → EndsWhole s → trim_partial_utf8 s ≡ s
unfolding trim_partial_utf8
trim_partial_utf8-whole s h =
    let back : reverse s ≡ reverse h.conts ++ (h.lead ∷ reverse h.before) =
      ap reverse h.parts ∙ reversed h.before h.conts h.lead in
    let size : length (reverse h.conts) ≡ length h.conts = length-reverse h.conts in
    let run : cont_run 3 (reverse s) ≡ length h.conts =
      ap (cont_run 3) back
      ∙ cont_run-append 3 h.lead (reverse h.conts) (reverse h.before)
          (All-reverse (λ c. is_cont c ≡ true) h.conts h.more) h.own
          (omega (arith, size, conts-short h.conts h.lead h.width))
      ∙ size in
    let left : drop (length h.conts) (reverse s) ≡ h.lead ∷ reverse h.before =
      ap (drop (length h.conts)) back
      ∙ ap (λ (n : ℕ). drop n (reverse h.conts ++ (h.lead ∷ reverse h.before))) (sym size)
      ∙ drop-length (reverse h.conts) (h.lead ∷ reverse h.before) in
    rw (run, left)
      (trim_at-whole s h.before h.conts h.lead
        (reverse-cons h.lead (reverse h.before)
          ∙ ap (λ (t : Text). t ++ (h.lead ∷ [])) (reverse-reverse h.before))
        h.parts h.width)
  where
    conts-short :
        (conts : Text) (lead : ℕ)
        → ((conts ≡ []) × (lead < 0x80)) ⊎ ((0x80 ≤ lead) × (length conts + 1 ≡ code_width lead))
        → length conts ≤ 3
    conts-short conts lead (inl (e, ascii)) = omega (arith, ap length e)
    conts-short conts lead (inr (high, width)) = omega (arith, width, code_width-le lead)

-- A tidy name stays as it is.
pub sanitize_name-tidy : (s : Text) → IsTidy s → sanitize_name s ≡ s
unfolding sanitize_name
sanitize_name-tidy s h = rw (clean_bytes-tidy s h) (trim_partial_utf8-whole s h.whole)
