-- ===== src/Matchmaker/Listing/Rows.antt =====
-- The lines of a LIST reply.
use ewb_server.Base.{
  ℤ, ◌≡◌, ◌≢◌, refl, List, [], ◌∷◌, ◌++◌, map, Bool, true, false, All, All-append, Text, codes,
  text_ltb, print_ℤ, arith, inl, inr, Bool-cases,
}
use mathlib.Core.List.{Perm}
use mathlib.Core.List.Perm
use ewb_server.Base.Decimal.RoundTrip.{IsNumeric, print_ℤ-IsNumeric}
use ewb_server.Zones.{fields, colon}
use ewb_server.Zones.Line.{fields-colon, fields_one, print_ℤ-NoColon}
use ewb_server.Zones.Set.{lines}
use ewb_server.Zones.Visible.{lines-put_line}
use ewb_server.Matchmaker.{Registration}
use ewb_server.Matchmaker.Names.Clean.{IsShown}
use ewb_server.Matchmaker.Lines.{bit_text}
use ewb_server.Matchmaker.Lines.Accepted.{IsRow}
use ewb_server.Matchmaker.Lines.RoundTrip.{shown-NoColon, bit_text-NoColon}
use ewb_server.Matchmaker.Listing.{
  RowForm, row_tail, format_server_row, goes_before, place, stable_sort, list_lines, format_list,
}

abbrev NoFeed : Text → Type 0
NoFeed = All (λ c. c ≢ 10)

shown-NoFeed : (s : Text) → All IsShown s → NoFeed s
shown-NoFeed [] h = tt
shown-NoFeed (c ∷ cs) h = (omega (arith, (h.0).1), shown-NoFeed cs h.1)

numeric-NoFeed : (s : Text) → All IsNumeric s → NoFeed s
numeric-NoFeed [] h = tt
numeric-NoFeed (c ∷ cs) h = (ground (arith, h.0), numeric-NoFeed cs h.1)

colon-NoFeed : (s t : Text) → NoFeed s → NoFeed t → NoFeed (colon s t)
colon-NoFeed s t h k = All-append _ s (b':' ∷ t) h (omega arith, k)

print-NoFeed : (v : ℤ) → NoFeed (print_ℤ v)
print-NoFeed v = numeric-NoFeed (print_ℤ v) (print_ℤ-IsNumeric v)

bit-NoFeed : (b : Bool) → NoFeed (bit_text b)
unfolding bit_text
bit-NoFeed true = (omega arith, tt)
bit-NoFeed false = (omega arith, tt)

row_tail-NoFeed : (r : Registration) (form : RowForm) → NoFeed (row_tail r form)
unfolding row_tail
row_tail-NoFeed r RowForm.capture7 =
    colon-NoFeed _ _ (bit-NoFeed r.has_password)
      (colon-NoFeed _ _ (print-NoFeed r.players) (print-NoFeed r.flag6))
row_tail-NoFeed r RowForm.prod6 =
    colon-NoFeed _ _ (bit-NoFeed r.has_password) (print-NoFeed r.players)
row_tail-NoFeed r RowForm.sketch4 = bit-NoFeed r.has_password

server_text : Text
server_text = codes "SERVER"

row-NoFeed : (r : Registration) (form : RowForm) → IsRow r → NoFeed (format_server_row r form)
unfolding format_server_row
row-NoFeed r form v =
    colon-NoFeed (codes "SERVER") _
      (omega arith, (omega arith, (omega arith, (omega arith, (omega arith, (omega arith, tt))))))
      (colon-NoFeed r.name _ (shown-NoFeed r.name (v.name).bytes) (
        colon-NoFeed r.ip _ (shown-NoFeed r.ip v.ip)
          (colon-NoFeed (print_ℤ r.port) _ (print-NoFeed r.port) (row_tail-NoFeed r form))))

-- The fields of a row, by its form.
abbrev pub tail_fields : Registration → RowForm → List Text
tail_fields r RowForm.capture7 = bit_text r.has_password ∷ print_ℤ r.players ∷ print_ℤ r.flag6 ∷ []
tail_fields r RowForm.prod6 = bit_text r.has_password ∷ print_ℤ r.players ∷ []
tail_fields r RowForm.sketch4 = bit_text r.has_password ∷ []

abbrev pub row_fields : RowForm → Registration → List Text
row_fields form r = codes "SERVER" ∷ r.name ∷ r.ip ∷ print_ℤ r.port ∷ tail_fields r form

fields-row_tail :
    (r : Registration) (form : RowForm) → fields (row_tail r form) ≡ tail_fields r form
unfolding row_tail
fields-row_tail r RowForm.capture7 =
    rw
      (
        fields-colon (bit_text r.has_password) _ (bit_text-NoColon r.has_password),
        fields-colon (print_ℤ r.players) _ (print_ℤ-NoColon r.players),
        fields_one (print_ℤ r.flag6) (print_ℤ-NoColon r.flag6),
      )
      refl
fields-row_tail r RowForm.prod6 =
    rw
      (
        fields-colon (bit_text r.has_password) _ (bit_text-NoColon r.has_password),
        fields_one (print_ℤ r.players) (print_ℤ-NoColon r.players),
      )
      refl
fields-row_tail r RowForm.sketch4 =
    fields_one (bit_text r.has_password) (bit_text-NoColon r.has_password)

fields-row :
    (r : Registration) (form : RowForm)
    → IsRow r
    → fields (format_server_row r form) ≡ row_fields form r
unfolding format_server_row
fields-row r form v =
    rw
      (
        fields-colon (codes "SERVER") _ (
          omega arith,
          (omega arith, (omega arith, (omega arith, (omega arith, (omega arith, tt))))),
        ),
        fields-colon r.name _ (shown-NoColon r.name (v.name).bytes),
        fields-colon r.ip _ (shown-NoColon r.ip v.ip),
        fields-colon (print_ℤ r.port) _ (print_ℤ-NoColon r.port),
        fields-row_tail r form,
      )
      refl

list_lines-rows :
    (rs : List Registration) (form : RowForm)
    → All IsRow rs
    → map fields (lines (list_lines rs form))
      ≡ map (row_fields form) rs ++ ((codes "END" ∷ []) ∷ [])
unfolding list_lines lines fields
list_lines-rows [] form h = refl
list_lines-rows (r ∷ rs) form h =
    rw
      (
        lines-put_line (format_server_row r form) (list_lines rs form) (row-NoFeed r form h.0),
        fields-row r form h.0,
        list_lines-rows rs form h.1,
      )
      refl

text_ltb_asym : (s t : Text) → text_ltb s t ≡ true → text_ltb t s ≡ false
text_ltb_asym [] [] h = cc
text_ltb_asym [] (y ∷ ys) h = refl
text_ltb_asym (x ∷ xs) [] h = cc
text_ltb_asym (x ∷ xs) (y ∷ ys) h = ground (arith, text_ltb_asym xs ys)

goes_before_asym : (a b : Registration) → goes_before a b ≡ true → goes_before b a ≡ false
goes_before_asym a b h = ground (arith, h, text_ltb_asym a.name b.name)

-- No row goes before the one that stands in front of it.
abbrev pub IsOrdered : List Registration → Type 0
IsOrdered [] = Unit {0}
IsOrdered (r ∷ []) = Unit {0}
IsOrdered (r ∷ e ∷ es) = (goes_before e r ≡ false) × IsOrdered (e ∷ es)

-- What may stand behind `e`.
abbrev Follows : Registration → List Registration → Type 0
Follows e [] = Unit {0}
Follows e (f ∷ fs) = goes_before f e ≡ false

IsOrdered-cons :
    (e : Registration) (es : List Registration) → Follows e es → IsOrdered es → IsOrdered (e ∷ es)
IsOrdered-cons e [] h k = tt
IsOrdered-cons e (f ∷ fs) h k = (h, k)

IsOrdered-head :
    (e : Registration) (es : List Registration) → IsOrdered (e ∷ es) → Follows e es × IsOrdered es
IsOrdered-head e [] h = (tt, tt)
IsOrdered-head e (f ∷ fs) h = h

place-Follows :
    (e r : Registration) (es : List Registration)
    → goes_before e r ≡ true
    → Follows e es
    → Follows e (place r es)
unfolding place
place-Follows e r [] y h = goes_before_asym e r y
place-Follows e r (f ∷ fs) y h = elim (Bool-cases (goes_before f r)) [
  | inl z ↦ rw z h
  | inr n ↦ rw n (goes_before_asym e r y)
]

place-IsOrdered :
    (r : Registration) (es : List Registration) → IsOrdered es → IsOrdered (place r es)
unfolding place
place-IsOrdered r [] h = tt
place-IsOrdered r (e ∷ es) h = elim (Bool-cases (goes_before e r)) [
  | inl y ↦ rw y (
      let (k, l) = IsOrdered-head e es h in
      IsOrdered-cons e (place r es) (place-Follows e r es y k) (place-IsOrdered r es l))
  | inr n ↦ rw n (n, h)
]

place-Perm : (r : Registration) (es : List Registration) → Perm (place r es) (r ∷ es)
unfolding place
place-Perm r [] = Perm.refl (r ∷ [])
place-Perm r (e ∷ es) = elim (Bool-cases (goes_before e r)) [
  | inl y ↦ rw y (Perm.trans (Perm.cons e (place-Perm r es)) (Perm.swap r e es))
  | inr n ↦ rw n (Perm.refl (r ∷ e ∷ es))
]

stable_sort-IsOrdered : (rs : List Registration) → IsOrdered (stable_sort rs)
unfolding stable_sort
stable_sort-IsOrdered [] = tt
stable_sort-IsOrdered (r ∷ rs) = place-IsOrdered r (stable_sort rs) (stable_sort-IsOrdered rs)

stable_sort-Perm : (rs : List Registration) → Perm (stable_sort rs) rs
unfolding stable_sort
stable_sort-Perm [] = Perm.refl []
stable_sort-Perm (r ∷ rs) =
    Perm.trans (place-Perm r (stable_sort rs)) (Perm.cons r (stable_sort-Perm rs))

All-place :
    (P : Registration → Type 0) (r : Registration) (es : List Registration)
    → P r
    → All P es
    → All P (place r es)
unfolding place
All-place P r [] p h = (p, tt)
All-place P r (e ∷ es) p h = ground (arith, All-place P r es p h.1)

All-stable_sort :
    (P : Registration → Type 0) (rs : List Registration) → All P rs → All P (stable_sort rs)
unfolding stable_sort
All-stable_sort P [] h = tt
All-stable_sort P (r ∷ rs) h = All-place P r (stable_sort rs) h.0 (All-stable_sort P rs h.1)

-- A reply to LIST, cut into lines and fields, is one row for each registration and END, with the
-- fields of its form and no others; `sorted` is the order of the rows.
pub record IsListing (form : RowForm) (rs : List Registration) (reply : Text) : Type 0 where
  pub sorted : List Registration
  pub rows : map fields (lines reply) ≡ map (row_fields form) sorted ++ ((codes "END" ∷ []) ∷ [])
  pub ordered : IsOrdered sorted
  pub all : Perm sorted rs

pub format_list-IsListing :
    (rs : List Registration) (form : RowForm)
    → All IsRow rs
    → IsListing form rs (format_list rs form)
unfolding format_list
format_list-IsListing rs form h = record {
  sorted = stable_sort rs;
  rows = list_lines-rows (stable_sort rs) form (All-stable_sort IsRow rs h);
  ordered = stable_sort-IsOrdered rs;
  all = stable_sort-Perm rs;
}
