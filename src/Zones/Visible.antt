-- ===== src/Zones/Visible.antt =====
-- The bytes of a written zone: none of them is a blank or ends a line, so the loader reads the line
-- as it was written.
use ewb_server.Base.{
  ℕ, ◌<◌, ◌≡◌, ◌≢◌, refl, ℤ, [], ◌∷◌, ◌++◌, true, false, All, All-append, Text, arith, inl, inr,
  Bool-cases, print_ℤ,
}
use ewb_server.Base.Decimal.RoundTrip.{print_ℤ-IsNumeric, IsNumeric}
use ewb_server.Zones.{
  Zone, zone_serialize_line, colon, tail_text, flag_text, name_byte, all_name_bytes,
  zone_name_valid,
}
use ewb_server.Zones.Line.{IsZone}
use ewb_server.Zones.Set.{lines, drop_end, drop_front, is_skipped, put_line}

-- A byte above the blanks and the line ends.
abbrev pub IsVisible : ℕ → Type 0
IsVisible c = 32 < c

abbrev pub AllVisible : Text → Type 0
AllVisible = All IsVisible

pub lines-put_line :
    (s rest : Text) → All (λ c. c ≢ 10) s → lines (put_line s rest) ≡ s ∷ lines rest
unfolding lines
lines-put_line [] rest h = refl
lines-put_line (c ∷ cs) rest h = ground (arith, lines-put_line cs rest h.1, h.0)

pub visible_line : (s : Text) → AllVisible s → All (λ c. c ≢ 10) s
visible_line [] h = tt
visible_line (c ∷ cs) h = (omega (arith, h.0), visible_line cs h.1)

pub drop_end_visible : (s : Text) → AllVisible s → drop_end s ≡ s
unfolding drop_end
drop_end_visible [] h = refl
drop_end_visible (c ∷ cs) h = ground (arith, drop_end_visible cs h.1, h.0)

pub drop_front_visible : (s : Text) → AllVisible s → drop_front s ≡ s
unfolding drop_front
drop_front_visible [] h = refl
drop_front_visible (c ∷ cs) h = ground (arith, h.0)

colon-AllVisible : (s t : Text) → AllVisible s → AllVisible t → AllVisible (colon s t)
colon-AllVisible s t h k = All-append IsVisible s (b':' ∷ t) h (omega arith, k)

numeric-AllVisible : (s : Text) → All IsNumeric s → AllVisible s
numeric-AllVisible [] h = tt
numeric-AllVisible (c ∷ cs) h = (ground (arith, h.0), numeric-AllVisible cs h.1)

number-AllVisible : (v : ℤ) → AllVisible (print_ℤ v)
number-AllVisible v = numeric-AllVisible (print_ℤ v) (print_ℤ-IsNumeric v)

name-AllVisible : (s : Text) → all_name_bytes s ≡ true → AllVisible s
unfolding all_name_bytes name_byte
name-AllVisible [] h = tt
name-AllVisible (c ∷ cs) h = (ground (arith, h), name-AllVisible cs (ground (arith, h)))

flag-AllVisible : (r : Zone) → AllVisible (flag_text r)
unfolding flag_text
flag-AllVisible r = elim (Bool-cases r.enforced) [
  | inl e ↦ rw e (omega arith, (omega arith, (omega arith, tt)))
  | inr e ↦ rw e (omega arith, (omega arith, (omega arith, tt)))
]

tail-AllVisible : (r : Zone) → AllVisible (tail_text r)
unfolding tail_text
tail-AllVisible r = elim (Bool-cases r.has_level) [
  | inl e ↦ rw e (colon-AllVisible (flag_text r) _ (flag-AllVisible r) (number-AllVisible r.level))
  | inr e ↦ rw e (flag-AllVisible r)
]

valid_name : (s : Text) → zone_name_valid s ≡ true → (s ≢ []) × (all_name_bytes s ≡ true)
unfolding zone_name_valid
valid_name [] h = cc
valid_name (c ∷ cs) h = (λ e. cc, ground (arith, h))

pub zone_serialize_line-AllVisible : (r : Zone) → IsZone r → AllVisible (zone_serialize_line r)
unfolding zone_serialize_line
zone_serialize_line-AllVisible r v =
    colon-AllVisible r.name _ (name-AllVisible r.name (valid_name r.name v.name).1) (
      number r.x0 _ (
        number r.y0 _
          (number r.z0 _ (number r.x1 _ (number r.y1 _ (number r.z1 _ (tail-AllVisible r)))))))
  where
    number : (v : ℤ) (t : Text) → AllVisible t → AllVisible (colon (print_ℤ v) t)
    number v t h = colon-AllVisible (print_ℤ v) t (number-AllVisible v) h

not_skipped : (s t : Text) → s ≢ [] → all_name_bytes s ≡ true → is_skipped (s ++ t) ≡ false
unfolding all_name_bytes name_byte
not_skipped [] t n h = absurd (n refl)
not_skipped (c ∷ cs) t n h = ground (arith, h)

pub line_skipped : (r : Zone) → IsZone r → is_skipped (zone_serialize_line r) ≡ false
unfolding zone_serialize_line
line_skipped r v = let (n, h) = valid_name r.name v.name in not_skipped r.name _ n h
