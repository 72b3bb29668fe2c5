-- ===== src/Matchmaker/Lines/RoundTrip.antt =====
-- A row that is written to the registry's file and read back.
use ewb_server.Base.{
  ◌^◌, ◌<◌, ℤ, pos, negsuc, leb_ℤ, ◌≡◌, refl, [], ◌∷◌, Bool, true, false, ◌&&◌, some, All, Text,
  print_ℤ, ok, arith,
}
use ewb_server.Base.Decimal.RoundTrip.{IsI64, parse_i64-print_ℤ, parse_i64-parts}
use ewb_server.Zones.{fields, is_empty}
use ewb_server.Zones.Line.{NoColon, fields-colon, fields_one, print_ℤ-NoColon, nonempty_text}
use ewb_server.Matchmaker.{Inet, Registration, canonical_ipv4}
use ewb_server.Matchmaker.Names.Tidy.{IsTidy, sanitize_name-tidy}
use ewb_server.Matchmaker.Names.Clean.{IsShown}
use ewb_server.Matchmaker.Lines.{
  parse_port, password_flag, new_row, bit_text, serialize_entry, to_i32, count_of, persisted_fields,
  parse_persisted_line,
}
use ewb_server.Matchmaker.Lines.Accepted.{IsPort, IsRow}

abbrev pub IsI32 : ℤ → Type 0
IsI32 (pos n) = n < 2 ^ 31
IsI32 (negsuc n) = n < 2 ^ 31

-- A row with a tidy name, an address as `inet_ntop` writes it, and numbers that an `int` holds.
pub record IsSettled (inet : Inet) (r : Registration) : Type 0 where
  pub row : IsRow r
  pub name : IsTidy r.name
  pub ip : canonical_ipv4 inet r.ip ≡ some r.ip
  pub players : IsI32 r.players
  pub flag6 : IsI32 r.flag6

pub shown-NoColon : (s : Text) → All IsShown s → NoColon s
shown-NoColon [] h = tt
shown-NoColon (c ∷ cs) h = ((h.0).0, shown-NoColon cs h.1)

IsI64-of_i32 : (v : ℤ) → IsI32 v → IsI64 v
IsI64-of_i32 (pos n) h = omega arith
IsI64-of_i32 (negsuc n) h = omega arith

IsI64-of_port : (v : ℤ) → IsPort v → IsI64 v
IsI64-of_port (pos n) h = omega (arith, h.1)
IsI64-of_port (negsuc n) h = absurd (omega (arith, h.0))

to_i32_small : (v : ℤ) → IsI32 v → to_i32 v ≡ v
unfolding to_i32
to_i32_small (pos n) h = ground arith
to_i32_small (negsuc n) h = ground arith

count_of-print_ℤ : (v : ℤ) → IsI32 v → count_of (print_ℤ v) ≡ v
unfolding count_of
count_of-print_ℤ v h =
    let (found, end, value) =
      parse_i64-parts (print_ℤ v) v (parse_i64-print_ℤ v (IsI64-of_i32 v h)) in
    rw (found, value) (to_i32_small v h)

port_tests : (v : ℤ) → IsPort v → (leb_ℤ (pos 1) v && leb_ℤ v (pos 65535)) ≡ true
port_tests v h = ground (arith, h.0, h.1)

parse_port-print_ℤ : (v : ℤ) → IsPort v → parse_port (print_ℤ v) ≡ ok v
unfolding parse_port
parse_port-print_ℤ v h =
    let (found, end, value) =
      parse_i64-parts (print_ℤ v) v (parse_i64-print_ℤ v (IsI64-of_port v h)) in
    rw (found, end, value, port_tests v h) refl

pub bit_text-NoColon : (b : Bool) → NoColon (bit_text b)
unfolding bit_text
bit_text-NoColon true = (omega arith, tt)
bit_text-NoColon false = (omega arith, tt)

password_flag-bit_text : (b : Bool) → password_flag (bit_text b) ≡ b
unfolding password_flag bit_text
password_flag-bit_text true = refl
password_flag-bit_text false = refl

canonical_filled : (inet : Inet) (s : Text) → canonical_ipv4 inet s ≡ some s → is_empty s ≡ false
unfolding canonical_ipv4
canonical_filled inet [] h = cc
canonical_filled inet (c ∷ cs) h = refl

fields-serialize_entry :
    (r : Registration)
    → IsRow r
    → fields (serialize_entry r)
      ≡ r.name
        ∷ r.ip
        ∷ print_ℤ r.port
        ∷ bit_text r.has_password
        ∷ print_ℤ r.players
        ∷ print_ℤ r.flag6
        ∷ []
unfolding serialize_entry
fields-serialize_entry r v =
    rw
      (
        fields-colon r.name _ (shown-NoColon r.name (v.name).bytes),
        fields-colon r.ip _ (shown-NoColon r.ip v.ip),
        fields-colon (print_ℤ r.port) _ (print_ℤ-NoColon r.port),
        fields-colon (bit_text r.has_password) _ (bit_text-NoColon r.has_password),
        fields-colon (print_ℤ r.players) _ (print_ℤ-NoColon r.players),
        fields_one (print_ℤ r.flag6) (print_ℤ-NoColon r.flag6),
      )
      refl

-- The file gives back a row as it was written, but for its connection, its time and its peer, which
-- are not written, if the address is as `inet_ntop` writes it and the name has no blank at an end,
-- none behind another, and no character at its end that is cut short.
pub parse_persisted_line-serialize_entry :
    (inet : Inet) (r : Registration)
    → IsSettled inet r
    → parse_persisted_line inet (serialize_entry r)
      ≡ ok (record r { last_seen = pos 0; conn = 0; peer = [] })
unfolding parse_persisted_line persisted_fields new_row
parse_persisted_line-serialize_entry inet r v =
    rw
      (
        fields-serialize_entry r v.row,
        sanitize_name-tidy r.name v.name,
        nonempty_text r.name (v.row).named,
        canonical_filled inet r.ip v.ip,
        v.ip,
        parse_port-print_ℤ r.port (v.row).port,
        password_flag-bit_text r.has_password,
        count_of-print_ℤ r.players v.players,
        count_of-print_ℤ r.flag6 v.flag6,
      )
      refl
