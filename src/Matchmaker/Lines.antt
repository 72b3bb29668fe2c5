-- ===== src/Matchmaker/Lines.antt =====
-- matchmaker.h: the lines that a game server sends (`parse_register`, `parse_ping`), where a row is
-- advertised (`advertise_policy`), and the file of the registry.
pub mod Accepted
pub mod RoundTrip
use ewb_server.Base.{
  ℕ, suc, ◌+◌, ◌-◌, ◌%◌, ◌^◌, ℤ, pos, negsuc, eqb_ℤ, leb_ℤ, ltb_ℤ, min_ℤ, List, [], ◌∷◌, ◌++◌, Bool,
  true, false, ◌&&◌, ◌||◌, not, Option, none, some, ltb, leb, ◌==◌, if◌then◌else◌, length, get_or,
  drop, Text, codes, text_beq, print_ℤ, strtol, at_nul, Result, ok, err, ◌>>=◌, ◌>>◌, guard,
  of_option,
}
use ewb_server.Zones.{fields, is_empty, colon}
use ewb_server.Zones.Set.{put_line}
use ewb_server.Matchmaker.{Inet, Registration, canonical_ipv4, max_reported_players}
use ewb_server.Matchmaker.Names.{sanitize_name}
use ewb_server.Matchmaker.Trust.{Malformed, malformed}

-- `line.rfind(prefix, 0) == 0`.
unfoldable pub starts_with : Text → Text → Bool
starts_with [] line = true
starts_with (p ∷ ps) [] = false
starts_with (p ∷ ps) (c ∷ cs) = (p == c) && starts_with ps cs

-- `strtol` with the whole field read, and a port that TCP has.
unfoldable pub parse_port : Text → Result Malformed ℤ
parse_port s = do
  let r = strtol s
  guard (r.found && at_nul r.rest) malformed
  guard (leb_ℤ (pos 1) r.value && leb_ℤ r.value (pos 65535)) malformed
  ok r.value

unfoldable pub password_flag : Text → Bool
password_flag s = not (is_empty s) && not (text_beq s (codes "0"))

-- The advertised address, or the peer's where none is given.
unfoldable pub advertised : Inet → Text → Text → Result Malformed Text
advertised inet [] peer = ok peer
advertised inet (c ∷ cs) peer = of_option malformed (canonical_ipv4 inet (c ∷ cs))

unfoldable pub new_row : Text → Text → ℤ → Bool → Registration
new_row name ip port locked = record {
  name = name;
  ip = ip;
  port = port;
  has_password = locked;
  players = pos 0;
  flag6 = pos 0;
  last_seen = pos 0;
  conn = 0;
  peer = [];
}

unfoldable pub register_fields : Inet → List Text → Text → Result Malformed Registration
unfolding parse_port password_flag advertised new_row
register_fields inet f peer = do
  guard (not (ltb (length f) 4)) malformed
  guard (not (is_empty (sanitize_name (get_or f 1 [])))) malformed
  port ← parse_port (get_or f 2 [])
  ip ← advertised inet (get_or f 4 []) peer
  guard (not (is_empty ip)) malformed
  ok (new_row (sanitize_name (get_or f 1 [])) ip port (password_flag (get_or f 3 [])))

unfoldable pub parse_register : Inet → Text → Text → Result Malformed Registration
unfolding starts_with register_fields fields
parse_register inet line peer = do
  guard (starts_with (codes "REGISTER:") line) malformed
  register_fields inet (fields line) peer

-- The row, and whether the claim was overridden.
unfoldable pub advertise_policy : Registration → Text → Text → Bool → Registration × Bool
advertise_policy r peer fallback trusted =
    if text_beq r.ip peer || text_beq r.ip fallback || trusted
    then (r, false)
    else (record r { ip = fallback }, true)

unfoldable pub parse_ping : Text → Result Malformed ℤ
unfolding starts_with
parse_ping line = do
  guard (starts_with (codes "PING:") line) malformed
  let arg = drop 5 line
  guard (not (is_empty arg)) malformed
  let r = strtol arg
  guard (r.found && at_nul r.rest && not (ltb_ℤ r.value (pos 0))) malformed
  ok (min_ℤ r.value (pos max_reported_players))

unfoldable pub bit_text : Bool → Text
bit_text b = if b then codes "1" else codes "0"

unfoldable pub serialize_entry : Registration → Text
unfolding bit_text
serialize_entry r = colon r.name (
    colon r.ip (
      colon (print_ℤ r.port)
        (colon (bit_text r.has_password) (colon (print_ℤ r.players) (print_ℤ r.flag6)))))

unfoldable pub serialize_registry : List Registration → Text
unfolding serialize_entry
serialize_registry [] = []
serialize_registry (r ∷ rs) = put_line (serialize_entry r) (serialize_registry rs)

-- `static_cast<int>` of a `long`.
unfoldable pub to_i32 : ℤ → ℤ
to_i32 (pos n) = let u = n % 2 ^ 32 in if ltb u (2 ^ 31) then pos u else negsuc (2 ^ 32 - 1 - u)
to_i32 (negsuc n) = let u = n % 2 ^ 32 in if ltb u (2 ^ 31) then negsuc u else pos (2 ^ 32 - 1 - u)

-- A count that is no number is 0.
unfoldable pub count_of : Text → ℤ
unfolding to_i32
count_of s = let r = strtol s in if r.found then to_i32 r.value else pos 0

unfoldable pub persisted_fields : Inet → List Text → Result Malformed Registration
unfolding count_of parse_port password_flag new_row
persisted_fields inet f = do
  guard (length f == 6) malformed
  guard (not (is_empty (get_or f 0 []) || is_empty (get_or f 1 []))) malformed
  ip ← of_option malformed (canonical_ipv4 inet (get_or f 1 []))
  port ← parse_port (get_or f 2 [])
  guard (not (is_empty (sanitize_name (get_or f 0 [])))) malformed
  let row = new_row (sanitize_name (get_or f 0 [])) ip port (password_flag (get_or f 3 []))
  ok (record row { players = count_of (get_or f 4 []); flag6 = count_of (get_or f 5 []) })

unfoldable pub parse_persisted_line : Inet → Text → Result Malformed Registration
unfolding persisted_fields fields
parse_persisted_line inet line = persisted_fields inet (fields line)
