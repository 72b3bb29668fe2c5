-- ===== src/Matchmaker/Lines/Accepted.antt =====
-- What a row holds that was read from a line, whatever the line was.
use ewb_server.Base.{
  ℕ, ℤ, pos, ◌≤ℤ◌, leb_ℤ, ◌≡◌, ◌≢◌, refl, List, [], ◌∷◌, Bool, true, ◌&&◌, ◌||◌, not, Option, none,
  some, All, ltb, ◌==◌, length, get_or, Text, text_beq, strtol, at_nul, of_option, Ensures, holds,
  rejected, Ensures-guard, Ensures-bind, codes, arith, inl, inr, Bool-cases,
}
use ewb_server.Zones.{fields, is_empty}
use ewb_server.Matchmaker.{Inet, Registration, canonical_ipv4, print_found, c_str, max_name_len}
use ewb_server.Matchmaker.Names.{sanitize_name}
use ewb_server.Matchmaker.Names.Clean.{Fits, IsShown, sanitize_name-Fits}
use ewb_server.Matchmaker.Trust.{malformed}
use ewb_server.Matchmaker.Lines.{
  starts_with, parse_port, advertised, new_row, register_fields, parse_register, advertise_policy,
  persisted_fields, parse_persisted_line,
}

-- What `inet_ntop` is documented to give: digits and dots.
abbrev pub IsInet : Inet → Type 0
IsInet inet = (a : ℕ) (t : Text) → inet.ntop a ≡ some t → All IsShown t

abbrev pub IsPort : ℤ → Type 0
IsPort v = (pos 1 ≤ℤ v) × (v ≤ℤ pos 65535)

-- A row that can be listed.
pub record IsRow (r : Registration) : Type 0 where
  pub name : Fits IsShown max_name_len r.name
  pub named : r.name ≢ []
  pub ip : All IsShown r.ip
  pub port : IsPort r.port

filled : (s : Text) → not (is_empty s) ≡ true → s ≢ []
filled [] h = λ e. cc
filled (c ∷ cs) h = λ e. cc

parse_port-IsPort : (s : Text) → Ensures IsPort (parse_port s)
unfolding parse_port
parse_port-IsPort s =
    let v = (strtol s).value in
    Ensures-guard ((strtol s).found && at_nul (strtol s).rest) malformed λ _.
      Ensures-guard (leb_ℤ (pos 1) v && leb_ℤ v (pos 65535)) malformed
        λ h. holds (ground (arith, h), ground (arith, h))

module _ (inet : Inet) (law : IsInet inet) where
  shown :
      (a : ℕ) (o : Option Text) → inet.ntop a ≡ o → Ensures (All IsShown) (of_option malformed o)
  shown a none h = rejected
  shown a (some t) h = holds (law a t h)

  printed : (o : Option ℕ) → Ensures (All IsShown) (of_option malformed (print_found inet o))
  unfolding print_found
  printed none = rejected
  printed (some a) = shown a (inet.ntop a) refl

  canonical-IsShown :
      (s : Text) → Ensures (All IsShown) (of_option malformed (canonical_ipv4 inet s))
  unfolding canonical_ipv4
  canonical-IsShown [] = rejected
  canonical-IsShown (c ∷ cs) = printed (inet.pton (c_str (c ∷ cs)))

  advertised-IsShown :
      (adv peer : Text) → All IsShown peer → Ensures (All IsShown) (advertised inet adv peer)
  unfolding advertised
  advertised-IsShown [] peer h = holds h
  advertised-IsShown (c ∷ cs) peer h = canonical-IsShown (c ∷ cs)

  register_fields-IsRow :
      (f : List Text) (peer : Text) → All IsShown peer → Ensures IsRow (register_fields inet f peer)
  unfolding register_fields new_row
  register_fields-IsRow f peer h =
      let name = sanitize_name (get_or f 1 []) in
      Ensures-guard (not (ltb (length f) 4)) malformed λ _.
        Ensures-guard (not (is_empty name)) malformed λ n.
          Ensures-bind (parse_port-IsPort (get_or f 2 [])) λ port p.
            Ensures-bind (advertised-IsShown (get_or f 4 []) peer h) λ ip a.
              Ensures-guard (not (is_empty ip)) malformed λ _. holds (record {
                name = sanitize_name-Fits (get_or f 1 []);
                named = filled name n;
                ip = a;
                port = p;
              })

  -- A registration that is accepted is a row that can be listed, whatever the line says.
  pub parse_register-IsRow :
      (line peer : Text) → All IsShown peer → Ensures IsRow (parse_register inet line peer)
  unfolding parse_register
  parse_register-IsRow line peer h =
      Ensures-guard (starts_with (codes "REGISTER:") line) malformed
        λ _. register_fields-IsRow (fields line) peer h

  -- So is a row that is read from the file.
  pub parse_persisted_line-IsRow : (line : Text) → Ensures IsRow (parse_persisted_line inet line)
  unfolding parse_persisted_line persisted_fields new_row
  parse_persisted_line-IsRow line =
      let f = fields line in
      let name = sanitize_name (get_or f 0 []) in
      Ensures-guard (length f == 6) malformed λ _.
        Ensures-guard (not (is_empty (get_or f 0 []) || is_empty (get_or f 1 []))) malformed λ _.
          Ensures-bind (canonical-IsShown (get_or f 1 [])) λ ip a.
            Ensures-bind (parse_port-IsPort (get_or f 2 [])) λ port p.
              Ensures-guard (not (is_empty name)) malformed λ n. holds (record {
                name = sanitize_name-Fits (get_or f 0 []);
                named = filled name n;
                ip = a;
                port = p;
              })

pub advertise_policy-IsRow :
    (r : Registration) (peer fallback : Text) (trusted : Bool)
    → All IsShown fallback
    → IsRow r
    → IsRow (advertise_policy r peer fallback trusted).0
unfolding advertise_policy
advertise_policy-IsRow r peer fallback trusted h v =
    elim (Bool-cases (text_beq r.ip peer || text_beq r.ip fallback || trusted)) [
      | inl y ↦ rw y v
      | inr n ↦ rw n (record { name = v.name; named = v.named; ip = h; port = v.port })
    ]
