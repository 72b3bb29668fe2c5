-- ===== src/Matchmaker/Trust.antt =====
-- matchmaker.h, `TrustList`: the peers that may advertise an address other than their own.
use ewb_server.Base.{
  ℕ, ◌-◌, ◌^◌, pos, pos_part, ltb_ℤ, List, [], ◌∷◌, reverse, Bool, true, false, ◌||◌, not, Option,
  none, some, ◌==◌, if◌then◌else◌, Text, bit_and, is_space, at_nul, strtol, Result, ok, err, ◌>>=◌,
  ◌>>◌, guard, of_option,
}
use ewb_server.Zones.{is_empty}
use ewb_server.Matchmaker.{Inet, ipv4_to_u32, in_loopback}

pub record Net : Type 0 where
  pub net : ℕ
  pub mask : ℕ

pub data Malformed : Type 0 where
  malformed : Malformed

abbrev cons_first : ℕ → List Text → List Text
cons_first c [] = (c ∷ []) ∷ []
cons_first c (f ∷ fs) = (c ∷ f) ∷ fs

-- The loop that cuts the text at every comma.
entries_of : Text → List Text
entries_of [] = [] ∷ []
entries_of (c ∷ cs) = let rest = entries_of cs in if c == b',' then [] ∷ rest else cons_first c rest

drop_spaces : Text → Text
drop_spaces [] = []
drop_spaces (c ∷ cs) = if is_space c then drop_spaces cs else c ∷ cs

trim_spaces : Text → Text
unfolding drop_spaces
trim_spaces s = reverse (drop_spaces (reverse (drop_spaces s)))

-- `e` up to the first slash, and the text behind it if there is one.
cut_slash : Text → Text × Option Text
cut_slash [] = ([], none)
cut_slash (c ∷ cs) =
    let (front, back) = cut_slash cs in if c == b'/' then ([], some cs) else (c ∷ front, back)

bits_of : Option Text → Result Malformed ℕ
bits_of none = ok 32
bits_of (some b) = do
  let r = strtol b
  guard (not (is_empty b || not (at_nul r.rest) || ltb_ℤ r.value (pos 0) || ltb_ℤ (pos 32) r.value))
      malformed
  ok (pos_part r.value)

-- `bits == 0 ? 0u : ~uint32_t(0) << (32 - bits)`.
unfoldable pub mask_of : ℕ → ℕ
mask_of bits = if bits == 0 then 0 else 2 ^ 32 - 2 ^ (32 - bits)

parse_entry : Inet → Text × Option Text → Result Malformed Net
unfolding bits_of mask_of
parse_entry inet (e, back) = do
  bits ← bits_of back
  addr ← of_option malformed (ipv4_to_u32 inet e)
  ok (record { net = bit_and addr (mask_of bits); mask = mask_of bits })

parse_entries : Inet → List Text → Result Malformed (List Net)
unfolding parse_entry cut_slash trim_spaces
parse_entries inet [] = ok []
parse_entries inet (s ∷ ss) =
    let e = trim_spaces s in
    let more = parse_entries inet ss in
    let with_entry : Result Malformed (List Net) = do
      n ← parse_entry inet (cut_slash e)
      ns ← more
      ok (n ∷ ns)
    in if is_empty e then more else with_entry

finish : List Net → Result Malformed (List Net) → List Net × Bool
finish nets (ok built) = (built, true)
finish nets (err e) = (nets, false)

-- The list after the call, and its result.
unfoldable pub parse : Inet → Text → List Net → List Net × Bool
unfolding parse_entries entries_of finish
parse inet spec nets = finish nets (parse_entries inet (entries_of spec))

in_nets : ℕ → List Net → Bool
in_nets v [] = false
in_nets v (n ∷ ns) = (bit_and v n.mask == n.net) || in_nets v ns

trusted_at : Option ℕ → List Net → Bool
unfolding in_loopback in_nets
trusted_at none nets = false
trusted_at (some v) nets = in_loopback (some v) || in_nets v nets

unfoldable pub trusted : Inet → Text → List Net → Bool
unfolding trusted_at ipv4_to_u32
trusted inet peer nets = trusted_at (ipv4_to_u32 inet peer) nets
