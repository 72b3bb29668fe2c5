-- ===== src/Matchmaker/Names.antt =====
-- matchmaker.h, `sanitize_name` with `trim_partial_utf8`, and `world_slug`.
pub mod Clean
pub mod Tidy
use ewb_server.Base.{
  ℕ, zero, suc, ◌+◌, ◌≡◌, List, [], ◌∷◌, ◌++◌, reverse, Bool, true, false, ◌&&◌, ◌||◌, not, ltb,
  leb, ◌==◌, if◌then◌else◌, length, drop, Text, codes, bit_and,
}
use ewb_server.Zones.{is_empty}
use ewb_server.Matchmaker.{max_name_len, max_slug_len}

abbrev pub is_cont : ℕ → Bool
is_cont c = bit_and c 0xc0 == 0x80

-- The continuation bytes at the front, counted to `n` at most.
cont_run : ℕ → Text → ℕ
cont_run zero r = 0
cont_run (suc n) [] = 0
cont_run (suc n) (c ∷ r) = if is_cont c then suc (cont_run n r) else 0

unfoldable pub code_width : ℕ → ℕ
code_width lead =
    if bit_and lead 0xe0 == 0xc0
    then 2
    else if bit_and lead 0xf0 == 0xe0
    then 3
    else if bit_and lead 0xf8 == 0xf0
    then 4
    else 0

-- `s[i - 1]` leads the last sequence, with `cont` bytes behind it and `before`, backwards, before it.
trim_at : Text → ℕ → Text → Text
unfolding code_width
trim_at s cont [] = []
trim_at s cont (lead ∷ before) =
    if ltb lead 0x80
    then reverse (lead ∷ before)
    else if (code_width lead == 0) || not (cont + 1 == code_width lead)
    then reverse before
    else s

unfoldable pub trim_partial_utf8 : Text → Text
unfolding cont_run trim_at
trim_partial_utf8 s = let cont = cont_run 3 (reverse s) in trim_at s cont (drop cont (reverse s))

-- What the loop of `sanitize_name` carries: the name so far, and whether a blank waits.
pub record Cleaned : Type 0 where
  pub out : Text
  pub pending : Bool

abbrev put : ℕ → ℕ → Text → Text
put cap c out = if ltb (length out) cap then out ++ (c ∷ []) else out

-- A blank or a separator that waited, then the byte.
put_after : ℕ → ℕ → ℕ → Cleaned → Cleaned
put_after cap gap c s = record {
  out = put cap c (if s.pending && not (is_empty s.out) then put cap gap s.out else s.out);
  pending = false;
}

name_step : ℕ → Cleaned → Cleaned
unfolding put_after
name_step c s =
    if c == b':'
    then s
    else if (c == 32) || (c == 9)
    then record s { pending = true }
    else if ltb c 0x20 || (c == 0x7f)
    then s
    else put_after max_name_len 32 c s

clean_bytes : Text → Cleaned → Cleaned
unfolding name_step
clean_bytes [] s = s
clean_bytes (c ∷ cs) s = clean_bytes cs (name_step c s)

unfoldable pub sanitize_name : Text → Text
unfolding clean_bytes trim_partial_utf8
sanitize_name s = trim_partial_utf8 (clean_bytes s (record { out = []; pending = false })).out

-- `isalnum` and `tolower` in the C locale.
abbrev pub is_upper : ℕ → Bool
is_upper c = leb b'A' c && leb c b'Z'

abbrev pub is_alnum : ℕ → Bool
is_alnum c = is_upper c || (leb b'a' c && leb c b'z') || (leb b'0' c && leb c b'9')

abbrev pub to_lower : ℕ → ℕ
to_lower c = if is_upper c then c + 32 else c

slug_step : ℕ → Cleaned → Cleaned
unfolding put_after
slug_step c s =
    if is_alnum c then put_after max_slug_len b'_' (to_lower c) s else record s { pending = true }

slug_bytes : Text → Cleaned → Cleaned
unfolding slug_step
slug_bytes [] s = s
slug_bytes (c ∷ cs) s = slug_bytes cs (slug_step c s)

or_world : Text → Text
or_world [] = codes "world"
or_world (c ∷ cs) = c ∷ cs

unfoldable pub world_slug : Text → Text
unfolding slug_bytes or_world
world_slug s = or_world (slug_bytes s (record { out = []; pending = false })).out
