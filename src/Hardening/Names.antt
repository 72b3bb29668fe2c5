-- ===== src/Hardening/Names.antt =====
-- hardening.h, text and usernames. A text is the list of its bytes.
pub mod Sanitize
pub mod Verdict
pub mod Suffix
pub mod Legal
mod Tests
use ewb_server.Base.{
  ℕ, zero, suc, ◌+◌, ◌-◌, ◌≡◌, List, [], ◌∷◌, ◌++◌, map, Bool, true, false, ◌&&◌, ◌||◌, not, Option,
  none, some, ltb, leb, ◌==◌, if◌then◌else◌, length, take, Text, codes, text_beq, text_eq, print_ℕ,
  ℤ, pos, leb_ℤ, ltb_ℤ,
}

-- `out` has `n` bytes so far.
sanitize_from : ℕ → ℕ → Text → Text
sanitize_from max_len n [] = []
sanitize_from max_len n (c ∷ cs) =
    let skipped = sanitize_from max_len n cs in
    let kept = sanitize_from max_len (n + 1) cs in
    if leb max_len n then [] else if ltb c 0x20 || (c == 0x7f) then skipped else c ∷ kept

unfoldable pub sanitize_text : Text → ℕ → Text
unfolding sanitize_from
sanitize_text s max_len = sanitize_from max_len 0 s

abbrev pub username_max : ℕ
username_max = 20

abbrev pub username_reserved : Text
username_reserved = codes "server"

pub data NameVerdict : Type 0 where
  ok empty too_long bad_char reserved : NameVerdict

unfoldable pub bad_byte : ℕ → Bool
bad_byte c = ltb c 0x20 || ltb 0x7e c || (c == b':') || (c == b'[') || (c == b']')

unfoldable pub any_bad : Text → Bool
unfolding bad_byte
any_bad [] = false
any_bad (c ∷ cs) = bad_byte c || any_bad cs

unfoldable pub lower : ℕ → ℕ
lower c = if leb b'A' c && leb c b'Z' then c + 32 else c

-- `front() == ' '` and `back() == ' '`; a text that is not empty has both.
unfoldable pub starts_space : Text → Bool
starts_space [] = false
starts_space (c ∷ cs) = c == 32

unfoldable pub ends_space : Text → Bool
ends_space [] = false
ends_space (c ∷ []) = c == 32
ends_space (c ∷ d ∷ cs) = ends_space (d ∷ cs)

abbrev pub is_empty : Text → Bool
is_empty [] = true
is_empty (c ∷ cs) = false

-- `lower`, and the name compared with the reserved one.
unfoldable pub is_reserved : Text → Bool
unfolding lower
is_reserved name = text_beq (map lower name) username_reserved

unfoldable pub validate_username : Text → NameVerdict
validate_username name =
    if is_empty name
    then empty
    else if ltb username_max (length name)
    then too_long
    else if starts_space name || ends_space name
    then bad_char
    else if any_bad name
    then bad_char
    else if is_reserved name
    then reserved
    else ok

-- `while (!base.empty() && base.back() == ' ') base.pop_back();`: a byte stays if it is no space,
-- or if something behind it stays.
unfoldable pub trim_right : Text → Text
trim_right [] = []
trim_right (c ∷ cs) =
    let rest = trim_right cs in if is_empty rest && (c == 32) then [] else c ∷ rest

unfoldable pub suffix_of : ℕ → Text
suffix_of n = b'-' ∷ print_ℕ n

unfoldable pub candidate : Text → ℕ → Text
unfolding trim_right suffix_of
candidate wanted n = trim_right (take (username_max - length (suffix_of n)) wanted) ++ suffix_of n

unfoldable pub taken_in : Text → List Text → Bool
taken_in name [] = false
taken_in name (t ∷ ts) = text_beq name t || taken_in name ts

-- The loop over `n = 2, 3, …`; `none` means that the fuel ran out.
unfoldable pub search_free : ℕ → ℕ → Text → List Text → Option Text
search_free zero n wanted taken = none
search_free (suc fuel) n wanted taken =
    let more = search_free fuel (n + 1) wanted taken in
    if taken_in (candidate wanted n) taken then more else some (candidate wanted n)

-- One name more than are in use is tried.
unfoldable pub next_free_username : Text → List Text → Option Text
unfolding search_free taken_in
next_free_username wanted taken =
    if taken_in wanted taken then search_free (suc (length taken)) 2 wanted taken else some wanted

pub data DupNameAction : Type 0 where
  evict suffix : DupNameAction

unfoldable pub dup_name_action : Bool → ℤ → ℤ → DupNameAction
dup_name_action same_address old_silent stale =
    if same_address && ltb_ℤ (pos 0) stale && leb_ℤ stale old_silent then evict else suffix

unfoldable pub verb_allowed_before_join : Text → Bool
verb_allowed_before_join command =
    text_beq command (codes "JOIN") || text_beq command (codes "PING")
