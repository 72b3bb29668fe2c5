-- ===== src/Control/Bans.antt =====
-- control.h, `BanList`: banned names and addresses. A `std::set` is its elements in order.
pub mod Sets
pub mod File
use ewb_server.Base.{
  ℕ, List, [], ◌∷◌, ◌++◌, Bool, true, false, ◌&&◌, ◌||◌, not, leb, ◌==◌, if◌then◌else◌, Text, codes,
  text_ltb,
}
use ewb_server.Zones.{is_empty}
use ewb_server.Zones.Set.{lines, drop_end, drop_front, is_skipped, put_line}

-- `std::set::insert`: the set, and whether the text is new.
unfoldable pub insert : Text → List Text → List Text × Bool
insert t [] = (t ∷ [], true)
insert t (s ∷ ss) =
    let (rest, fresh) = insert t ss in
    if text_ltb t s
    then (t ∷ s ∷ ss, true)
    else if text_ltb s t
    then (s ∷ rest, fresh)
    else (s ∷ ss, false)

-- `std::set::erase`, and whether the text was there.
unfoldable pub erase : Text → List Text → List Text × Bool
erase t [] = ([], false)
erase t (s ∷ ss) =
    let (rest, found) = erase t ss in
    if text_ltb t s || text_ltb s t then (s ∷ rest, found) else (ss, true)

-- `std::set::count(t) > 0`.
unfoldable pub member : Text → List Text → Bool
member t [] = false
member t (s ∷ ss) = (not (text_ltb t s) && not (text_ltb s t)) || member t ss

unfoldable pub ip_byte : ℕ → Bool
ip_byte c = (leb b'0' c && leb c b'9') || (c == b'.') || (c == b':')

unfoldable pub all_ip_bytes : Text → Bool
unfolding ip_byte
all_ip_bytes [] = true
all_ip_bytes (c ∷ cs) = ip_byte c && all_ip_bytes cs

unfoldable pub ctl_looks_like_ip : Text → Bool
unfolding all_ip_bytes
ctl_looks_like_ip s = not (is_empty s) && all_ip_bytes s

pub record BanList : Type 0 where
  pub names : List Text
  pub ips : List Text

abbrev pub clear : BanList
clear = record { names = []; ips = [] }

unfoldable pub add : Text → BanList → BanList × Bool
add token b =
    if is_empty token
    then (b, false)
    else if ctl_looks_like_ip token
    then (record b { ips = (insert token b.ips).0 }, (insert token b.ips).1)
    else (record b { names = (insert token b.names).0 }, (insert token b.names).1)

unfoldable pub remove : Text → BanList → BanList × Bool
remove token b = (
  record { names = (erase token b.names).0; ips = (erase token b.ips).0 },
  (erase token b.ips).1 || (erase token b.names).1,
)

unfoldable pub ip_banned : Text → BanList → Bool
ip_banned ip b = member ip b.ips

unfoldable pub name_banned : Text → BanList → Bool
name_banned name b = member name b.names

unfoldable pub banned : Text → Text → BanList → Bool
unfolding ip_banned name_banned
banned name ip b = name_banned name b || ip_banned ip b

abbrev empty_list : List Text → Bool
empty_list [] = true
empty_list (s ∷ ss) = false

unfoldable pub no_bans : BanList → Bool
no_bans b = empty_list b.names && empty_list b.ips

unfoldable pub load_line : Text → BanList → BanList
load_line line b =
    let token = drop_front (drop_end line) in if is_skipped token then b else (add token b).0

unfoldable pub load_lines : List Text → BanList → BanList
load_lines [] b = b
load_lines (l ∷ ls) b = load_lines ls (load_line l b)

unfoldable pub load : Text → BanList
load text = load_lines (lines text) clear

abbrev pub heading : Text
heading =
    codes "# edenserver ban list "
    ++ (0xe2 ∷ 0x80 ∷ 0x94 ∷ codes " one name or IP per line (stage 3.2).")

unfoldable pub token_lines : List Text → Text → Text
token_lines [] rest = rest
token_lines (s ∷ ss) rest = put_line s (token_lines ss rest)

unfoldable pub serialize : BanList → Text
serialize b = put_line heading (token_lines b.ips (token_lines b.names []))
