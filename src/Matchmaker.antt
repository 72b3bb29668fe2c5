-- ===== src/Matchmaker.antt =====
-- matchmaker.h: the pure half of `edenmatch`, the list of running servers that a client browses.
-- The calls `inet_pton` and `inet_ntop` of the system are a parameter, `Inet`. An address is its
-- 32-bit number in host order.
pub mod Names
pub mod Trust
pub mod Lines
pub mod Listing
pub mod Registry
pub mod Conns
pub mod Server
mod Tests
use ewb_server.Base.{
  ℕ, ◌/◌, ◌^◌, ℤ, Bool, Option, none, some, Text, List, [], ◌∷◌, ◌==◌, if◌then◌else◌,
}

abbrev pub max_name_len : ℕ
max_name_len = 48

abbrev pub max_registrations : ℕ
max_registrations = 512

abbrev pub max_reported_players : ℕ
max_reported_players = 1000

abbrev pub max_conns_global : ℕ
max_conns_global = 256

abbrev pub max_conns_per_ip : ℕ
max_conns_per_ip = 24

abbrev pub heartbeat_ttl_sec : ℕ
heartbeat_ttl_sec = 45

abbrev pub max_slug_len : ℕ
max_slug_len = 40

pub record Registration : Type 0 where
  pub name : Text
  pub ip : Text
  pub port : ℤ
  pub has_password : Bool
  pub players : ℤ
  pub flag6 : ℤ
  pub last_seen : ℤ
  pub conn : ℕ
  pub peer : Text

-- The two calls: a text to an address, and an address to its text.
pub record Inet : Type 0 where
  pub pton : Text → Option ℕ
  pub ntop : ℕ → Option Text

-- `s.c_str()`, which ends at the first NUL byte.
unfoldable pub c_str : Text → Text
c_str [] = []
c_str (c ∷ cs) = if c == 0 then [] else c ∷ c_str cs

unfoldable pub print_found : Inet → Option ℕ → Option Text
print_found net none = none
print_found net (some a) = net.ntop a

unfoldable pub canonical_ipv4 : Inet → Text → Option Text
unfolding print_found c_str
canonical_ipv4 net [] = none
canonical_ipv4 net (c ∷ cs) = print_found net (net.pton (c_str (c ∷ cs)))

unfoldable pub ipv4_to_u32 : Inet → Text → Option ℕ
unfolding c_str
ipv4_to_u32 net s = net.pton (c_str s)

unfoldable pub in_loopback : Option ℕ → Bool
in_loopback none = Bool.false
in_loopback (some v) = (v / 2 ^ 24) == 127

unfoldable pub is_loopback_ipv4 : Inet → Text → Bool
unfolding in_loopback ipv4_to_u32
is_loopback_ipv4 net ip = in_loopback (ipv4_to_u32 net ip)
