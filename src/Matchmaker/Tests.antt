-- ===== src/Matchmaker/Tests.antt =====
-- The matchmaker at concrete lines and rows.
use ewb_server.Base.{
  pos, ◌≡◌, ◌≢◌, refl, List, [], ◌∷◌, ◌++◌, map, true, false, none, some, All, Text, codes, ◌==◌,
  ok, arith, inl, inr, Bool-cases, text_beq, if◌then◌else◌, strtol, print_ℤ, ◌-ℤ◌,
}
use mathlib.Core.List.{Memᴰ}
use ewb_server.Matchmaker.{Inet, Registration, canonical_ipv4, max_slug_len}
use ewb_server.Matchmaker.Names.{code_width, sanitize_name, world_slug}
use ewb_server.Matchmaker.Names.Tidy.{IsTidy}
use ewb_server.Matchmaker.Names.Clean.{Fits, IsShown, IsSlugByte, world_slug-Fits}
use ewb_server.Matchmaker.Lines.{
  parse_persisted_line, serialize_entry, starts_with, parse_ping, parse_register, advertise_policy,
  bit_text,
}
use ewb_server.Matchmaker.Trust.{trusted}
use ewb_server.Matchmaker.Lines.Accepted.{IsInet}
use ewb_server.Matchmaker.Lines.RoundTrip.{IsSettled, parse_persisted_line-serialize_entry}
use ewb_server.Matchmaker.Listing.{RowForm, format_list}
use ewb_server.Matchmaker.Listing.Rows.{IsListing}
use ewb_server.Matchmaker.Registry.{
  AddResult, add, sweep, load_stale, orphan, settle, set_players, touch,
}
use ewb_server.Matchmaker.Registry.Adding.{IsRegistry}
use ewb_server.Matchmaker.Registry.Owned.{add_keeps}
use ewb_server.Matchmaker.Registry.Probing.{seen, sweep-swept}
use ewb_server.Matchmaker.Registry.Restart.{reloaded, sweep-load_stale}
use ewb_server.Matchmaker.Server.{Config, Event, opens, says, closes, settles, run, reload}
use ewb_server.Matchmaker.Server.Runs.{run-IsListing, run-IsRegistry}

abbrev home : Text
home = codes "127.0.0.1"

abbrev lan : Text
lan = codes "10.0.0.7"

abbrev two_hosts : Inet
two_hosts = record {
  pton = λ s.
      if text_beq s home
      then some 0x7f00_0001
      else if text_beq s lan
      then some 0x0a00_0007
      else none;
  ntop = λ a. if a == 0x7f00_0001 then some home else if a == 0x0a00_0007 then some lan else none;
}

home-IsShown : All IsShown home
home-IsShown = omega arith

lan-IsShown : All IsShown lan
lan-IsShown = omega arith

two_hosts-IsInet : IsInet two_hosts
two_hosts-IsInet a t h = elim (Bool-cases (a == 0x7f00_0001)) [
  | inl y ↦ (let e : home ≡ t = ground (arith, y, h) in rw (← e) home-IsShown)
  | inr n ↦ elim (Bool-cases (a == 0x0a00_0007)) [
    | inl y ↦ (let e : lan ≡ t = ground (arith, n, y, h) in rw (← e) lan-IsShown)
    | inr m ↦ absurd (ground (arith, n, m, h))
  ]
]

abbrev public_list : Config
public_list = record {
  inet = two_hosts;
  advertise_ip = [];
  nets = [];
  allow_host = false;
  form = RowForm.capture7;
}

abbrev island : Registration
island = record {
  name = codes "Ari's Island";
  ip = lan;
  port = pos 27015;
  has_password = true;
  players = pos 3;
  flag6 = pos 0;
  last_seen = pos 100;
  conn = 4;
  peer = lan;
}

abbrev claim : Registration
claim = record island { name = codes "Copy"; conn = 0; peer = home }

abbrev traffic : List Event
traffic =
    opens 1 lan (pos 10) (codes "REGISTER:A:b:27015:0")
    ∷ opens 2 lan (pos 11) (codes "REGISTER:Ari's  Island:27015:1:127.0.0.1")
    ∷ says 2 lan (pos 20) (codes "PING:5")
    ∷ settles (pos 70) (λ ip port. false) []
    ∷ closes 2
    ∷ []

-- A forged address is replaced, a bad port refused, and the count of a PING kept.
traffic_listed :
    format_list (run public_list traffic []) RowForm.capture7
    ≡ codes "SERVER:Ari's Island:10.0.0.7:27015:1:5:0" ++ (10 ∷ codes "END") ++ (10 ∷ [])
unfolding format_list run orphan settle starts_with parse_ping strtol set_players touch
    parse_register sanitize_name canonical_ipv4 add trusted advertise_policy print_ℤ bit_text
traffic_listed = refl

run-IsListing_example :
    IsListing RowForm.capture7
      (run public_list traffic (reload public_list (codes "x:y") (pos 5)))
      (format_list
        (run public_list traffic (reload public_list (codes "x:y") (pos 5)))
        RowForm.capture7)
run-IsListing_example =
    run-IsListing public_list two_hosts-IsInet tt (codes "x:y") (pos 5) traffic
      (lan-IsShown, (lan-IsShown, (lan-IsShown, (tt, (tt, tt)))))

run-IsRegistry_example : IsRegistry (run public_list traffic [])
run-IsRegistry_example =
    run-IsRegistry public_list two_hosts-IsInet tt traffic []
      (lan-IsShown, (lan-IsShown, (lan-IsShown, (tt, (tt, tt)))))
      (record { apart = tt; few = omega arith })

claim_taken : (add claim 9 (pos 120) 8 (island ∷ [])).result ≡ AddResult.taken
unfolding add
claim_taken = refl

add_keeps_example : Memᴰ island (add claim 9 (pos 120) 8 (island ∷ [])).rows
add_keeps_example =
    add_keeps claim 9 (pos 120) 8 island (omega arith) (omega arith) (λ e. cc) (island ∷ [])
      (Memᴰ.head refl)

abbrev silent : Registration
silent = record island { port = pos 27016; last_seen = pos 10; conn = 5 }

two_rows : IsRegistry (island ∷ silent ∷ [])
two_rows = record {
  apart = ((record { key = refl; owner = refl }, tt), (tt, tt));
  few = omega arith;
}

sweep-swept_example :
    sweep (pos 120) (λ ip port. false) (island ∷ silent ∷ []) ≡ (island ∷ [], 5 ∷ [])
unfolding ◌-ℤ◌
sweep-swept_example = sweep-swept (pos 120) (λ ip port. false) (island ∷ silent ∷ []) two_rows

sweep-load_stale_example :
    (sweep (pos 60) (λ ip port. true) (load_stale (island ∷ silent ∷ []) (pos 50) [])).0
    ≡ map (seen (pos 60)) (map (reloaded (pos 50)) (island ∷ silent ∷ []))
sweep-load_stale_example =
    sweep-load_stale (island ∷ silent ∷ []) (pos 50) (pos 60) (λ ip port. true) (omega arith)
      ((record { key = refl; owner = refl }, tt), (tt, tt))

island-IsTidy : IsTidy island.name
unfolding code_width
island-IsTidy = record {
  spaced = ground arith;
  short = omega arith;
  whole = record {
    before = codes "Ari's Islan";
    lead = b'd';
    conts = [];
    parts = refl;
    own = refl;
    more = tt;
    width = inl (refl, omega arith);
  };
}

island-IsSettled : IsSettled two_hosts island
unfolding canonical_ipv4
island-IsSettled = record {
  row = record {
    name = record { bytes = omega arith; short = omega arith };
    named = λ e. cc;
    ip = lan-IsShown;
    port = (omega arith, omega arith);
  };
  name = island-IsTidy;
  ip = refl;
  players = omega arith;
  flag6 = omega arith;
}

parse_persisted_line-serialize_entry_example :
    parse_persisted_line two_hosts (serialize_entry island)
    ≡ ok (record island { last_seen = pos 0; conn = 0; peer = [] })
parse_persisted_line-serialize_entry_example =
    parse_persisted_line-serialize_entry two_hosts island island-IsSettled

climbing : world_slug (codes "../../etc/passwd") ≡ codes "etc_passwd"
unfolding world_slug
climbing = refl

world_slug-Fits_example :
    (world_slug (codes "../../etc/passwd") ≢ [])
    × Fits IsSlugByte max_slug_len (world_slug (codes "../../etc/passwd"))
world_slug-Fits_example = world_slug-Fits (codes "../../etc/passwd")

-- A name that is cut at 48 bytes may keep the blank that stood before the cut.
cut_behind_blank :
    sanitize_name (codes "01234567890123456789012345678901234567890123456 x")
    ≡ codes "01234567890123456789012345678901234567890123456 "
unfolding sanitize_name
cut_behind_blank = refl
