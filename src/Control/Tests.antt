-- ===== src/Control/Tests.antt =====
-- The control surface at concrete lines.
use ewb_server.Base.{pos, ◌+ℤ◌, ◌≡◌, refl, [], ◌∷◌, ◌++◌, true, false, codes, arith}
use ewb_server.Hardening.Names.{
  NameVerdict, validate_username, starts_space, ends_space, any_bad, is_reserved,
}
use ewb_server.Control.{ctl_find, ctl_specs, ctl_fields, ctl_split, refused, check_line}
use ewb_server.Control.Fields.{IsSplit, ctl_fields-IsSplit}
use ewb_server.Control.Bans
use ewb_server.Control.Bans.{BanList, ctl_looks_like_ip, name_banned, ip_banned}
use ewb_server.Control.Bans.File.{IsBanList, IsAdded, add-IsAdded, load-serialize_bans}
use ewb_server.Zones.Set.{drop_end, drop_front, lines}
use ewb_server.Control.Ops
use ewb_server.Control.Ops.{OpsFile, level_of, set}
use ewb_server.Control.Ops.File.{IsOps, level_of-changed}
use ewb_server.Control.Ops.RoundTrip.{load-serialize_ops}
use ewb_server.Control.Flood.{ctl_max_strikes, new, serve}
use ewb_server.Control.Flood.Strikes.{IsPatient, serve-IsPatient}

ctl_fields-IsSplit_example :
    IsSplit (pos 2) (codes "Ari:be:nice") (ctl_fields (codes "Ari:be:nice") (pos 2))
ctl_fields-IsSplit_example = ctl_fields-IsSplit (codes "Ari:be:nice") (pos 2) (λ e. cc)

-- An address of IPv6 has colons, so `ban` takes it for several fields.
ban_ipv6 :
    (check_line (codes "ban:::1")
      ≡ refused (
          codes "usage: ban:<name|ip>                    "
          ++ (0xe2 ∷ 0x80 ∷ 0x94 ∷ codes " ban and disconnect")))
    × (ctl_looks_like_ip (codes "::1") ≡ true)
unfolding check_line ctl_looks_like_ip ctl_specs ctl_split ctl_find ◌+ℤ◌
ban_ipv6 = (refl, refl)

abbrev three_bans : BanList
three_bans = record { names = codes "Bob" ∷ codes "Eve" ∷ []; ips = codes "10.0.0.7" ∷ [] }

three_bans-IsBanList : IsBanList three_bans
three_bans-IsBanList = record { names = ((refl, tt), (tt, tt)); ips = (tt, tt) }

add-IsAdded_example : IsAdded (codes "Ann") three_bans (Bans.add (codes "Ann") three_bans).0
add-IsAdded_example = add-IsAdded (codes "Ann") three_bans three_bans-IsBanList

load-serialize_bans_example : Bans.load (Bans.serialize three_bans) ≡ three_bans
unfolding ctl_looks_like_ip drop_end drop_front
load-serialize_bans_example =
    load-serialize_bans three_bans three_bans-IsBanList
      ((record { one_line = omega arith; trimmed = refl; kept = refl }, refl), tt)
      (
        (record { one_line = omega arith; trimmed = refl; kept = refl }, refl),
        ((record { one_line = omega arith; trimmed = refl; kept = refl }, refl), tt),
      )

-- A name that begins with `#` is allowed, and its ban is lost when the file is loaded.
abbrev hash_ban : BanList
hash_ban = (Bans.add (codes "#bob") Bans.clear).0

hash_ban_lost :
    (validate_username (codes "#bob") ≡ NameVerdict.ok)
    × (name_banned (codes "#bob") hash_ban ≡ true)
    × (name_banned (codes "#bob") (Bans.load (Bans.serialize hash_ban)) ≡ false)
unfolding validate_username name_banned Bans.add Bans.load Bans.serialize Bans.insert Bans.member
    Bans.load_lines Bans.load_line Bans.token_lines ctl_looks_like_ip lines drop_end drop_front
    starts_space ends_space any_bad is_reserved
hash_ban_lost = (refl, refl, refl)

abbrev two_ops : OpsFile
two_ops = (codes "Ann", pos 2) ∷ (codes "a:b", pos 1) ∷ []

two_ops-IsOps : IsOps two_ops
two_ops-IsOps = record {
  distinct = ((refl, tt), (tt, tt));
  levels = (((λ e. cc), refl), (((λ e. cc), refl), tt));
}

load-serialize_ops_example : Ops.load (Ops.serialize two_ops) ≡ two_ops
load-serialize_ops_example = load-serialize_ops two_ops two_ops-IsOps (
  record { one_line = omega arith; kept = refl },
  (record { one_line = omega arith; kept = refl }, tt),
)

level_of-changed_example :
    ((set (codes "Bob") (pos 2) two_ops).1 ≡ true)
    × (level_of (codes "Bob") (pos 0) (set (codes "Bob") (pos 2) two_ops).0 ≡ pos 2)
    × (level_of (codes "Bob") (pos 0) (Ops.erase (codes "Bob") two_ops).0 ≡ pos 0)
unfolding set
level_of-changed_example =
    level_of-changed (codes "Bob") (codes "Bob") (pos 2) (pos 0) two_ops two_ops-IsOps

serve-IsPatient_example :
    IsPatient ctl_max_strikes 0 (serve (pos 0 ∷ pos 1 ∷ pos 1 ∷ []) (new (pos 1) (pos 1)))
serve-IsPatient_example = serve-IsPatient (pos 1) (pos 1) (pos 0 ∷ pos 1 ∷ pos 1 ∷ [])
