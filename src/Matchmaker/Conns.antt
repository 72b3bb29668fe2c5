-- ===== src/Matchmaker/Conns.antt =====
-- matchmaker.h, `ConnCaps`: the open connections, in all and for each address.
pub mod Counted
use ewb_server.Base.{
  ℕ, zero, suc, ◌-◌, ◌+◌, List, [], ◌∷◌, Bool, true, false, Option, none, some, leb, ltb,
  if◌then◌else◌, Text, text_eq, lookup, replace, erase,
}
use ewb_server.Matchmaker.{max_conns_global, max_conns_per_ip}

pub record ConnCaps : Type 0 where
  pub per_ip : List (Text × ℕ)
  pub total : ℕ

abbrev pub init : ConnCaps
init = record { per_ip = []; total = 0 }

abbrev pub value_of : Option ℕ → ℕ
value_of none = 0
value_of (some n) = n

unfoldable pub for_ip : Text → ConnCaps → ℕ
for_ip ip t = value_of (lookup ip t.per_ip)

-- `perIp_[ip]` makes a new entry of 0, which is counted up at once.
unfoldable pub acquire_at : Option ℕ → Text → ConnCaps → ConnCaps × Bool
acquire_at none ip t = (record { per_ip = (ip, 1) ∷ t.per_ip; total = t.total + 1 }, true)
acquire_at (some c) ip t =
    if leb max_conns_per_ip c
    then (t, false)
    else (record { per_ip = replace ip (c + 1) t.per_ip; total = t.total + 1 }, true)

unfoldable pub try_acquire : Text → ConnCaps → ConnCaps × Bool
unfolding acquire_at
try_acquire ip t =
    if leb max_conns_global t.total then (t, false) else acquire_at (lookup ip t.per_ip) ip t

unfoldable pub release_at : Option ℕ → Text → List (Text × ℕ) → List (Text × ℕ)
release_at none ip counts = counts
release_at (some c) ip counts = if leb c 1 then erase ip counts else replace ip (c - 1) counts

unfoldable pub release : Text → ConnCaps → ConnCaps
unfolding release_at
release ip t = record {
  per_ip = release_at (lookup ip t.per_ip) ip t.per_ip;
  total = if ltb 0 t.total then t.total - 1 else t.total;
}
