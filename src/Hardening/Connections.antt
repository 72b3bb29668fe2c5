-- ===== src/Hardening/Connections.antt =====
-- hardening.h, `IpConnCounter`: how many connections an address holds open. A locked call is one step.
pub mod Counts
mod Tests
use ewb_server.Base.{
  ℕ, zero, suc, ◌-◌, ◌+◌, List, [], ◌∷◌, ◌++◌, Bool, true, false, Option, none, some, leb, ◌==◌,
  if◌then◌else◌, length, Text, text_eq, text_beq, lookup, replace, erase,
}

pub record IpConnCounter : Type 0 where
  pub max : ℕ
  pub counts : List (Text × ℕ)

unfoldable pub new : ℕ → IpConnCounter
new max_per_ip = record { max = max_per_ip; counts = [] }

unfoldable pub set_max : ℕ → IpConnCounter → IpConnCounter
set_max max_per_ip t = record t { max = max_per_ip }

abbrev count_of : Option ℕ → ℕ
count_of none = 0
count_of (some n) = n

unfoldable pub count : Text → IpConnCounter → ℕ
count ip t = count_of (lookup ip t.counts)

-- `counts_[ip]` makes an entry of 0 first, which goes again if it cannot be counted up.
unfoldable pub acquire_found : Option ℕ → Text → IpConnCounter → IpConnCounter × Bool
acquire_found none ip t =
    if leb t.max 0 then (t, false) else (record t { counts = (ip, 1) ∷ t.counts }, true)
acquire_found (some n) ip t =
    if leb t.max n
    then if n == 0 then (record t { counts = erase ip t.counts }, false) else (t, false)
    else (record t { counts = replace ip (n + 1) t.counts }, true)

unfoldable pub try_acquire : Text → IpConnCounter → IpConnCounter × Bool
unfolding acquire_found
try_acquire ip t = if t.max == 0 then (t, true) else acquire_found (lookup ip t.counts) ip t

unfoldable pub release_found : Option ℕ → Text → IpConnCounter → IpConnCounter
release_found none ip t = t
release_found (some n) ip t =
    if leb n 1
    then record t { counts = erase ip t.counts }
    else record t { counts = replace ip (n - 1) t.counts }

unfoldable pub release : Text → IpConnCounter → IpConnCounter
unfolding release_found
release ip t = if t.max == 0 then t else release_found (lookup ip t.counts) ip t

-- A connection arrives, or an open one ends (server_posix.cpp, the accept loop and the end of a
-- session). `live` holds the addresses of the open ones.
pub data Event : Type 0 where
  arrives ends : Text → Event

unfoldable pub held : Text → List Text → ℕ
held ip [] = 0
held ip (j ∷ js) = if text_beq j ip then suc (held ip js) else held ip js

unfoldable pub remove_one : Text → List Text → List Text
remove_one ip [] = []
remove_one ip (j ∷ js) = if text_beq j ip then js else j ∷ remove_one ip js

unfoldable pub admit : Text → List Text → IpConnCounter × Bool → IpConnCounter × List Text
admit ip live (t, true) = (t, ip ∷ live)
admit ip live (t, false) = (t, live)

unfoldable pub step : Event → IpConnCounter × List Text → IpConnCounter × List Text
unfolding try_acquire release held remove_one admit
step (arrives ip) (t, live) = admit ip live (try_acquire ip t)
step (ends ip) (t, live) =
    if held ip live == 0 then (t, live) else (release ip t, remove_one ip live)

unfoldable pub run : List Event → IpConnCounter × List Text → IpConnCounter × List Text
unfolding step
run [] s = s
run (e ∷ es) s = run es (step e s)
