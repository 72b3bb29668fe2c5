-- ===== src/Matchmaker/Server.antt =====
-- edenmatch.cpp, `handleConn` and the start of `main`: what a line of a peer does to the registry
-- and what is sent back. `rows` is the registry. Sockets and the start of a game server for HOST
-- are left out: where the code would start one, the reply here is `spawns`.
pub mod Kept
pub mod Runs
use ewb_server.Base.{
  ℕ, suc, ℤ, List, [], ◌∷◌, ◌++◌, Bool, true, false, ◌||◌, not, Option, none, some, keep, get_or,
  Text, codes, text_beq, print_ℤ, Result, ok, err, if◌then◌else◌,
}
use ewb_server.Zones.{fields, is_empty, colon}
use ewb_server.Zones.Set.{lines}
use ewb_server.Matchmaker.{Inet, Registration, is_loopback_ipv4}
use ewb_server.Matchmaker.Names.{sanitize_name}
use ewb_server.Matchmaker.Trust.{Net, trusted, Malformed}
use ewb_server.Matchmaker.Lines.{
  starts_with, parse_register, advertise_policy, parse_ping, parse_persisted_line,
}
use ewb_server.Matchmaker.Listing.{RowForm, format_list, find_live_by_name}
use ewb_server.Matchmaker.Registry.{
  AddResult, Added, add, touch, set_players, orphan, settle, load_stale,
}

-- The process's settings: the system's calls, `--advertise-ip`, `--trust-advertise`, `--allow-host`
-- and the form of a row.
pub record Config : Type 0 where
  pub inet : Inet
  pub advertise_ip : Text
  pub nets : List Net
  pub allow_host : Bool
  pub form : RowForm

abbrev pub max_registrations_per_peer : ℕ
max_registrations_per_peer = 8

unfoldable pub use_ip : Config → Text → Text
use_ip cfg ip = if is_empty cfg.advertise_ip then ip else cfg.advertise_ip

unfoldable pub result_text : AddResult → Text
result_text AddResult.done = codes "REGISTERED"
result_text AddResult.full = codes "REGISTERFAIL:full"
result_text AddResult.taken = codes "REGISTERFAIL:taken"
result_text AddResult.peer_limit = codes "REGISTERFAIL:limit"

-- What a line leaves: the rows, what is sent, the connection to close (0 for none), and whether
-- this one stays.
pub record Outcome : Type 0 where
  pub rows : List Registration
  pub sent : Text
  pub displaced : ℕ
  pub stays : Bool

-- The row that a registration asks for.
unfoldable pub claimed : Config → Text → Registration → Registration
unfolding use_ip
claimed cfg ip r =
    let out = (advertise_policy r ip (use_ip cfg ip) (trusted cfg.inet ip cfg.nets)).0 in
    record out { peer = ip }

-- `doRegister`; `none` for a line that is no registration.
unfoldable pub do_register :
    Config → ℕ → Text → ℤ → Result Malformed Registration → List Registration → Option Added
unfolding claimed
do_register cfg id ip now (err e) rows = none
do_register cfg id ip now (ok r) rows =
    let cap = if trusted cfg.inet ip cfg.nets then 0 else max_registrations_per_peer in
    some (add (claimed cfg ip r) id now cap rows)

abbrev line_of : Text → Text
line_of s = s ++ (10 ∷ [])

is_done : AddResult → Bool
is_done AddResult.done = true
is_done AddResult.full = false
is_done AddResult.taken = false
is_done AddResult.peer_limit = false

-- The reply to a first REGISTER; the connection is closed unless it is REGISTERED.
unfoldable pub first_reply : List Registration → Option Added → Outcome
unfolding is_done result_text
first_reply rows none = record { rows = rows; sent = []; displaced = 0; stays = false }
first_reply rows (some a) = record {
  rows = a.rows;
  sent = line_of (result_text a.result);
  displaced = a.displaced;
  stays = is_done a.result;
}

-- What HOST comes to before a game server is started.
pub data HostReply : Type 0 where
  replies spawns : Text → HostReply

joined : Text → Option Registration → HostReply
joined name none = spawns name
joined name (some live) = replies (codes "HOSTED:" ++ colon live.ip (print_ℤ live.port))

-- Only rows of servers on this host count.
unfoldable pub handle_host : Config → Text → List Registration → HostReply
unfolding joined
handle_host cfg line rows =
    let name = sanitize_name (get_or (fields line) 1 []) in
    let here = keep (λ r. is_loopback_ipv4 cfg.inet r.peer) rows in
    if not cfg.allow_host || is_empty name
    then replies (codes "HOSTFAIL:spawn")
    else joined name (find_live_by_name here name)

host_line : HostReply → Text
host_line (replies s) = line_of s
host_line (spawns name) = []

-- The first line of a connection. The reply to a HOST that starts a server comes later and changes
-- no row.
unfoldable pub first_line : Config → ℕ → Text → ℤ → Text → List Registration → Outcome
unfolding do_register first_reply handle_host host_line
first_line cfg id ip now line rows =
    let listed : Outcome = record {
      rows = rows;
      sent = format_list rows cfg.form;
      displaced = 0;
      stays = false;
    } in
    let hosted : Outcome = record {
      rows = rows;
      sent = host_line (handle_host cfg line rows);
      displaced = 0;
      stays = false;
    } in
    let unknown : Outcome = record { rows = rows; sent = []; displaced = 0; stays = false } in
    let parsed = parse_register cfg.inet line (use_ip cfg ip) in
    if text_beq line (codes "LIST") || text_beq line (codes "LISTP")
    then listed
    else if starts_with (codes "HOST:") line
    then hosted
    else if starts_with (codes "REGISTER:") line
    then first_reply rows (do_register cfg id ip now parsed rows)
    else unknown

unfoldable pub counted : ℕ → Result Malformed ℤ → List Registration → List Registration
counted id (err e) rows = rows
counted id (ok n) rows = set_players id n rows

unfoldable pub later_reply : List Registration → Option Added → Outcome
unfolding result_text
later_reply rows none = record { rows = rows; sent = []; displaced = 0; stays = true }
later_reply rows (some a) = record {
  rows = a.rows;
  sent = line_of (result_text a.result);
  displaced = a.displaced;
  stays = true;
}

-- A further line of a registered server.
unfoldable pub later_line : Config → ℕ → Text → ℤ → Text → List Registration → Outcome
unfolding do_register later_reply counted
later_line cfg id ip now line rows =
    let heard = touch id now rows in
    let parsed = parse_register cfg.inet line (use_ip cfg ip) in
    if text_beq line (codes "PING") || starts_with (codes "PING:") line
    then record {
      rows = counted id (parse_ping line) heard;
      sent = [];
      displaced = 0;
      stays = true;
    }
    else if starts_with (codes "REGISTER:") line
    then later_reply heard (do_register cfg id ip now parsed heard)
    else record { rows = heard; sent = []; displaced = 0; stays = true }

unfoldable pub with_row : Result Malformed Registration → List Registration → List Registration
with_row (err e) rs = rs
with_row (ok r) rs = r ∷ rs

unfoldable pub parse_lines : Inet → List Text → List Registration
unfolding with_row
parse_lines inet [] = []
parse_lines inet (l ∷ ls) = with_row (parse_persisted_line inet l) (parse_lines inet ls)

-- The start of the process with the registry's file.
unfoldable pub reload : Config → Text → ℤ → List Registration
unfolding parse_lines lines
reload cfg text now = load_stale (parse_lines cfg.inet (lines text)) now []

-- What happens to the registry. `settles` is the second part of a sweep, with the answers of the
-- probes to the rows that its first part found; other events may come between.
pub data Event : Type 0 where
  opens says : ℕ → Text → ℤ → Text → Event
  closes : ℕ → Event
  settles : ℤ → (Text → ℤ → Bool) → List Registration → Event

unfoldable pub step : Config → Event → List Registration → List Registration
unfolding first_line later_line
step cfg (opens id ip now line) rows = (first_line cfg id ip now line rows).rows
step cfg (says id ip now line) rows = (later_line cfg id ip now line rows).rows
step cfg (closes id) rows = (orphan id rows).0
step cfg (settles now alive stale) rows = (settle now alive stale rows).0

unfoldable pub run : Config → List Event → List Registration → List Registration
unfolding step
run cfg [] rows = rows
run cfg (e ∷ es) rows = run cfg es (step cfg e rows)
