-- ===== src/Matchmaker/Registry.antt =====
-- matchmaker.h, `Registry`: the rows of the running servers. A locked call is one step. Only
-- `sweep` lets the lock go, while it probes: its two locked parts are `stale_rows` and `settle`.
pub mod Apart
pub mod Adding
pub mod Owned
pub mod Sweeping
pub mod Probing
pub mod Restart
use ewb_server.Base.{
  ℕ, suc, ◌+◌, ℤ, pos, ◌-ℤ◌, ltb_ℤ, eqb_ℤ, List, [], ◌∷◌, ◌++◌, map, Bool, true, false, ◌&&◌, ◌||◌,
  not, Option, none, some, leb, ◌==◌, if◌then◌else◌, length, keep, Text, text_beq,
}
use ewb_server.Zones.{is_empty}
use ewb_server.Matchmaker.{Registration, max_registrations, heartbeat_ttl_sec}

pub data AddResult : Type 0 where
  done full taken peer_limit : AddResult

-- Equal addresses: the key of a row.
abbrev pub same : Registration → Registration → Bool
same reg e = text_beq e.ip reg.ip && eqb_ℤ e.port reg.port

abbrev pub owned : ℕ → Registration → Bool
owned conn e = not (conn == 0) && (e.conn == conn)

unfoldable pub find_if : (Registration → Bool) → List Registration → Option Registration
find_if p [] = none
find_if p (e ∷ es) = if p e then some e else find_if p es

-- `*it = u` at the first row that passes the test.
unfoldable pub assign : (Registration → Bool) → Registration → List Registration → List Registration
assign p u [] = []
assign p u (e ∷ es) = if p e then u ∷ es else e ∷ assign p u es

unfoldable pub count_if : (Registration → Bool) → List Registration → ℕ
count_if p [] = 0
count_if p (e ∷ es) = if p e then suc (count_if p es) else count_if p es

-- What a call leaves: the rows, its result, and the connection that lost its row (0 for none).
pub record Added : Type 0 where
  pub rows : List Registration
  pub result : AddResult
  pub displaced : ℕ

abbrev pub stamped : Registration → ℕ → ℤ → ℤ → Registration
stamped reg conn now players = record reg { conn = conn; last_seen = now; players = players }

-- No row of this key and none of this connection.
unfoldable pub add_new : Registration → ℕ → ℤ → ℕ → List Registration → Added
unfolding count_if
add_new reg conn now max_per_peer es =
    if not (max_per_peer == 0)
      && not (is_empty reg.peer)
      && leb max_per_peer (count_if (λ e. text_beq e.peer reg.peer) es)
    then record { rows = es; result = AddResult.peer_limit; displaced = 0 }
    else if leb max_registrations (length es)
    then record { rows = es; result = AddResult.full; displaced = 0 }
    else record {
      rows = es ++ (stamped reg conn now reg.players ∷ []);
      result = AddResult.done;
      displaced = 0;
    }

-- `mine`: the row of this connection.
unfoldable pub add_mine : Option Registration → Registration → ℕ → ℤ → ℕ → List Registration → Added
unfolding add_new assign
add_mine none reg conn now max_per_peer es = add_new reg conn now max_per_peer es
add_mine (some mine) reg conn now max_per_peer es = record {
  rows = assign (owned conn) (stamped reg conn now mine.players) es;
  result = AddResult.done;
  displaced = 0;
}

abbrev pub is_foreign : Registration → ℕ → Text → Bool
is_foreign hit conn peer =
    not (hit.conn == 0) && not (hit.conn == conn) && not (text_beq hit.peer peer)

unfoldable pub take_over : Registration → ℕ → Registration → List Registration → List Registration
unfolding assign
take_over reg conn u es =
    keep (λ e. not (owned conn e && not (same reg e))) (assign (same reg) u es)

-- `hit`: the row of this key.
unfoldable pub add_hit : Option Registration → Registration → ℕ → ℤ → ℕ → List Registration → Added
unfolding add_mine find_if take_over
add_hit none reg conn now max_per_peer es =
    add_mine (find_if (owned conn) es) reg conn now max_per_peer es
add_hit (some hit) reg conn now max_per_peer es =
    if is_foreign hit conn reg.peer
    then record { rows = es; result = AddResult.taken; displaced = 0 }
    else record {
      rows = take_over reg conn (stamped reg conn now hit.players) es;
      result = AddResult.done;
      displaced = if hit.conn == conn then 0 else hit.conn;
    }

unfoldable pub add : Registration → ℕ → ℤ → ℕ → List Registration → Added
unfolding add_hit find_if
add reg conn now max_per_peer es = add_hit (find_if (same reg) es) reg conn now max_per_peer es

unfoldable pub touch : ℕ → ℤ → List Registration → List Registration
touch conn now = map (λ e. if e.conn == conn then record e { last_seen = now } else e)

unfoldable pub set_players : ℕ → ℤ → List Registration → List Registration
set_players conn players [] = []
set_players conn players (e ∷ es) =
    if e.conn == conn then record e { players = players } ∷ es else e ∷ set_players conn players es

unfoldable pub remove : ℕ → List Registration → List Registration
remove conn = keep (λ e. not (e.conn == conn))

-- The rows, and whether the connection had one.
unfoldable pub orphan : ℕ → List Registration → List Registration × Bool
orphan conn [] = ([], false)
orphan conn (e ∷ es) =
    let (rest, found) = orphan conn es in
    if e.conn == conn then (record e { conn = 0 } ∷ es, true) else (e ∷ rest, found)

-- Longer than the heartbeat's time without a word.
abbrev pub is_stale : ℤ → Registration → Bool
is_stale now e = ltb_ℤ (pos heartbeat_ttl_sec) (now -ℤ e.last_seen)

unfoldable pub stale_rows : ℤ → List Registration → List Registration
stale_rows now = keep (is_stale now)

-- The first row of the key is refreshed.
unfoldable pub refresh_one : ℤ → Registration → List Registration → List Registration
refresh_one now k [] = []
refresh_one now k (e ∷ es) =
    if same k e then record e { last_seen = now } ∷ es else e ∷ refresh_one now k es

unfoldable pub refresh : ℤ → List Registration → List Registration → List Registration
unfolding refresh_one
refresh now [] es = es
refresh now (k ∷ ks) es = refresh now ks (refresh_one now k es)

unfoldable pub has_key : List Registration → Registration → Bool
has_key [] e = false
has_key (k ∷ ks) e = same k e || has_key ks e

abbrev pub answers : (Text → ℤ → Bool) → Registration → Bool
answers alive k = alive k.ip k.port

-- The second locked part: `stale` is what the first part found, `alive` what the probes said. It
-- works on the rows that are there by now.
unfoldable pub settle :
    ℤ → (Text → ℤ → Bool) → List Registration → List Registration → List Registration × List ℕ
unfolding refresh has_key
settle now alive stale es =
    let refreshed = refresh now (keep (answers alive) stale) es in
    let drops = has_key (keep (λ k. not (answers alive k)) stale) in
    (keep (λ e. not (drops e)) refreshed, map (λ e. e.conn) (keep drops refreshed))

-- No other call between the two parts. Without a probe nothing is alive.
unfoldable pub sweep : ℤ → (Text → ℤ → Bool) → List Registration → List Registration × List ℕ
unfolding stale_rows settle
sweep now alive es = settle now alive (stale_rows now es) es

unfoldable pub load_stale : List Registration → ℤ → List Registration → List Registration
load_stale [] now es = es
load_stale (r ∷ rs) now es =
    let u = record r { conn = 0; last_seen = now -ℤ pos heartbeat_ttl_sec -ℤ pos 1 } in
    let more = load_stale rs now (es ++ (u ∷ [])) in
    if leb max_registrations (length es) then es else more
