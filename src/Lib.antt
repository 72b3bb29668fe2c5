-- ===== src/Lib.antt =====
-- A model of ewb-server, the multiplayer server for Eden worlds, and its correctness theorems.
--
-- The server is server_posix.cpp with header-only modules that hold the protocol and world logic.
-- This library models those modules; a file here is named for the header it models.
--
-- - Base: shared types and lemmas: lists and tables, signed integers, texts as lists of bytes, and
--   decimal printing and parsing (`std::to_string`, `strtoll`).
-- - Hardening (hardening.h): Names (text and usernames), Password, Lru (the bounded table),
--   Bucket (rate limits), Connections (open connections per address).
-- - SaveSched (save_sched.h, and the autosave loop of server_posix.cpp): when the world is written.
-- - Snapz (snapz_codec.h): base64, packing and the `SNAPZ` line. zlib's deflate is a parameter; a
--   theorem that needs its inverse says so.
-- - Region (region_query.h, region_cache.h): the parts of a `REGION` reply, its box (Region.Box), the
--   records of a cell (Region.Cells), when a column last changed
--   (Region.Gens) and the cache of replies (Region.Cache).
-- - Zones (zones.h): Zones holds a zone and its line, Zones.Set the set, its file and its queries.
-- - OutQueue (out_queue.h): the queue between the server's threads and one client's socket.
--   OutQueue.Writer holds the writer's calls; OutQueue.Runs the calls as steps of one client.
-- - Matchmaker (matchmaker.h): names and addresses (Matchmaker.Names, Matchmaker.Trust), the rows of
--   the reply and of the file (Lines, Listing), the registry (Registry), and what the match maker does
--   with a peer's line in edenmatch.cpp (Conns, Server). `inet_pton` and `inet_ntop` are the parameter
--   `Inet`; spawning a hosted server ends where the process is started.
-- - Control (control.h, and the checks that server_posix.cpp makes of a command's line): the table of
--   verbs and the fields of a line (Control.Fields), the ban list (Bans), the op levels (Ops), the
--   bounds of `fill` (Fill), and the flood guard (Flood).
-- - Explode (explode.h, block_rules.h): the blocks that burn (Explode.Blocks), the blasts that set off
--   one another (Blast), the fills of expansion blocks (Expand) and a whole burn (Burn). The calls of
--   the world that a burn reads and writes are the parameter `ExplodeWorld`.
-- - ZoneGuard (zone_guard.h): the audit lines of edits that a zone refused (`ZoneAuditAgg`), and the
--   cells that one refusal restores (ZoneGuard.Cells).
--
-- A `double` of seconds is an exact signed integer of clock units, so rounding is left out. A
-- `size_t` that counts bytes or entries in memory is a plain number. A `shared_ptr` is an address
-- with what stands behind it.
--
-- A loop is recursion on its list, but for four that run on fuel: `print_ℕ` takes one round more than
-- the number, which has fewer digits; `next_free_username` tries one name more than are in use, so
-- that one of them is free; the blasts of a burn take a round each, of which the budget allows
-- `max_blasts`; and its expansion blocks take a round each, which reads a cell of the budget.
--
-- Not modelled: sockets, threads and locks (a locked call is one step), zlib, the file system, the
-- Go administration tool; the text of movement coordinates, which are floats; the connect and
-- password limiters; what the verbs of the control socket do after their checks; the process of a
-- hosted server; what a client is sent after a burn that was refused; and the parts of the server
-- behind other headers (the world store, WorldEdit, accounts, the restores of refused edits, the
-- stores of signs, greeting and spawns, world import and export).
pub mod Base
pub mod Hardening
pub mod SaveSched
pub mod Snapz
pub mod Region
pub mod OutQueue
pub mod Zones
pub mod Matchmaker
pub mod Control
pub mod Explode
pub mod ZoneGuard
