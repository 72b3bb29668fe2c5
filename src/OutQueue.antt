-- ===== src/OutQueue.antt =====
-- out_queue.h: the per-client output queue. A `shared_ptr` to a record vector is its address with
-- the records behind it; two of them are equal when the addresses are. Byte counters are plain
-- numbers: each counts bytes that are in memory, so a `size_t` holds it.
pub mod Writer
pub mod Accounting
pub mod Taking
pub mod Order
pub mod Budget
pub mod Runs
pub mod Backlogs
mod Tests
use ewb_server.Base.{
  ℕ, suc, ◌+◌, ◌-◌, ◌≡◌, List, [], ◌∷◌, ◌++◌, Bool, true, false, ◌&&◌, ◌||◌, Option, none, some,
  ltb, leb, ◌==◌, if◌then◌else◌, length, drop, take, Text, not,
}
use ewb_server.Region.{SnapRec, RegionCacheTag, CachedFrame, CachedRegion, snapz_frame_records}

pub record Records : Type 0 where
  pub address : ℕ
  pub items : List SnapRec

pub record RegionJob : Type 0 where
  pub recs : Option Records
  pub cursor : ℕ
  pub frame_records : ℕ
  pub empty_frame : Bool
  pub cacheable : Bool
  pub cache_tag : RegionCacheTag

abbrev pub items_of : Option Records → List SnapRec
items_of none = []
items_of (some r) = r.items

abbrev pub total : RegionJob → ℕ
total j = length (items_of j.recs)

abbrev pub remaining : RegionJob → ℕ
remaining j = total j - j.cursor

-- What the writer is handed. `Kind::None` is the `none` of `take_item`.
pub record Frame : Type 0 where
  pub recs : Option Records
  pub off : ℕ
  pub count : ℕ
  pub first : Bool
  pub last : Bool
  pub cacheable : Bool
  pub cache_tag : RegionCacheTag

pub data OutItem : Type 0 where
  bytes : Text → OutItem
  shared_bytes : Text → OutItem
  frame : Frame → OutItem
  cached_frame : Text → ℕ → Bool → Bool → OutItem

pub data Slot : Type 0 where
  string : Text → Slot
  shared : Text → Slot
  job : RegionJob → Slot
  cached : CachedRegion → ℕ → Slot

pub record Limits : Type 0 where
  pub hi_max_bytes : ℕ
  pub lo_max_bytes : ℕ
  pub max_region_jobs : ℕ

pub record OutQueue : Type 0 where
  pub lim : Limits
  pub hi : List Text
  pub lo : List Slot
  pub hi_bytes : ℕ
  pub lo_bytes : ℕ
  pub region_jobs : ℕ
  pub peak_bytes : ℕ
  pub dropped_lines : ℕ
  pub dropped_bytes : ℕ
  pub over_budget : Bool

abbrev pub default_limits : Limits
default_limits = record { hi_max_bytes = 0x10_0000; lo_max_bytes = 0x100_0000; max_region_jobs = 2 }

unfoldable pub new : Limits → OutQueue
new lim = record {
  lim = lim;
  hi = [];
  lo = [];
  hi_bytes = 0;
  lo_bytes = 0;
  region_jobs = 0;
  peak_bytes = 0;
  dropped_lines = 0;
  dropped_bytes = 0;
  over_budget = false;
}

abbrev empty_text : Text → Bool
empty_text [] = true
empty_text (c ∷ cs) = false

note_peak : OutQueue → OutQueue
note_peak q =
    let n = q.hi_bytes + q.lo_bytes in
    record q { peak_bytes = if ltb q.peak_bytes n then n else q.peak_bytes }

-- The `while` of `push_hi`, on the lines, their bytes and the two drop counters.
pub record Backlog : Type 0 where
  pub lines : List Text
  pub held : ℕ
  pub lost_lines : ℕ
  pub lost_bytes : ℕ

drop_old : ℕ → ℕ → List Text → ℕ → ℕ → ℕ → Backlog
drop_old cap add [] held n lost = record {
  lines = [];
  held = held;
  lost_lines = n;
  lost_bytes = lost;
}
drop_old cap add (l ∷ ls) held n lost =
    let rest = drop_old cap add ls (held - length l) (n + 1) (lost + length l) in
    if ltb cap (held + add)
    then rest
    else record { lines = l ∷ ls; held = held; lost_lines = n; lost_bytes = lost }

-- The result says that no older line had to go.
unfoldable pub push_hi : OutQueue → Text → OutQueue × Bool
unfolding note_peak drop_old
push_hi q line =
    let b = drop_old q.lim.hi_max_bytes (length line) q.hi q.hi_bytes 0 0 in
    if empty_text line then (q, true) else (
      note_peak (record q {
        hi = b.lines ++ (line ∷ []);
        hi_bytes = b.held + length line;
        dropped_lines = q.dropped_lines + b.lost_lines;
        dropped_bytes = q.dropped_bytes + b.lost_bytes;
      }),
      b.lost_lines == 0,
    )

-- A blob at the back of `lo`, as one slot.
append_blob : OutQueue → Slot → ℕ → OutQueue
unfolding note_peak
append_blob q s n = note_peak (record q { lo = q.lo ++ (s ∷ []); lo_bytes = q.lo_bytes + n })

unfoldable pub push_world : OutQueue → Text → OutQueue × Bool
unfolding append_blob
push_world q blob =
    if empty_text blob
    then (q, true)
    else if ltb q.lim.lo_max_bytes q.lo_bytes
    then (record q { over_budget = true }, false)
    else (append_blob q (string blob) (length blob), true)

unfoldable pub push_world_shared : OutQueue → Option Text → OutQueue × Bool
unfolding append_blob
push_world_shared q none = (q, true)
push_world_shared q (some blob) =
    if empty_text blob
    then (q, true)
    else if ltb q.lim.lo_max_bytes q.lo_bytes
    then (record q { over_budget = true }, false)
    else (append_blob q (shared blob) (length blob), true)

unfoldable pub push_reply : OutQueue → Text → OutQueue × Bool
unfolding append_blob
push_reply q blob =
    if empty_text blob
    then (q, true)
    else if ltb q.lim.lo_max_bytes (q.lo_bytes + length blob)
    then (q, false)
    else (append_blob q (string blob) (length blob), true)

unfoldable pub push_reply_shared : OutQueue → Option Text → OutQueue × Bool
unfolding append_blob
push_reply_shared q none = (q, true)
push_reply_shared q (some blob) =
    if empty_text blob
    then (q, true)
    else if ltb q.lim.lo_max_bytes (q.lo_bytes + length blob)
    then (q, false)
    else (append_blob q (shared blob) (length blob), true)

-- A region in flight at the back of `lo`.
append_region : OutQueue → Slot → OutQueue
append_region q s = record q { lo = q.lo ++ (s ∷ []); region_jobs = q.region_jobs + 1 }

abbrev with_width : RegionJob → RegionJob
with_width j = if j.frame_records == 0 then record j { frame_records = snapz_frame_records } else j

unfoldable pub push_region : OutQueue → RegionJob → OutQueue × Bool
unfolding append_region
push_region q j =
    if leb q.lim.max_region_jobs q.region_jobs
    then (q, false)
    else if (total j == 0) && not j.empty_frame
    then (q, true)
    else (append_region q (job (with_width j)), true)

abbrev pub no_frames : List CachedFrame → Bool
no_frames [] = true
no_frames (f ∷ fs) = false

unfoldable pub push_cached_region : OutQueue → Option CachedRegion → OutQueue × Bool
unfolding append_region
push_cached_region q none =
    if leb q.lim.max_region_jobs q.region_jobs then (q, false) else (q, true)
push_cached_region q (some reply) =
    if leb q.lim.max_region_jobs q.region_jobs
    then (q, false)
    else if no_frames reply.frames
    then (q, true)
    else (append_region q (cached reply 0), true)
