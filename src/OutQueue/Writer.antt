-- ===== src/OutQueue/Writer.antt =====
-- out_queue.h, the writer's half: what to send next, and giving a frame back.
use ewb_server.Base.{
  ℕ, ◌+◌, ◌-◌, List, [], ◌∷◌, Bool, true, false, ◌&&◌, Option, none, some, ltb, ◌==◌, if◌then◌else◌,
  length, Text,
}
use ewb_server.Region.{CachedFrame, CachedRegion, snapz_frame_records}
use ewb_server.OutQueue.{
  Records, RegionJob, total, remaining, Frame, OutItem, bytes, shared_bytes, frame, cached_frame,
  Slot, string, shared, job, cached, OutQueue,
}

-- `take_lo` works on `lo`, its bytes and the count of region jobs. `pop_region` does not go below 0.
pub record Low : Type 0 where
  pub slots : List Slot
  pub held : ℕ
  pub jobs : ℕ

-- The next frame of a job that has `left` records left, and the job behind it.
abbrev pub min_ℕ : ℕ → ℕ → ℕ
min_ℕ a b = if ltb a b then a else b

unfoldable pub next_frame : RegionJob → Frame
next_frame j =
    let n = min_ℕ (remaining j) j.frame_records in
    record {
      recs = j.recs;
      off = j.cursor;
      count = n;
      first = j.cursor == 0;
      last = (total j - (j.cursor + n)) == 0;
      cacheable = j.cacheable;
      cache_tag = j.cache_tag;
    }

unfoldable pub empty_answer : RegionJob → Frame
empty_answer j = record {
  recs = none;
  off = 0;
  count = 0;
  first = true;
  last = true;
  cacheable = j.cacheable;
  cache_tag = j.cache_tag;
}

unfoldable pub advance : RegionJob → RegionJob
advance j = record j { cursor = j.cursor + min_ℕ (remaining j) j.frame_records }

-- The frame at the cursor. A cursor past the end is out of bounds in the source; `lo` never holds one.
unfoldable pub frame_at : List CachedFrame → ℕ → CachedFrame
frame_at [] n = record { line = []; records = 0 }
frame_at (f ∷ fs) ℕ.zero = f
frame_at (f ∷ fs) (ℕ.suc n) = frame_at fs n

-- The queue behind a frame: `pop_region` after the last one of its reply.
unfoldable pub after_frame : RegionJob → List Slot → ℕ → ℕ → Low
unfolding next_frame advance
after_frame j slots held jobs =
    if (next_frame j).last
    then record { slots = slots; held = held; jobs = jobs - 1 }
    else record { slots = job (advance j) ∷ slots; held = held; jobs = jobs }

unfoldable pub after_cached : CachedRegion → ℕ → List Slot → ℕ → ℕ → Low
after_cached reply n slots held jobs =
    if (n + 1) == length reply.frames
    then record { slots = slots; held = held; jobs = jobs - 1 }
    else record { slots = cached reply (n + 1) ∷ slots; held = held; jobs = jobs }

-- The `while` over `lo`. A job that is drained already is skipped.
unfoldable pub take_lo : List Slot → ℕ → ℕ → Option OutItem × Low
unfolding empty_answer frame_at after_frame after_cached
take_lo [] held jobs = (none, record { slots = []; held = held; jobs = jobs })
take_lo (string blob ∷ slots) held jobs =
    (some (bytes blob), record { slots = slots; held = held - length blob; jobs = jobs })
take_lo (shared blob ∷ slots) held jobs =
    (some (shared_bytes blob), record { slots = slots; held = held - length blob; jobs = jobs })
take_lo (cached reply n ∷ slots) held jobs =
    let f = frame_at reply.frames n in
    (
      some (cached_frame f.line f.records (n == 0) ((n + 1) == length reply.frames)),
      after_cached reply n slots held jobs,
    )
take_lo (job j ∷ slots) held jobs =
    let rest = take_lo slots held (jobs - 1) in
    if total j == 0
    then (some (frame (empty_answer j)), record { slots = slots; held = held; jobs = jobs - 1 })
    else if remaining j == 0
    then rest
    else (some (frame (next_frame j)), after_frame j slots held jobs)

-- On the list `hi`, so that its cases compute.
unfoldable pub take_from : List Text → OutQueue → Option OutItem × OutQueue
take_from (line ∷ hi) q =
    (some (bytes line), record q { hi = hi; hi_bytes = q.hi_bytes - length line })
take_from [] q =
    let (item, low) = take_lo q.lo q.lo_bytes q.region_jobs in
    (item, record q { lo = low.slots; lo_bytes = low.held; region_jobs = low.jobs })

-- `take`; `none` says that nothing is pending.
unfoldable pub take_item : OutQueue → Option OutItem × OutQueue
unfolding take_from take_lo
take_item q = take_from q.hi q

-- Two `shared_ptr`s are equal.
unfoldable pub same_records : Option Records → Option Records → Bool
same_records none none = true
same_records none (some s) = false
same_records (some r) none = false
same_records (some r) (some s) = r.address == s.address

unfoldable pub not_null : Option Records → Bool
not_null none = false
not_null (some r) = true

-- The job that a frame is put back as.
unfoldable pub remake : Frame → RegionJob
remake it = record {
  recs = it.recs;
  cursor = it.off;
  frame_records = if it.count == 0 then snapz_frame_records else it.count;
  empty_frame = it.count == 0;
  cacheable = it.cacheable;
  cache_tag = it.cache_tag;
}

unfoldable pub is_rest_of : Frame → RegionJob → Bool
unfolding same_records not_null
is_rest_of it j =
    not_null it.recs && same_records j.recs it.recs && (j.cursor == (it.off + it.count))

unfoldable pub requeue_lo : Frame → List Slot → ℕ → List Slot × ℕ
unfolding is_rest_of remake
requeue_lo it (job j ∷ slots) jobs =
    if is_rest_of it j
    then (job (record j { cursor = it.off }) ∷ slots, jobs)
    else (job (remake it) ∷ job j ∷ slots, jobs + 1)
requeue_lo it slots jobs = (job (remake it) ∷ slots, jobs + 1)

unfoldable pub requeue_front : OutQueue → OutItem → OutQueue × Bool
unfolding requeue_lo
requeue_front q (frame it) =
    let (lo, jobs) = requeue_lo it q.lo q.region_jobs in
    (record q { lo = lo; region_jobs = jobs }, true)
requeue_front q other = (q, false)

unfoldable pub idle : OutQueue → Bool
idle q = no_lines q.hi && no_slots q.lo
  where
    no_lines : List Text → Bool
    no_lines [] = true
    no_lines (l ∷ ls) = false

    no_slots : List Slot → Bool
    no_slots [] = true
    no_slots (l ∷ ls) = false

unfoldable pub drop_lo : OutQueue → OutQueue
drop_lo q = record q { lo = []; lo_bytes = 0; region_jobs = 0 }
