-- ===== src/OutQueue/Accounting.antt =====
-- The counters of a queue agree with what it holds, after any calls.
use ewb_server.Base.{
  ℕ, ◌+◌, ◌-◌, ◌≤◌, ◌<◌, ◌≡◌, refl, ◌⊎◌, inl, inr, List, [], ◌∷◌, ◌++◌, true, Option, none, some,
  length, Text, All, All-append, arith,
}
use ewb_server.Region.{CachedFrame, CachedRegion}
use ewb_server.OutQueue.{
  RegionJob, total, Slot, string, shared, job, cached, OutQueue, Limits, new, note_peak, drop_old,
  push_hi, push_world, push_world_shared, append_blob, append_region, with_width, no_frames,
  push_reply, push_reply_shared, push_region, push_cached_region,
}

abbrev pub lines_bytes : List Text → ℕ
lines_bytes [] = 0
lines_bytes (l ∷ ls) = length l + lines_bytes ls

abbrev pub slot_bytes : Slot → ℕ
slot_bytes (string blob) = length blob
slot_bytes (shared blob) = length blob
slot_bytes (job j) = 0
slot_bytes (cached r n) = 0

abbrev pub slot_jobs : Slot → ℕ
slot_jobs (string blob) = 0
slot_jobs (shared blob) = 0
slot_jobs (job j) = 1
slot_jobs (cached r n) = 1

abbrev pub slots_bytes : List Slot → ℕ
slots_bytes [] = 0
slots_bytes (s ∷ slots) = slot_bytes s + slots_bytes slots

abbrev pub slots_jobs : List Slot → ℕ
slots_jobs [] = 0
slots_jobs (s ∷ slots) = slot_jobs s + slots_jobs slots

-- A job has something left to say, and a width to say it in; a cached reply has a frame left.
abbrev pub IsSlot : Slot → Type 0
IsSlot (string blob) = Unit {0}
IsSlot (shared blob) = Unit {0}
IsSlot (job j) = (0 < j.frame_records) × ((total j ≡ 0) ⊎ (j.cursor < total j))
IsSlot (cached r n) = n < length r.frames

-- Each counter is the sum of what it counts, and the peak is no less than what is queued.
pub record IsValid (q : OutQueue) : Type 0 where
  pub hi_sum : q.hi_bytes ≡ lines_bytes q.hi
  pub lo_sum : q.lo_bytes ≡ slots_bytes q.lo
  pub jobs_sum : q.region_jobs ≡ slots_jobs q.lo
  pub slots : All IsSlot q.lo
  pub peak : q.hi_bytes + q.lo_bytes ≤ q.peak_bytes

pub lines_bytes-append :
    (xs ys : List Text) → lines_bytes (xs ++ ys) ≡ lines_bytes xs + lines_bytes ys
lines_bytes-append [] ys = omega arith
lines_bytes-append (x ∷ xs) ys = omega (arith, lines_bytes-append xs ys)

pub slots_bytes-append :
    (xs ys : List Slot) → slots_bytes (xs ++ ys) ≡ slots_bytes xs + slots_bytes ys
slots_bytes-append [] ys = omega arith
slots_bytes-append (x ∷ xs) ys = omega (arith, slots_bytes-append xs ys)

pub slots_jobs-append : (xs ys : List Slot) → slots_jobs (xs ++ ys) ≡ slots_jobs xs + slots_jobs ys
slots_jobs-append [] ys = omega arith
slots_jobs-append (x ∷ xs) ys = omega (arith, slots_jobs-append xs ys)

drop_old-held :
    (cap add : ℕ) (ls : List Text) (held n lost : ℕ)
    → held ≡ lines_bytes ls
    → (drop_old cap add ls held n lost).held ≡ lines_bytes (drop_old cap add ls held n lost).lines
unfolding drop_old
drop_old-held cap add [] held n lost h = h
drop_old-held cap add (l ∷ ls) held n lost h =
    ground (arith, drop_old-held cap add ls (held - length l) (n + 1) (lost + length l))

note_peak-IsValid :
    (q : OutQueue)
    → q.hi_bytes ≡ lines_bytes q.hi
    → q.lo_bytes ≡ slots_bytes q.lo
    → q.region_jobs ≡ slots_jobs q.lo
    → All IsSlot q.lo
    → IsValid (note_peak q)
unfolding note_peak
note_peak-IsValid q a b c d = record {
  hi_sum = a;
  lo_sum = b;
  jobs_sum = c;
  slots = d;
  peak = ground arith;
}

pub new-IsValid : (lim : Limits) → IsValid (new lim)
unfolding new
new-IsValid lim = record {
  hi_sum = refl;
  lo_sum = refl;
  jobs_sum = refl;
  slots = tt;
  peak = omega arith;
}

pub push_hi-IsValid : (q : OutQueue) (line : Text) → IsValid q → IsValid (push_hi q line).0
unfolding push_hi
push_hi-IsValid q [] v = v
push_hi-IsValid q (c ∷ cs) v =
    let b = drop_old q.lim.hi_max_bytes (length (c ∷ cs)) q.hi q.hi_bytes 0 0 in
    note_peak-IsValid _
      (omega (
        arith,
        drop_old-held q.lim.hi_max_bytes (length (c ∷ cs)) q.hi q.hi_bytes 0 0 v.hi_sum,
        lines_bytes-append b.lines ((c ∷ cs) ∷ []),
      ))
      v.lo_sum v.jobs_sum v.slots

append_blob-IsValid :
    (q : OutQueue) (s : Slot)
    → slot_jobs s ≡ 0
    → IsSlot s
    → IsValid q
    → IsValid (append_blob q s (slot_bytes s))
unfolding append_blob
append_blob-IsValid q s e h v =
    note_peak-IsValid _ v.hi_sum (omega (arith, v.lo_sum, slots_bytes-append q.lo (s ∷ [])))
      (omega (arith, v.jobs_sum, slots_jobs-append q.lo (s ∷ [])))
      (All-append IsSlot q.lo (s ∷ []) v.slots (h, tt))

append_region-IsValid :
    (q : OutQueue) (s : Slot)
    → slot_bytes s ≡ 0
    → slot_jobs s ≡ 1
    → IsSlot s
    → IsValid q
    → IsValid (append_region q s)
unfolding append_region
append_region-IsValid q s e j h v = record {
  hi_sum = v.hi_sum;
  lo_sum = omega (arith, v.lo_sum, slots_bytes-append q.lo (s ∷ []));
  jobs_sum = omega (arith, v.jobs_sum, slots_jobs-append q.lo (s ∷ []));
  slots = All-append IsSlot q.lo (s ∷ []) v.slots (h, tt);
  peak = v.peak;
}

pub push_world-IsValid : (q : OutQueue) (blob : Text) → IsValid q → IsValid (push_world q blob).0
unfolding push_world
push_world-IsValid q blob v = ground (arith, append_blob-IsValid q (string blob) refl tt v)

pub push_world_shared-IsValid :
    (q : OutQueue) (blob : Option Text) → IsValid q → IsValid (push_world_shared q blob).0
unfolding push_world_shared
push_world_shared-IsValid q none v = v
push_world_shared-IsValid q (some blob) v =
    ground (arith, append_blob-IsValid q (shared blob) refl tt v)

pub push_reply-IsValid : (q : OutQueue) (blob : Text) → IsValid q → IsValid (push_reply q blob).0
unfolding push_reply
push_reply-IsValid q blob v = ground (arith, append_blob-IsValid q (string blob) refl tt v)

pub push_reply_shared-IsValid :
    (q : OutQueue) (blob : Option Text) → IsValid q → IsValid (push_reply_shared q blob).0
unfolding push_reply_shared
push_reply_shared-IsValid q none v = v
push_reply_shared-IsValid q (some blob) v =
    ground (arith, append_blob-IsValid q (shared blob) refl tt v)

-- A job as a caller makes it: nothing of it is handed out yet.
abbrev pub IsNew : RegionJob → Type 0
IsNew j = j.cursor ≡ 0

with_width-IsSlot : (j : RegionJob) → IsNew j → IsSlot (job (with_width j))
with_width-IsSlot j h = ground arith

pub push_region-IsValid :
    (q : OutQueue) (j : RegionJob) → IsNew j → IsValid q → IsValid (push_region q j).0
unfolding push_region
push_region-IsValid q j h v =
    ground (arith, append_region-IsValid q (job (with_width j)) refl refl (with_width-IsSlot j h) v)

pub push_cached_region-IsValid :
    (q : OutQueue) (reply : Option CachedRegion)
    → IsValid q
    → IsValid (push_cached_region q reply).0
unfolding push_cached_region
push_cached_region-IsValid q none v = ground arith
push_cached_region-IsValid q (some reply) v = elim (frames_cases reply.frames) [
  | inl e ↦ rw e (ground (arith))
  | inr h ↦ ground (arith, append_region-IsValid q (cached reply 0) refl refl h v)
]
  where
    frames_cases : (fs : List CachedFrame) → (no_frames fs ≡ true) ⊎ (0 < length fs)
    frames_cases [] = inl refl
    frames_cases (f ∷ fs) = inr (omega arith)
