-- ===== src/OutQueue/Taking.antt =====
-- The counters stay right when the writer takes an item, gives one back, or drops `lo`.
use ewb_server.Base.{ℕ, ◌-◌, ◌≤◌, ◌<◌, ◌≡◌, refl, ◌⊎◌, List, [], ◌∷◌, length, Text, All, arith, ap}
use ewb_server.OutQueue.{
  items_of, Frame, OutItem, bytes, shared_bytes, frame, cached_frame, Slot, string, shared, job,
  cached, OutQueue,
}
use ewb_server.OutQueue.Writer.{
  Low, take_lo, take_from, take_item, requeue_lo, requeue_front, drop_lo,
}
use ewb_server.OutQueue.Accounting.{lines_bytes, slots_bytes, slots_jobs, IsSlot, IsValid}

-- What `take_lo` leaves.
pub record IsLow (l : Low) : Type 0 where
  pub held_sum : l.held ≡ slots_bytes l.slots
  pub jobs_sum : l.jobs ≡ slots_jobs l.slots
  pub slots : All IsSlot l.slots

pub take_lo-IsLow :
    (slots : List Slot) (held jobs : ℕ)
    → held ≡ slots_bytes slots
    → jobs ≡ slots_jobs slots
    → All IsSlot slots
    → IsLow (take_lo slots held jobs).1 × ((take_lo slots held jobs).1.held ≤ held)
unfolding take_lo
take_lo-IsLow [] held jobs a b c = (record { held_sum = a; jobs_sum = b; slots = c }, omega arith)
take_lo-IsLow (string blob ∷ slots) held jobs a b c = ground arith
take_lo-IsLow (shared blob ∷ slots) held jobs a b c = ground arith
take_lo-IsLow (cached reply n ∷ slots) held jobs a b c = ground arith
take_lo-IsLow (job j ∷ slots) held jobs a b c = ground (arith, take_lo-IsLow slots held (jobs - 1))

take_from-IsValid :
    (hi : List Text) (q : OutQueue) → q.hi ≡ hi → IsValid q → IsValid (take_from hi q).1
unfolding take_from
take_from-IsValid [] q e v =
    let (l, h) = take_lo-IsLow q.lo q.lo_bytes q.region_jobs v.lo_sum v.jobs_sum v.slots in
    record {
      hi_sum = v.hi_sum;
      lo_sum = l.held_sum;
      jobs_sum = l.jobs_sum;
      slots = l.slots;
      peak = omega (arith, v.peak);
    }
take_from-IsValid (line ∷ hi) q e v = record {
  hi_sum = omega (arith, v.hi_sum, ap lines_bytes e);
  lo_sum = v.lo_sum;
  jobs_sum = v.jobs_sum;
  slots = v.slots;
  peak = omega (arith, v.peak);
}

pub take_item-IsValid : (q : OutQueue) → IsValid q → IsValid (take_item q).1
unfolding take_item
take_item-IsValid q v = take_from-IsValid q.hi q refl v

-- A frame that `take` can have handed out: the one answer of an empty job, or a slice of its records.
abbrev pub IsFrame : OutItem → Type 0
IsFrame (frame it) =
    ((length (items_of it.recs) ≡ 0) × (it.off ≡ 0)) ⊎ (it.off < length (items_of it.recs))
IsFrame item = Unit {0}

requeue_lo-IsValid :
    (it : Frame) (slots : List Slot) (jobs : ℕ)
    → IsFrame (frame it)
    → jobs ≡ slots_jobs slots
    → All IsSlot slots
    → ((requeue_lo it slots jobs).1 ≡ slots_jobs (requeue_lo it slots jobs).0)
      × All IsSlot (requeue_lo it slots jobs).0
      × (slots_bytes (requeue_lo it slots jobs).0 ≡ slots_bytes slots)
unfolding requeue_lo
requeue_lo-IsValid it [] jobs f a b = ground arith
requeue_lo-IsValid it (string blob ∷ slots) jobs f a b = ground arith
requeue_lo-IsValid it (shared blob ∷ slots) jobs f a b = ground arith
requeue_lo-IsValid it (cached reply n ∷ slots) jobs f a b = ground arith
requeue_lo-IsValid it (job j ∷ slots) jobs f a b = ground arith

pub requeue_front-IsValid :
    (q : OutQueue) (item : OutItem) → IsFrame item → IsValid q → IsValid (requeue_front q item).0
unfolding requeue_front
requeue_front-IsValid q (frame it) f v =
    let (a, b, c) = requeue_lo-IsValid it q.lo q.region_jobs f v.jobs_sum v.slots in
    record {
      hi_sum = v.hi_sum;
      lo_sum = omega (arith, v.lo_sum);
      jobs_sum = a;
      slots = b;
      peak = v.peak;
    }
requeue_front-IsValid q (bytes b) f v = v
requeue_front-IsValid q (shared_bytes b) f v = v
requeue_front-IsValid q (cached_frame l n a b) f v = v

pub drop_lo-IsValid : (q : OutQueue) → IsValid q → IsValid (drop_lo q)
unfolding drop_lo
drop_lo-IsValid q v = record {
  hi_sum = v.hi_sum;
  lo_sum = refl;
  jobs_sum = refl;
  slots = tt;
  peak = omega (arith, v.peak);
}
