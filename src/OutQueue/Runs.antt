-- ===== src/OutQueue/Runs.antt =====
-- A client's queue over time: producers push, and one writer takes, sends or gives back. The lock
-- makes each call one step; the order of the steps is the schedule.
use ewb_server.Base.{ℕ, ◌-◌, List, [], ◌∷◌, Option, none, some, Text, All, arith}
use ewb_server.Region.{CachedRegion}
use ewb_server.OutQueue.{
  RegionJob, OutItem, Slot, string, shared, job, cached, OutQueue, Limits, new, push_hi, push_world,
  push_world_shared, push_reply, push_reply_shared, push_region, push_cached_region,
}
use ewb_server.OutQueue.Writer.{take_lo, take_from, take_item, requeue_front, drop_lo}
use ewb_server.OutQueue.Accounting.{
  IsValid, IsSlot, IsNew, new-IsValid, push_hi-IsValid, push_world-IsValid,
  push_world_shared-IsValid, push_reply-IsValid, push_reply_shared-IsValid, push_region-IsValid,
  push_cached_region-IsValid,
}
use ewb_server.OutQueue.Taking.{IsFrame, take_item-IsValid, requeue_front-IsValid, drop_lo-IsValid}

pub data Event : Type 0 where
  says relays replies : Text → Event
  relays_shared replies_shared : Option Text → Event
  answers : RegionJob → Event
  answers_cached : Option CachedRegion → Event
  takes gives_back drops : Event

-- The queue, and the item that the writer has in hand.
pub record Client : Type 0 where
  pub queue : OutQueue
  pub held : Option OutItem

unfoldable pub give_back : OutQueue → Option OutItem → OutQueue
give_back q none = q
give_back q (some item) = (requeue_front q item).0

unfoldable pub step : Client → Event → Client
unfolding give_back
step c (says line) = record c { queue = (push_hi c.queue line).0 }
step c (relays blob) = record c { queue = (push_world c.queue blob).0 }
step c (relays_shared blob) = record c { queue = (push_world_shared c.queue blob).0 }
step c (replies blob) = record c { queue = (push_reply c.queue blob).0 }
step c (replies_shared blob) = record c { queue = (push_reply_shared c.queue blob).0 }
step c (answers j) = record c { queue = (push_region c.queue j).0 }
step c (answers_cached reply) = record c { queue = (push_cached_region c.queue reply).0 }
step c takes = record { queue = (take_item c.queue).1; held = (take_item c.queue).0 }
step c gives_back = record { queue = give_back c.queue c.held; held = none }
step c drops = record { queue = drop_lo c.queue; held = none }

unfoldable pub run : Client → List Event → Client
run c [] = c
run c (e ∷ es) = run (step c e) es

-- The jobs that callers push are new ones.
abbrev pub IsCall : Event → Type 0
IsCall (answers j) = IsNew j
IsCall _ = Unit {0}

abbrev pub IsHeld : Option OutItem → Type 0
IsHeld none = Unit {0}
IsHeld (some item) = IsFrame item

pub record IsRunning (c : Client) : Type 0 where
  pub queue : IsValid c.queue
  pub held : IsHeld c.held

take_lo-IsHeld :
    (slots : List Slot) (held jobs : ℕ) → All IsSlot slots → IsHeld (take_lo slots held jobs).0
unfolding take_lo
take_lo-IsHeld [] held jobs h = tt
take_lo-IsHeld (string blob ∷ slots) held jobs h = tt
take_lo-IsHeld (shared blob ∷ slots) held jobs h = tt
take_lo-IsHeld (cached reply n ∷ slots) held jobs h = tt
take_lo-IsHeld (job j ∷ slots) held jobs h =
    ground (arith, take_lo-IsHeld slots held (jobs - 1) h.1)

take_item-IsHeld : (q : OutQueue) → IsValid q → IsHeld (take_item q).0
unfolding take_item
take_item-IsHeld q v = on_hi q.hi
  where
    on_hi : (hi : List Text) → IsHeld (take_from hi q).0
    on_hi [] = take_lo-IsHeld q.lo q.lo_bytes q.region_jobs v.slots
    on_hi (line ∷ hi) = tt

give_back-IsValid :
    (q : OutQueue) (item : Option OutItem) → IsHeld item → IsValid q → IsValid (give_back q item)
unfolding give_back
give_back-IsValid q none h v = v
give_back-IsValid q (some item) h v = requeue_front-IsValid q item h v

pub step-IsRunning : (c : Client) (e : Event) → IsCall e → IsRunning c → IsRunning (step c e)
unfolding step
step-IsRunning c (says line) h r = record {
  queue = push_hi-IsValid c.queue line r.queue;
  held = r.held;
}
step-IsRunning c (relays blob) h r = record {
  queue = push_world-IsValid c.queue blob r.queue;
  held = r.held;
}
step-IsRunning c (relays_shared blob) h r = record {
  queue = push_world_shared-IsValid c.queue blob r.queue;
  held = r.held;
}
step-IsRunning c (replies blob) h r = record {
  queue = push_reply-IsValid c.queue blob r.queue;
  held = r.held;
}
step-IsRunning c (replies_shared blob) h r = record {
  queue = push_reply_shared-IsValid c.queue blob r.queue;
  held = r.held;
}
step-IsRunning c (answers j) h r = record {
  queue = push_region-IsValid c.queue j h r.queue;
  held = r.held;
}
step-IsRunning c (answers_cached reply) h r = record {
  queue = push_cached_region-IsValid c.queue reply r.queue;
  held = r.held;
}
step-IsRunning c takes h r = record {
  queue = take_item-IsValid c.queue r.queue;
  held = take_item-IsHeld c.queue r.queue;
}
step-IsRunning c gives_back h r = record {
  queue = give_back-IsValid c.queue c.held r.held r.queue;
  held = tt;
}
step-IsRunning c drops h r = record { queue = drop_lo-IsValid c.queue r.queue; held = tt }

pub run-IsRunning :
    (c : Client) (es : List Event) → All IsCall es → IsRunning c → IsRunning (run c es)
unfolding run
run-IsRunning c [] h r = r
run-IsRunning c (e ∷ es) h r = run-IsRunning (step c e) es h.1 (step-IsRunning c e h.0 r)

abbrev pub fresh : Limits → Client
fresh lim = record { queue = new lim; held = none }

pub new-IsRunning : (lim : Limits) → IsRunning (fresh lim)
new-IsRunning lim = record { queue = new-IsValid lim; held = tt }

-- From an empty queue, whatever calls come in whatever order: the byte counters are the sizes of
-- what is queued, the region counter is the number of regions in flight, every queued region has
-- something left to send, and the recorded peak is never below what is queued.
pub run-IsValid :
    (lim : Limits) (es : List Event) → All IsCall es → IsValid (run (fresh lim) es).queue
run-IsValid lim es h = (run-IsRunning (fresh lim) es h (new-IsRunning lim)).queue
