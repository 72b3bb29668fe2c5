-- ===== src/OutQueue/Backlogs.antt =====
-- How far a client can fall behind.
use ewb_server.Base.{
  ℕ, ◌+◌, ◌≤◌, ◌≡◌, refl, ap, List, [], ◌∷◌, Option, none, some, length, Text, All, arith,
}
use ewb_server.Region.{CachedRegion}
use ewb_server.OutQueue.{
  RegionJob, OutItem, bytes, shared_bytes, frame, cached_frame, OutQueue, Limits, new, push_hi,
  push_world, push_world_shared, push_reply, push_reply_shared, push_region, push_cached_region,
}
use ewb_server.OutQueue.Writer.{take_from, take_item, requeue_front, drop_lo}
use ewb_server.OutQueue.Accounting.{IsValid}
use ewb_server.OutQueue.Taking.{take_lo-IsLow}
use ewb_server.OutQueue.Runs.{
  Event, says, relays, replies, relays_shared, replies_shared, answers, answers_cached, takes,
  gives_back, drops, Client, give_back, step, run, IsCall, IsRunning, step-IsRunning, fresh,
  new-IsRunning,
}

abbrev size_of : Option Text → ℕ
size_of none = 0
size_of (some blob) = length blob

-- The world state that an event queues is `u` bytes at most.
abbrev pub IsUpTo : ℕ → Event → Type 0
IsUpTo u (relays blob) = length blob ≤ u
IsUpTo u (replies blob) = length blob ≤ u
IsUpTo u (relays_shared blob) = size_of blob ≤ u
IsUpTo u (replies_shared blob) = size_of blob ≤ u
IsUpTo u _ = Unit {0}

-- The limits stay, and the backlog stays within the budget and one update.
record Keeps (u : ℕ) (q q' : OutQueue) : Type 0 where
  limits : q'.lim ≡ q.lim
  backlog : q.lo_bytes ≤ q.lim.lo_max_bytes + u → q'.lo_bytes ≤ q.lim.lo_max_bytes + u

push_world-Keeps :
    (u : ℕ) (q : OutQueue) (blob : Text) → length blob ≤ u → Keeps u q (push_world q blob).0
unfolding push_world
push_world-Keeps u q blob h = record { limits = ground arith; backlog = λ b. ground arith }

push_world_shared-Keeps :
    (u : ℕ) (q : OutQueue) (blob : Option Text)
    → size_of blob ≤ u
    → Keeps u q (push_world_shared q blob).0
unfolding push_world_shared
push_world_shared-Keeps u q none h = record { limits = refl; backlog = λ b. b }
push_world_shared-Keeps u q (some blob) h = record {
  limits = ground arith;
  backlog = λ b. ground arith;
}

push_reply-Keeps :
    (u : ℕ) (q : OutQueue) (blob : Text) → length blob ≤ u → Keeps u q (push_reply q blob).0
unfolding push_reply
push_reply-Keeps u q blob h = record { limits = ground arith; backlog = λ b. ground arith }

push_reply_shared-Keeps :
    (u : ℕ) (q : OutQueue) (blob : Option Text)
    → size_of blob ≤ u
    → Keeps u q (push_reply_shared q blob).0
unfolding push_reply_shared
push_reply_shared-Keeps u q none h = record { limits = refl; backlog = λ b. b }
push_reply_shared-Keeps u q (some blob) h = record {
  limits = ground arith;
  backlog = λ b. ground arith;
}

push_hi-Keeps : (u : ℕ) (q : OutQueue) (line : Text) → Keeps u q (push_hi q line).0
unfolding push_hi
push_hi-Keeps u q line = record { limits = ground arith; backlog = λ b. ground arith }

push_region-Keeps : (u : ℕ) (q : OutQueue) (j : RegionJob) → Keeps u q (push_region q j).0
unfolding push_region
push_region-Keeps u q j = record { limits = ground arith; backlog = λ b. ground arith }

push_cached_region-Keeps :
    (u : ℕ) (q : OutQueue) (reply : Option CachedRegion) → Keeps u q (push_cached_region q reply).0
unfolding push_cached_region
push_cached_region-Keeps u q none = record { limits = ground arith; backlog = λ b. ground arith }
push_cached_region-Keeps u q (some r) = record {
  limits = ground arith;
  backlog = λ b. ground arith;
}

take_from-Keeps : (u : ℕ) (hi : List Text) (q : OutQueue) → IsValid q → Keeps u q (take_from hi q).1
unfolding take_from
take_from-Keeps u [] q v =
    let (l, h) = take_lo-IsLow q.lo q.lo_bytes q.region_jobs v.lo_sum v.jobs_sum v.slots in
    record { limits = refl; backlog = λ b. omega arith }
take_from-Keeps u (l ∷ hi) q v = record { limits = refl; backlog = λ b. b }

take_item-Keeps : (u : ℕ) (q : OutQueue) → IsValid q → Keeps u q (take_item q).1
unfolding take_item
take_item-Keeps u q v = take_from-Keeps u q.hi q v

give_back-Keeps : (u : ℕ) (q : OutQueue) (item : Option OutItem) → Keeps u q (give_back q item)
unfolding give_back requeue_front
give_back-Keeps u q none = record { limits = refl; backlog = λ b. b }
give_back-Keeps u q (some (frame it)) = record { limits = refl; backlog = λ b. b }
give_back-Keeps u q (some (bytes b)) = record { limits = refl; backlog = λ b. b }
give_back-Keeps u q (some (shared_bytes b)) = record { limits = refl; backlog = λ b. b }
give_back-Keeps u q (some (cached_frame l n a b)) = record { limits = refl; backlog = λ b. b }

step-Keeps :
    (u : ℕ) (c : Client) (e : Event) → IsUpTo u e → IsRunning c → Keeps u c.queue (step c e).queue
unfolding step
step-Keeps u c (says line) h r = push_hi-Keeps u c.queue line
step-Keeps u c (relays blob) h r = push_world-Keeps u c.queue blob h
step-Keeps u c (replies blob) h r = push_reply-Keeps u c.queue blob h
step-Keeps u c (relays_shared blob) h r = push_world_shared-Keeps u c.queue blob h
step-Keeps u c (replies_shared blob) h r = push_reply_shared-Keeps u c.queue blob h
step-Keeps u c (answers j) h r = push_region-Keeps u c.queue j
step-Keeps u c (answers_cached reply) h r = push_cached_region-Keeps u c.queue reply
step-Keeps u c takes h r = take_item-Keeps u c.queue r.queue
step-Keeps u c gives_back h r = give_back-Keeps u c.queue c.held
step-Keeps u c drops h r = unfold drop_lo in record { limits = refl; backlog = λ b. omega arith }

run-lo_bytes :
    (u : ℕ) (c : Client) (es : List Event)
    → All IsCall es
    → All (IsUpTo u) es
    → IsRunning c
    → c.queue.lo_bytes ≤ c.queue.lim.lo_max_bytes + u
    → (run c es).queue.lo_bytes ≤ c.queue.lim.lo_max_bytes + u
unfolding run
run-lo_bytes u c [] k h r b = b
run-lo_bytes u c (e ∷ es) k h r b =
    let kept = step-Keeps u c e h.0 r in
    let lim = ap (λ (l : Limits). l.lo_max_bytes) kept.limits in
    let b' = kept.backlog b in
    omega (arith, run-lo_bytes u (step c e) es k.1 h.1 (step-IsRunning c e k.0 r) (omega arith))

-- The world-state backlog of a client is bounded by the budget and one update: where no update is
-- larger than `u` bytes, whatever calls come in whatever order, `lo` holds `lo_max_bytes + u` bytes
-- at most.
pub lo_bytes-bounded :
    (u : ℕ) (lim : Limits) (es : List Event)
    → All IsCall es
    → All (IsUpTo u) es
    → (run (fresh lim) es).queue.lo_bytes ≤ lim.lo_max_bytes + u
unfolding new
lo_bytes-bounded u lim es k h = run-lo_bytes u (fresh lim) es k h (new-IsRunning lim) (omega arith)
