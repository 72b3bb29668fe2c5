-- ===== src/Hardening/Bucket.antt =====
-- hardening.h, `TokenBucket` and the budget of `REGION` records over it. Times, rates and tokens
-- are exact integers.
pub mod Levels
pub mod Admission
pub mod Rate
mod Tests
use ewb_server.Base.{
  ℕ, ℤ, pos, ◌+ℤ◌, ◌-ℤ◌, ◌*ℤ◌, neg, leb_ℤ, ltb_ℤ, Bool, true, false, ◌||◌, if◌then◌else◌, List, [],
  ◌∷◌,
}

pub record TokenBucket : Type 0 where
  pub capacity : ℤ
  pub refill_per_sec : ℤ
  pub tokens : ℤ
  pub last : ℤ
  pub primed : Bool

unfoldable pub new : ℤ → ℤ → TokenBucket
new cap rate = record {
  capacity = cap;
  refill_per_sec = rate;
  tokens = cap;
  last = pos 0;
  primed = false;
}

-- `if (tokens > capacity) tokens = capacity;`
abbrev pub at_most : ℤ → ℤ → ℤ
at_most cap t = if ltb_ℤ cap t then cap else t

unfoldable pub refill : ℤ → TokenBucket → TokenBucket
refill now b =
    if b.primed
    then if ltb_ℤ b.last now
      then record b {
        tokens = at_most b.capacity (b.tokens +ℤ (now -ℤ b.last) *ℤ b.refill_per_sec);
        last = now;
      }
      else b
    else record b { last = now; primed = true }

-- Takes the cost if it is there.
unfoldable pub spend : ℤ → TokenBucket → TokenBucket × Bool
spend cost b =
    if ltb_ℤ b.tokens cost then (b, false) else (record b { tokens = b.tokens -ℤ cost }, true)

unfoldable pub allow : ℤ → ℤ → TokenBucket → TokenBucket × Bool
unfolding spend
allow now cost b = spend cost (refill now b)

-- `if (tokens < -capacity) tokens = -capacity;`
abbrev pub at_least : ℤ → ℤ → ℤ
at_least low t = if ltb_ℤ t low then low else t

unfoldable pub debit : ℤ → TokenBucket → TokenBucket
debit cost b = record b { tokens = at_least (neg b.capacity) (b.tokens -ℤ cost) }

unfoldable pub charge : ℤ → ℤ → TokenBucket → TokenBucket
unfolding debit
charge now cost b = debit cost (refill now b)

-- What stands behind the first two tests of `region_budget_admit`.
unfoldable pub admit_paid : ℤ → ℤ → ℤ → TokenBucket × Bool → TokenBucket × Bool
admit_paid now records up_front (b, false) = (b, false)
admit_paid now records up_front (b, true) =
    (if ltb_ℤ up_front records then charge now (records -ℤ up_front) b else b, true)

unfoldable pub region_budget_admit : ℤ → ℤ → TokenBucket → TokenBucket × Bool
unfolding admit_paid allow charge
region_budget_admit now records b =
    if leb_ℤ b.capacity (pos 0) || leb_ℤ b.refill_per_sec (pos 0)
    then (b, true)
    else if leb_ℤ records (pos 0)
    then (b, true)
    else let up_front = if ltb_ℤ records b.capacity then records else b.capacity in
      admit_paid now records up_front (allow now up_front b)
