-- ===== src/Hardening/Bucket/Levels.antt =====
-- How full a bucket can be, and what a refused request costs.
use ewb_server.Base.{
  inl, inr, ℤ, pos, negsuc, ◌-ℤ◌, ◌*ℤ◌, neg, leb_ℤ, ltb_ℤ, ◌≤ℤ◌, +ℤ_parts, -ℤ_parts, neg_parts,
  Bool, true, false, ◌||◌, if◌then◌else◌, arith, Bool-cases,
}
use ewb_server.Hardening.Bucket.{
  TokenBucket, refill, spend, allow, debit, charge, admit_paid, region_budget_admit,
}

-- Never above the burst, and never further below empty than one burst.
pub record IsBucket (b : TokenBucket) : Type 0 where
  pub room : pos 0 ≤ℤ b.capacity
  pub rate : pos 0 ≤ℤ b.refill_per_sec
  pub high : b.tokens ≤ℤ b.capacity
  pub low : neg b.capacity ≤ℤ b.tokens

-- A time that has passed brings no loss.
pub gain : (d r : ℤ) → pos 0 ≤ℤ d → pos 0 ≤ℤ r → pos 0 ≤ℤ d *ℤ r
unfolding ◌*ℤ◌
gain (pos m) (pos n) h k = ground arith
gain (negsuc m) r h k = absurd (omega arith)
gain (pos m) (negsuc n) h k = absurd (omega arith)

pub refill-IsBucket : (now : ℤ) (b : TokenBucket) → IsBucket b → IsBucket (refill now b)
unfolding refill
refill-IsBucket now b v = ground (
  arith,
  v.room,
  v.rate,
  v.high,
  v.low,
  gain (now -ℤ b.last) b.refill_per_sec,
  +ℤ_parts b.tokens ((now -ℤ b.last) *ℤ b.refill_per_sec),
  -ℤ_parts now b.last,
  neg_parts b.capacity,
)

pub spend-IsBucket :
    (cost : ℤ) (b : TokenBucket) → pos 0 ≤ℤ cost → IsBucket b → IsBucket (spend cost b).0
unfolding spend
spend-IsBucket cost b h v =
    ground (arith, v.room, v.rate, v.high, v.low, -ℤ_parts b.tokens cost, neg_parts b.capacity)

pub debit-IsBucket :
    (cost : ℤ) (b : TokenBucket) → pos 0 ≤ℤ cost → IsBucket b → IsBucket (debit cost b)
unfolding debit
debit-IsBucket cost b h v =
    ground (arith, v.room, v.rate, v.high, v.low, -ℤ_parts b.tokens cost, neg_parts b.capacity)

pub allow-IsBucket :
    (now cost : ℤ) (b : TokenBucket) → pos 0 ≤ℤ cost → IsBucket b → IsBucket (allow now cost b).0
unfolding allow
allow-IsBucket now cost b h v = spend-IsBucket cost (refill now b) h (refill-IsBucket now b v)

pub charge-IsBucket :
    (now cost : ℤ) (b : TokenBucket) → pos 0 ≤ℤ cost → IsBucket b → IsBucket (charge now cost b)
unfolding charge
charge-IsBucket now cost b h v = debit-IsBucket cost (refill now b) h (refill-IsBucket now b v)

pub admit_paid-IsBucket :
    (now records up_front : ℤ) (p : TokenBucket × Bool)
    → IsBucket p.0
    → IsBucket (admit_paid now records up_front p).0
unfolding admit_paid
admit_paid-IsBucket now records up_front (b, false) v = v
admit_paid-IsBucket now records up_front (b, true) v = elim (Bool-cases (ltb_ℤ up_front records)) [
  | inl e ↦
      rw e (
        charge-IsBucket now (records -ℤ up_front) b (ground (arith, -ℤ_parts records up_front, e))
          v)
  | inr e ↦ rw e v
]

-- The level of a bucket stays between one burst of debt and one burst, whatever is asked of it.
pub region_budget_admit-IsBucket :
    (now records : ℤ) (b : TokenBucket)
    → IsBucket b
    → IsBucket (region_budget_admit now records b).0
unfolding region_budget_admit
region_budget_admit-IsBucket now records b v =
    let u = if ltb_ℤ records b.capacity then records else b.capacity in
    elim (Bool-cases (leb_ℤ b.capacity (pos 0) || leb_ℤ b.refill_per_sec (pos 0))) [
      | inl off ↦ rw off v
      | inr on ↦ elim (Bool-cases (leb_ℤ records (pos 0))) [
        | inl nothing ↦ rw (on, nothing) v
        | inr some_records ↦
            (let cost : pos 0 ≤ℤ u = ground (arith, v.room, some_records) in
              rw (on, some_records)
                (admit_paid-IsBucket now records u (allow now u b) (allow-IsBucket now u b cost v)))
      ]
    ]
