-- ===== src/Hardening/Bucket/Rate.antt =====
-- How much a bucket hands out over a time.
use ewb_server.Base.{
  ℕ, ◌+◌, ◌*◌, ◌≡◌, refl, ap, ap₂, sym, subst, ◌∙◌, inl, inr, ℤ, pos, ◌+ℤ◌, ◌-ℤ◌, ◌*ℤ◌, ltb_ℤ, ◌≤ℤ◌,
  pos_part, neg_part, +ℤ_parts, -ℤ_parts, neg_parts, eq_of_parts, Bool, true, if◌then◌else◌, arith,
  Bool-cases, List, [], ◌∷◌,
}
use ewb_server.Hardening.Bucket.{TokenBucket, new, refill, spend, allow}
use ewb_server.Hardening.Bucket.Levels.{IsBucket, gain, allow-IsBucket}
use native.Mathlib.Nat.{add-mul}

-- What requests of the given times and costs get from the bucket, all together.
abbrev granted_cost : Bool → ℤ → ℤ
granted_cost ok cost = if ok then cost else pos 0

pub granted : List (ℤ × ℤ) → TokenBucket → ℤ
granted [] b = pos 0
granted ((now, cost) ∷ requests) b =
    let (b', ok) = allow now cost b in granted_cost ok cost +ℤ granted requests b'

-- The times do not go back, from `last` on up to `end`, and no cost is below 0.
abbrev pub IsSequence : ℤ → ℤ → List (ℤ × ℤ) → Type 0
IsSequence last end [] = last ≤ℤ end
IsSequence last end ((now, cost) ∷ requests) =
    (last ≤ℤ now) × (pos 0 ≤ℤ cost) × IsSequence now end requests

*ℤ_parts :
    (a b : ℤ)
    → pos_part (a *ℤ b) + (pos_part a * neg_part b + neg_part a * pos_part b)
      ≡ neg_part (a *ℤ b) + (pos_part a * pos_part b + neg_part a * neg_part b)
unfolding ◌*ℤ◌
*ℤ_parts a b = ground arith

times_three : (x y z k : ℕ) → (x + y + z) * k ≡ x * k + y * k + z * k
times_three x y z k = omega (arith, add-mul (x + y) z k, add-mul x y k)

scaled : (x y z u v w k : ℕ) → x + y + z ≡ u + v + w → x * k + y * k + z * k ≡ u * k + v * k + w * k
scaled x y z u v w k h =
    omega (arith, times_three x y z k, times_three u v w k, ap (λ (n : ℕ). n * k) h)

-- Two times after one another bring what the whole time brings.
split_time : (a b c r : ℤ) → (b -ℤ a) *ℤ r +ℤ (c -ℤ b) *ℤ r ≡ (c -ℤ a) *ℤ r
split_time a b c r =
    let d = b -ℤ a in
    let e = c -ℤ b in
    let f = c -ℤ a in
    let parts : pos_part d + pos_part e + neg_part f ≡ pos_part f + neg_part d + neg_part e =
      omega (arith, -ℤ_parts b a, -ℤ_parts c b, -ℤ_parts c a) in
    eq_of_parts (d *ℤ r +ℤ e *ℤ r) (f *ℤ r) (
      omega (
        arith,
        +ℤ_parts (d *ℤ r) (e *ℤ r),
        *ℤ_parts d r,
        *ℤ_parts e r,
        *ℤ_parts f r,
        scaled (pos_part d) (pos_part e) (neg_part f) (pos_part f) (neg_part d) (neg_part e)
            (pos_part r) parts,
        scaled (pos_part d) (pos_part e) (neg_part f) (pos_part f) (neg_part d) (neg_part e)
            (neg_part r) parts,
      ))

-- What a primed bucket gains by a refill, and that it does not stay behind the clock.
refill-gain :
    (now : ℤ) (b : TokenBucket)
    → IsBucket b
    → b.primed ≡ true
    → b.last ≤ℤ now
    → ((refill now b).tokens ≤ℤ b.tokens +ℤ (now -ℤ b.last) *ℤ b.refill_per_sec)
      × ((refill now b).last ≡ now)
unfolding refill
refill-gain now b v primed le = ground (
  arith,
  primed,
  v.rate,
  le,
  gain (now -ℤ b.last) b.refill_per_sec,
  +ℤ_parts b.tokens ((now -ℤ b.last) *ℤ b.refill_per_sec),
  -ℤ_parts now b.last,
  eq_of_parts b.last now,
)

refill_kept :
    (now : ℤ) (b : TokenBucket)
    → ((refill now b).refill_per_sec ≡ b.refill_per_sec) × ((refill now b).primed ≡ true)
unfolding refill
refill_kept now b = ground arith

refill_nonneg :
    (now : ℤ) (b : TokenBucket) → IsBucket b → pos 0 ≤ℤ b.tokens → pos 0 ≤ℤ (refill now b).tokens
unfolding refill
refill_nonneg now b v h = ground (
  arith,
  v.room,
  v.rate,
  gain (now -ℤ b.last) b.refill_per_sec,
  +ℤ_parts b.tokens ((now -ℤ b.last) *ℤ b.refill_per_sec),
  -ℤ_parts now b.last,
)

-- What a request leaves: the cost is taken or nothing is.
record IsSpent (cost : ℤ) (b b' : TokenBucket) (ok : Bool) : Type 0 where
  sum : granted_cost ok cost +ℤ b'.tokens ≡ b.tokens
  nonneg : pos 0 ≤ℤ b'.tokens
  last : b'.last ≡ b.last
  rate : b'.refill_per_sec ≡ b.refill_per_sec
  primed : b'.primed ≡ b.primed

spend-IsSpent :
    (cost : ℤ) (b : TokenBucket)
    → pos 0 ≤ℤ b.tokens
    → IsSpent cost b (spend cost b).0 (spend cost b).1
unfolding spend
spend-IsSpent cost b h = elim (Bool-cases (ltb_ℤ b.tokens cost)) [
  | inl dry ↦ rw dry (record {
    sum = eq_of_parts (pos 0 +ℤ b.tokens) b.tokens (omega (arith, +ℤ_parts (pos 0) b.tokens));
    nonneg = h;
    last = refl;
    rate = refl;
    primed = refl;
  })
  | inr wet ↦ rw wet (record {
    sum =
        eq_of_parts (cost +ℤ (b.tokens -ℤ cost)) b.tokens
          (omega (arith, +ℤ_parts cost (b.tokens -ℤ cost), -ℤ_parts b.tokens cost));
    nonneg = ground (arith, wet, -ℤ_parts b.tokens cost);
    last = refl;
    rate = refl;
    primed = refl;
  })
]

add_up :
    (g more t' t₁ t x y z : ℤ)
    → g +ℤ t' ≡ t₁
    → t₁ ≤ℤ t +ℤ x
    → more ≤ℤ t' +ℤ y
    → x +ℤ y ≡ z
    → g +ℤ more ≤ℤ t +ℤ z
add_up g more t' t₁ t x y z sum gained rest whole = omega (
  arith,
  +ℤ_parts g t',
  ap pos_part sum,
  ap neg_part sum,
  ap pos_part whole,
  ap neg_part whole,
  +ℤ_parts t x,
  +ℤ_parts t' y,
  +ℤ_parts x y,
  +ℤ_parts g more,
  +ℤ_parts t z,
)

granted-le :
    (requests : List (ℤ × ℤ)) (end : ℤ) (b : TokenBucket)
    → IsBucket b
    → b.primed ≡ true
    → pos 0 ≤ℤ b.tokens
    → IsSequence b.last end requests
    → granted requests b ≤ℤ b.tokens +ℤ (end -ℤ b.last) *ℤ b.refill_per_sec
unfolding granted allow
granted-le [] end b v primed h s = omega (
  arith,
  +ℤ_parts b.tokens ((end -ℤ b.last) *ℤ b.refill_per_sec),
  gain (end -ℤ b.last) b.refill_per_sec (omega (arith, -ℤ_parts end b.last)) v.rate,
)
granted-le ((now, cost) ∷ requests) end b v primed h (le, nonneg, later) =
    let b₁ = refill now b in
    let p = spend cost b₁ in
    let spent = spend-IsSpent cost b₁ (refill_nonneg now b v h) in
    let (gained, at_now) = refill-gain now b v primed le in
    let (kept, is_primed) = refill_kept now b in
    let v' = allow-IsBucket now cost b nonneg v in
    let r = b.refill_per_sec in
    let at_end = spent.last ∙ at_now in
    let ih =
      granted-le requests end p.0 v' (spent.primed ∙ is_primed) spent.nonneg
        (subst (λ (l : ℤ). IsSequence l end requests) (sym at_end) later) in
    let same : (end -ℤ p.0.last) *ℤ p.0.refill_per_sec ≡ (end -ℤ now) *ℤ r =
      ap₂ (λ (l q : ℤ). (end -ℤ l) *ℤ q) at_end (spent.rate ∙ kept) in
    let whole : (now -ℤ b.last) *ℤ r +ℤ (end -ℤ p.0.last) *ℤ p.0.refill_per_sec
        ≡ (end -ℤ b.last) *ℤ r =
      ap (λ (w : ℤ). (now -ℤ b.last) *ℤ r +ℤ w) same ∙ split_time b.last now end r in
    add_up (granted_cost p.1 cost) (granted requests p.0) p.0.tokens b₁.tokens b.tokens
      ((now -ℤ b.last) *ℤ r) ((end -ℤ p.0.last) *ℤ p.0.refill_per_sec) ((end -ℤ b.last) *ℤ r)
      spent.sum gained ih whole

refill_begun : (now : ℤ) (b : TokenBucket) → b.primed ≡ true → b.last ≡ now → refill now b ≡ b
unfolding refill
refill_begun now b primed at = ground (arith, primed, ap pos_part at, ap neg_part at)

-- From its first request at time `start` up to time `end`, a new bucket hands out no more than one
-- burst and what the refill rate brings in that time, whatever is asked and how often.
pub granted-new-le :
    (burst rate start end cost : ℤ) (requests : List (ℤ × ℤ))
    → pos 0 ≤ℤ burst
    → pos 0 ≤ℤ rate
    → pos 0 ≤ℤ cost
    → IsSequence start end requests
    → granted ((start, cost) ∷ requests) (new burst rate) ≤ℤ burst +ℤ (end -ℤ start) *ℤ rate
unfolding granted allow refill new
granted-new-le burst rate start end cost requests room fills nonneg s =
    subst (λ (w : TokenBucket). first w ≤ℤ burst +ℤ (end -ℤ start) *ℤ rate)
      (refill_begun start begun refl refl)
      (granted-le ((start, cost) ∷ requests) end begun valid refl room (omega arith, nonneg, s))
  where
    begun : TokenBucket
    begun = record {
      capacity = burst;
      refill_per_sec = rate;
      tokens = burst;
      last = start;
      primed = true;
    }

    valid : IsBucket begun
    valid = record {
      room = room;
      rate = fills;
      high = omega arith;
      low = omega (arith, neg_parts burst);
    }

    first : TokenBucket → ℤ
    first w = let (b', ok) = spend cost w in granted_cost ok cost +ℤ granted requests b'
