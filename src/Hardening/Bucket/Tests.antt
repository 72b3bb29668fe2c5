-- ===== src/Hardening/Bucket/Tests.antt =====
-- Buckets at concrete levels.
use ewb_server.Base.{ℤ, pos, ◌≤ℤ◌, ◌+ℤ◌, ◌-ℤ◌, ◌*ℤ◌, neg, List, [], ◌∷◌, true, arith}
use ewb_server.Hardening.Bucket.{TokenBucket, new, refill, region_budget_admit}
use ewb_server.Hardening.Bucket.Levels.{IsBucket}
use ewb_server.Hardening.Bucket.Admission.{IsAdmission, region_budget_admit-IsAdmission}
use ewb_server.Hardening.Bucket.Rate.{granted, granted-new-le}

abbrev half : TokenBucket
half = record {
  capacity = pos 100;
  refill_per_sec = pos 10;
  tokens = pos 50;
  last = pos 7;
  primed = true;
}

half-IsBucket : IsBucket half
unfolding neg
half-IsBucket = record {
  room = omega arith;
  rate = omega arith;
  high = omega arith;
  low = omega arith;
}

region_budget_admit-IsAdmission_example :
    IsAdmission
      (pos 250)
      (refill (pos 12) half)
      (region_budget_admit (pos 12) (pos 250) half).0
      (region_budget_admit (pos 12) (pos 250) half).1
region_budget_admit-IsAdmission_example =
    region_budget_admit-IsAdmission (pos 12) (pos 250) half (omega arith) (omega arith)
      (omega arith)

abbrev later : List (ℤ × ℤ)
later = (pos 4, pos 30) ∷ (pos 4, pos 90) ∷ []

granted-new-le_example :
    granted ((pos 3, pos 80) ∷ later) (new (pos 100) (pos 10))
    ≤ℤ pos 100 +ℤ (pos 6 -ℤ pos 3) *ℤ pos 10
granted-new-le_example =
    granted-new-le (pos 100) (pos 10) (pos 3) (pos 6) (pos 80) later (omega arith) (omega arith)
      (omega arith) (omega arith, omega arith, (omega arith, omega arith, omega arith))
