-- ===== src/Hardening/Bucket/Admission.antt =====
-- Which `REGION` replies the budget lets through, and what they cost.
use ewb_server.Base.{
  ◌≡◌, ◌↔◌, ◌⊎◌, subst, refl, ap, ◌∙◌, eq_of_parts, inl, inr, ℤ, pos, ◌-ℤ◌, neg, leb_ℤ, ltb_ℤ, ◌≤ℤ◌,
  ◌<ℤ◌, -ℤ_parts, neg_parts, Bool, true, false, if◌then◌else◌, arith, Bool-cases,
}
use ewb_server.Hardening.Bucket.{
  TokenBucket, at_least, refill, spend, allow, debit, charge, admit_paid, region_budget_admit,
}

-- A second refill at the same time adds nothing.
refill_again :
    (now t : ℤ) (b : TokenBucket)
    → refill now (record (refill now b) { tokens = t }) ≡ record (refill now b) { tokens = t }
unfolding refill
refill_again now t b = ground arith

-- What the answer to a reply of `records` records leaves in the bucket. `b₁` is the refilled bucket.
pub record IsAdmission (records : ℤ) (b₁ b' : TokenBucket) (admitted : Bool) : Type 0 where
  pub verdict : (admitted ≡ false) ↔ ((b₁.tokens <ℤ records) × (b₁.tokens <ℤ b₁.capacity))
  pub refused : admitted ≡ false → b' ≡ b₁
  pub paid :
      admitted ≡ true
      → b' ≡ record b₁ { tokens = at_least (neg b₁.capacity) (b₁.tokens -ℤ records) }

refill-capacity : (now : ℤ) (b : TokenBucket) → (refill now b).capacity ≡ b.capacity
unfolding refill
refill-capacity now b = ground arith

-- The debt is what was not there, down to one burst.
overshoot : (cap t u records : ℤ) → (t -ℤ u) -ℤ (records -ℤ u) ≡ t -ℤ records
overshoot cap t u records = eq_of_parts ((t -ℤ u) -ℤ (records -ℤ u)) (t -ℤ records) (
    omega (
      arith,
      -ℤ_parts (t -ℤ u) (records -ℤ u),
      -ℤ_parts t u,
      -ℤ_parts records u,
      -ℤ_parts t records,
    ))

no_debt :
    (cap t records : ℤ)
    → pos 0 ≤ℤ cap
    → records ≤ℤ t
    → t -ℤ records ≡ at_least (neg cap) (t -ℤ records)
no_debt cap t records h le = ground (arith, neg_parts cap, -ℤ_parts t records)

charge_after :
    (now cost t : ℤ) (b : TokenBucket)
    → charge now cost (record (refill now b) { tokens = t })
      ≡ record (refill now b) { tokens = at_least (neg (refill now b).capacity) (t -ℤ cost) }
unfolding charge debit
charge_after now cost t b = rw (refill_again now t b)

smaller : (a b : ℤ) → ((if ltb_ℤ a b then a else b) ≡ a) ⊎ ((if ltb_ℤ a b then a else b) ≡ b)
smaller a b = elim (Bool-cases (ltb_ℤ a b)) [ inl h ↦ rw h (inl refl) | inr h ↦ rw h (inr refl) ]

-- What is there for the first part of the price is not below both the price and a burst.
enough :
    (t u records cap : ℤ)
    → ltb_ℤ t u ≡ false
    → (u ≡ records) ⊎ (u ≡ cap)
    → ¬ ((t <ℤ records) × (t <ℤ cap))
enough t u records cap wet (inl e) h =
    let w = subst (λ (v : ℤ). ltb_ℤ t v ≡ false) e wet in absurd (ground (arith, w, h.0))
enough t u records cap wet (inr e) h =
    let w = subst (λ (v : ℤ). ltb_ℤ t v ≡ false) e wet in absurd (ground (arith, w, h.1))

admit_paid-IsAdmission :
    (now records u : ℤ) (b : TokenBucket)
    → pos 0 ≤ℤ (refill now b).capacity
    → u ≤ℤ records
    → u ≤ℤ (refill now b).capacity
    → (u ≡ records) ⊎ (u ≡ (refill now b).capacity)
    → IsAdmission records
        (refill now b)
        (admit_paid now records u (allow now u b)).0
        (admit_paid now records u (allow now u b)).1
unfolding admit_paid allow spend
admit_paid-IsAdmission now records u b room le small either =
    let t = (refill now b).tokens in
    let cap = (refill now b).capacity in
    elim (Bool-cases (ltb_ℤ t u)) [
      | inl dry ↦ rw dry (record {
        verdict = ((λ _. (ground (arith, dry, le), ground (arith, dry, small))), (λ _. refl));
        refused = λ _. refl;
        paid = λ e. cc;
      })
      | inr wet ↦ elim (Bool-cases (ltb_ℤ u records)) [
        | inl over ↦
            rw (wet, over)
              (record {
                verdict = ((λ e. cc), (λ h. absurd (enough t u records cap wet either h)));
                refused = λ e. cc;
                paid = λ _.
                    charge_after now (records -ℤ u) (t -ℤ u) b
                    ∙ ap (λ (v : ℤ). record (refill now b) { tokens = at_least (neg cap) v })
                        (overshoot cap t u records);
              })
        | inr whole ↦
            (let same : u ≡ records = eq_of_parts u records (ground (arith, whole, le)) in
              rw (wet, whole)
                (record {
                  verdict = ((λ e. cc), (λ h. absurd (enough t u records cap wet either h)));
                  refused = λ e. cc;
                  paid = λ _.
                      ap (λ (v : ℤ). record (refill now b) { tokens = v })
                        (ap (λ (x : ℤ). t -ℤ x) same
                          ∙ no_debt cap t records room (ground (arith, wet, whole, le)));
                }))
      ]
    ]

-- While the budget is on and the reply has records, a reply is refused exactly if the refilled bucket
-- holds less than the reply costs and less than a whole burst, and the refusal costs nothing more;
-- a reply that is sent is paid for in full, into debt if need be, but never below one burst of debt.
pub region_budget_admit-IsAdmission :
    (now records : ℤ) (b : TokenBucket)
    → pos 0 <ℤ b.capacity
    → pos 0 <ℤ b.refill_per_sec
    → pos 0 <ℤ records
    → IsAdmission records
        (refill now b)
        (region_budget_admit now records b).0
        (region_budget_admit now records b).1
unfolding region_budget_admit
region_budget_admit-IsAdmission now records b pc pr some_records =
    let on : leb_ℤ b.capacity (pos 0) ≡ false = ground arith in
    let fills : leb_ℤ b.refill_per_sec (pos 0) ≡ false = ground arith in
    let costs : leb_ℤ records (pos 0) ≡ false = ground arith in
    let u = if ltb_ℤ records b.capacity then records else b.capacity in
    let same = refill-capacity now b in
    rw (on, fills, costs)
      (admit_paid-IsAdmission now records u b (rw same (omega (arith, pc))) (ground arith)
        (rw same (ground arith)) (rw same (smaller records b.capacity)))
