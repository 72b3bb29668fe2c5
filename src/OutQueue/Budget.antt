-- ===== src/OutQueue/Budget.antt =====
-- The bounds that the limits set.
use ewb_server.Base.{
  ℕ, zero, suc, ◌+◌, ◌-◌, ◌≤◌, ◌<◌, ◌≡◌, refl, sym, ap, drop-nil, Bool-cases, ◌∙◌, ◌≢◌, ◌↔◌, ◌⊎◌,
  inl, inr, List, [], ◌∷◌, ◌++◌, Bool, true, length, Text, arith, ltb, drop,
}
use ewb_server.OutQueue.{OutQueue, Backlog, drop_old, push_hi}
use ewb_server.OutQueue.Accounting.{lines_bytes, IsValid}

-- The loop drops the oldest lines, only while there is no room, and counts them.
record IsTrimmed (cap add : ℕ) (ls : List Text) (held n lost : ℕ) (b : Backlog) : Type 0 where
  counted : n ≤ b.lost_lines
  kept : b.lines ≡ drop (b.lost_lines - n) ls
  bytes : b.lost_bytes + b.held ≡ lost + held
  room : (b.held + add ≤ cap) ⊎ (b.lines ≡ [])
  needed : (m : ℕ) → n + m < b.lost_lines → cap < lines_bytes (drop m ls) + add

drop-suc {ℓ} :
    {A : Type ℓ} (n m : ℕ) (x : A) (xs : List A)
    → suc n ≤ m
    → drop (m - suc n) xs ≡ drop (m - n) (x ∷ xs)
drop-suc n m x xs h =
    let e : m - n ≡ suc (m - suc n) = omega arith in ap (λ (k : ℕ). drop k (x ∷ xs)) (sym e)

drop_self {ℓ} : {A : Type ℓ} (n : ℕ) (xs : List A) → xs ≡ drop (n - n) xs
drop_self n xs = let e : 0 ≡ n - n = omega arith in ap (λ (k : ℕ). drop k xs) e

-- The line at the front went for want of room, each later one as the rest was trimmed.
needed_more :
    (cap add : ℕ) (l : Text) (ls : List Text) (n m lost : ℕ)
    → cap < lines_bytes (l ∷ ls) + add
    → ((k : ℕ) → n + 1 + k < lost → cap < lines_bytes (drop k ls) + add)
    → n + m < lost
    → cap < lines_bytes (drop m (l ∷ ls)) + add
needed_more cap add l ls n zero lost full k h = full
needed_more cap add l ls n (suc m) lost full k h = k m (omega (arith, h))

IsTrimmed-more :
    {cap add : ℕ} {l : Text} {ls : List Text} {held n lost : ℕ} {b : Backlog}
    → held ≡ lines_bytes (l ∷ ls)
    → ltb cap (held + add) ≡ true
    → IsTrimmed cap add ls (held - length l) (n + 1) (lost + length l) b
    → IsTrimmed cap add (l ∷ ls) held n lost b
IsTrimmed-more {cap = cap} {add} {l = l} {ls} {n = n} {b = b} h full t = record {
  counted = omega (arith, t.counted);
  kept =
      t.kept
      ∙ ap (λ (k : ℕ). drop (b.lost_lines - k) ls) (omega arith)
      ∙ drop-suc n b.lost_lines l ls (omega (arith, t.counted));
  bytes = omega (arith, t.bytes);
  room = t.room;
  needed = λ m g. needed_more cap add l ls n m b.lost_lines (ground (arith, h, full)) t.needed g;
}

drop_old-IsTrimmed :
    (cap add : ℕ) (ls : List Text) (held n lost : ℕ)
    → held ≡ lines_bytes ls
    → IsTrimmed cap add ls held n lost (drop_old cap add ls held n lost)
unfolding drop_old
drop_old-IsTrimmed cap add [] held n lost h = record {
  counted = omega arith;
  kept = sym (drop-nil (n - n));
  bytes = refl;
  room = inr refl;
  needed = λ m h. absurd (omega (arith, h));
}
drop_old-IsTrimmed cap add (l ∷ ls) held n lost h = elim (Bool-cases (ltb cap (held + add))) [
  | inl full ↦ rw full (
      IsTrimmed-more h full
        (drop_old-IsTrimmed cap add ls (held - length l) (n + 1) (lost + length l) (omega arith)))
  | inr fits ↦ rw fits (record {
    counted = omega arith;
    kept = drop_self n (l ∷ ls);
    bytes = refl;
    room = inl (ground arith);
    needed = λ m h. absurd (omega (arith, h));
  })
]

-- What a call of `push_hi` does to the queue; `lost` is the number of lines that it drops.
pub record IsPushed (q : OutQueue) (line : Text) (q' : OutQueue) (kept : Bool) : Type 0 where
  pub lost : ℕ
  pub hi : q'.hi ≡ drop lost q.hi ++ (line ∷ [])
  pub lines : q'.dropped_lines ≡ q.dropped_lines + lost
  pub bytes : q'.dropped_bytes + q'.hi_bytes ≡ q.dropped_bytes + q.hi_bytes + length line
  pub room : (q'.hi_bytes ≤ q.lim.hi_max_bytes) ⊎ (q'.hi ≡ line ∷ [])
  pub needed : (m : ℕ) → m < lost → q.lim.hi_max_bytes < lines_bytes (drop m q.hi) + length line
  pub result : (kept ≡ true) ↔ (lost ≡ 0)
  pub lo : q'.lo ≡ q.lo

fits :
    {cap : ℕ} (line : Text) (b : Backlog)
    → (b.held + length line ≤ cap) ⊎ (b.lines ≡ [])
    → (b.held + length line ≤ cap) ⊎ (b.lines ++ (line ∷ []) ≡ line ∷ [])
fits line b (inl h) = inl h
fits line b (inr e) = inr (rw e)

-- On a valid queue a line that is not empty always gets in, at the back of `hi`. The oldest lines go,
-- and each that goes had to: it, the lines behind it and the new line together exceed the budget.
-- Afterwards the budget holds, or the new line is alone. The result is true exactly when nothing
-- went, and what went is in the two drop counters.
pub push_hi-IsPushed :
    (q : OutQueue) (line : Text)
    → IsValid q
    → line ≢ []
    → IsPushed q line (push_hi q line).0 (push_hi q line).1
unfolding push_hi
push_hi-IsPushed q [] v h = absurd (h refl)
push_hi-IsPushed q (c ∷ cs) v h =
    let b = drop_old q.lim.hi_max_bytes (length (c ∷ cs)) q.hi q.hi_bytes 0 0 in
    let t = drop_old-IsTrimmed q.lim.hi_max_bytes (length (c ∷ cs)) q.hi q.hi_bytes 0 0 v.hi_sum in
    record {
      lost = b.lost_lines;
      hi =
          ap (λ (ls : List Text). ls ++ ((c ∷ cs) ∷ []))
            (t.kept ∙ ap (λ (k : ℕ). drop k q.hi) (omega arith));
      lines = refl;
      bytes = omega (arith, t.bytes);
      room = fits (c ∷ cs) b t.room;
      needed = λ m h. t.needed m (omega (arith, h));
      result = ground arith;
      lo = refl;
    }
