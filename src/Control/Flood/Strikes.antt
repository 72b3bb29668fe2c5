-- ===== src/Control/Flood/Strikes.antt =====
-- A connection that keeps sending too fast is closed.
use ewb_server.Base.{
  ℕ, suc, ◌<◌, ℤ, pos, leb_ℤ, ◌≡◌, refl, subst, List, [], ◌∷◌, Bool, true, false, leb, arith, inl,
  inr, Bool-cases,
}
use ewb_server.Hardening.Bucket.{TokenBucket, allow, spend, refill}
use ewb_server.Control.Flood.{
  CtlFlood, Verdict, ctl_max_strikes, new, new, judge, check, answer, serve,
}

-- What may be said after `n` refusals in a row: a hang-up at the last one that is tolerated, not
-- before and not after, and nothing behind it.
abbrev pub IsPatient : ℕ → ℕ → List Verdict → Type 0
IsPatient max n [] = Unit {0}
IsPatient max n (Verdict.allowed ∷ vs) = IsPatient max 0 vs
IsPatient max n (Verdict.throttled ∷ vs) = (suc n < max) × IsPatient max (suc n) vs
IsPatient max n (Verdict.disconnected ∷ vs) = (suc n ≡ max) × (vs ≡ [])

allow-refill :
    (now cost : ℤ) (b : TokenBucket) → (allow now cost b).0.refill_per_sec ≡ b.refill_per_sec
unfolding allow spend refill
allow-refill now cost b = ground arith

module _ (max : ℕ) (some_strikes : 0 < max) where
  -- The state between two commands. A guard that is switched off counts no strike.
  record IsGoing (f : CtlFlood) : Type 0 where
    below : f.strikes < max
    limit : f.max_strikes ≡ max
    off : leb_ℤ f.bucket.refill_per_sec (pos 0) ≡ true → f.strikes ≡ 0

  -- One command, after `n` refusals in a row.
  abbrev Judged : ℕ → CtlFlood × Verdict → Type 0
  Judged n (f, Verdict.allowed) = IsGoing f × (f.strikes ≡ 0)
  Judged n (f, Verdict.throttled) = IsGoing f × (f.strikes ≡ suc n)
  Judged n (f, Verdict.disconnected) = suc n ≡ max

  judge-Judged :
      (f : CtlFlood) (r : TokenBucket × Bool)
      → IsGoing f
      → leb_ℤ r.0.refill_per_sec (pos 0) ≡ false
      → Judged f.strikes (judge f r)
  unfolding judge
  judge-Judged f (b, true) v on =
      (record { below = some_strikes; limit = v.limit; off = λ h. refl }, refl)
  judge-Judged f (b, false) v on = elim (Bool-cases (leb f.max_strikes (suc f.strikes))) [
    | inl y ↦ rw y (ground (arith, y, v.below, v.limit))
    | inr n ↦ rw n (
      record {
        below = ground (arith, n, v.limit);
        limit = v.limit;
        off = λ h. absurd (ground (arith, h, on));
      },
      refl,
    )
  ]

  check-Judged : (now : ℤ) (f : CtlFlood) → IsGoing f → Judged f.strikes (check now f)
  unfolding check
  check-Judged now f v = elim (Bool-cases (leb_ℤ f.bucket.refill_per_sec (pos 0))) [
    | inl y ↦ rw y (v, v.off y)
    | inr n ↦
        rw n
          (judge-Judged f (allow now (pos 1) f.bucket) v (rw (allow-refill now (pos 1) f.bucket) n))
  ]

  answered :
      (n : ℕ) (r : CtlFlood × Verdict) (rest : List Verdict)
      → Judged n r
      → (IsGoing r.0 → IsPatient max r.0.strikes rest)
      → IsPatient max n (answer r.1 rest)
  answered n (g, Verdict.allowed) rest j k = subst (λ m. IsPatient max m rest) j.1 (k j.0)
  answered n (g, Verdict.throttled) rest j k =
      (subst (λ m. m < max) j.1 (j.0).below, subst (λ m. IsPatient max m rest) j.1 (k j.0))
  answered n (g, Verdict.disconnected) rest j k = (j, refl)

  serve-IsPatient_from :
      (times : List ℤ) (f : CtlFlood) → IsGoing f → IsPatient max f.strikes (serve times f)
  unfolding serve
  serve-IsPatient_from [] f v = tt
  serve-IsPatient_from (now ∷ more) f v =
      answered f.strikes (check now f) (serve more (check now f).0) (check-Judged now f v)
        (serve-IsPatient_from more (check now f).0)

-- Whatever the pace of the commands, a connection is closed at the eighth refusal in a row, not
-- before and not after; a command that is let through starts the count again.
pub serve-IsPatient :
    (burst rate : ℤ) (times : List ℤ) → IsPatient ctl_max_strikes 0 (serve times (new burst rate))
unfolding new
serve-IsPatient burst rate times =
    serve-IsPatient_from ctl_max_strikes (omega arith) times (new burst rate)
      (record { below = omega arith; limit = refl; off = λ h. refl })
