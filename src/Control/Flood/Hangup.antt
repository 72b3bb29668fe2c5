-- ===== src/Control/Flood/Hangup.antt =====
-- A caller in a busy loop is disconnected.
use ewb_server.Base.{
  ℕ, zero, suc, ◌+◌, ℤ, pos, leb_ℤ, ltb_ℤ, ◌-ℤ◌, -ℤ_parts, eq_of_parts, replicate, ◌≡◌, refl, ◌∙◌,
  ap, List, [], ◌∷◌, ◌++◌, true, false, leb, arith, if◌then◌else◌,
}
use ewb_server.Hardening.Bucket
use ewb_server.Hardening.Bucket.{TokenBucket, allow, spend, refill}
use ewb_server.Control.Flood.{
  CtlFlood, Verdict, ctl_max_strikes, new, judge, check, serve, serve-cons,
}

-- A connection whose bucket holds `tokens` at the time `now` of its last command.
abbrev drawn : ℤ → ℤ → ℤ → ℕ → ℕ → CtlFlood
drawn burst rate now tokens strikes = record {
  bucket = record {
    capacity = burst;
    refill_per_sec = rate;
    tokens = pos tokens;
    last = now;
    primed = true;
  };
  strikes = strikes;
  max_strikes = ctl_max_strikes;
}

module _ (burst rate now : ℤ) (on : leb_ℤ rate (pos 0) ≡ false) where
  same_time : ltb_ℤ now now ≡ false
  same_time = ground arith

  check-drawn :
      (k : ℕ)
      → check now (drawn burst rate now (suc k) 0) ≡ (drawn burst rate now k 0, Verdict.allowed)
  unfolding check judge allow spend refill
  check-drawn k =
      let taken : pos (suc k) -ℤ pos 1 ≡ pos k =
        eq_of_parts _ _ (omega (arith, -ℤ_parts (pos (suc k)) (pos 1))) in
      let enough : ltb_ℤ (pos (suc k)) (pos 1) ≡ false = ground arith in
      rw (on, same_time, enough, taken) refl

  check_empty :
      (n : ℕ)
      → check now (drawn burst rate now 0 n) ≡ (
        drawn burst rate now 0 (suc n),
        (if leb ctl_max_strikes (suc n) then Verdict.disconnected else Verdict.throttled),
      )
  unfolding check judge allow spend refill
  check_empty n = rw (on, same_time) refl

  serve_empty :
      (m n : ℕ)
      → n + suc m ≡ ctl_max_strikes
      → serve (replicate (suc m) now) (drawn burst rate now 0 n)
        ≡ replicate m Verdict.throttled ++ (Verdict.disconnected ∷ [])
  serve_empty zero n h =
      let last : leb ctl_max_strikes (suc n) ≡ true = ground (arith, h) in
      rw (serve-cons now [] (drawn burst rate now 0 n), check_empty n, last) refl
  serve_empty (suc m) n h =
      let more : leb ctl_max_strikes (suc n) ≡ false = ground (arith, h) in
      rw (serve-cons now (replicate (suc m) now) (drawn burst rate now 0 n), check_empty n, more)
        (ap (λ vs. Verdict.throttled ∷ vs) (serve_empty m (suc n) (omega (arith, h))))

  serve_step :
      (k : ℕ) (times : List ℤ)
      → serve (now ∷ times) (drawn burst rate now (suc k) 0)
        ≡ Verdict.allowed ∷ serve times (drawn burst rate now k 0)
  serve_step k times =
      rw (serve-cons now times (drawn burst rate now (suc k) 0), check-drawn k) refl

  serve-drawn :
      (k : ℕ)
      → serve (replicate (k + 8) now) (drawn burst rate now k 0)
        ≡ replicate k Verdict.allowed
          ++ (replicate 7 Verdict.throttled ++ (Verdict.disconnected ∷ []))
  serve-drawn zero = serve_empty 7 0 refl
  serve-drawn (suc k) =
      let e : suc k + 8 ≡ suc (k + 8) = omega arith in
      rw e (serve_step k (replicate (k + 8) now) ∙ ap (λ vs. Verdict.allowed ∷ vs) (serve-drawn k))

module _ (rate now : ℤ) (on : leb_ℤ rate (pos 0) ≡ false) where
  check-new :
      (k : ℕ)
      → check now (new (pos (suc k)) rate) ≡ (drawn (pos (suc k)) rate now k 0, Verdict.allowed)
  unfolding check judge allow spend refill new Bucket.new
  check-new k =
      let taken : pos (suc k) -ℤ pos 1 ≡ pos k =
        eq_of_parts _ _ (omega (arith, -ℤ_parts (pos (suc k)) (pos 1))) in
      let enough : ltb_ℤ (pos (suc k)) (pos 1) ≡ false = ground arith in rw (on, enough, taken) refl

-- With the guard on, a caller that sends its commands at one moment has those of the burst let
-- through and the next seven refused, and is disconnected at the eighth.
pub serve_busy :
    (burst : ℕ) (rate now : ℤ)
    → leb_ℤ rate (pos 0) ≡ false
    → serve (replicate (suc burst + 8) now) (new (pos (suc burst)) rate)
      ≡ replicate (suc burst) Verdict.allowed
        ++ (replicate 7 Verdict.throttled ++ (Verdict.disconnected ∷ []))
serve_busy burst rate now on =
    let e : suc burst + 8 ≡ suc (burst + 8) = omega arith in
    rw
      (
        e,
        serve-cons now (replicate (burst + 8) now) (new (pos (suc burst)) rate),
        check-new rate now on burst,
      )
      (ap (λ vs. Verdict.allowed ∷ vs) (serve-drawn (pos (suc burst)) rate now on burst))
