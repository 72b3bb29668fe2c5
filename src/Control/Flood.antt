-- ===== src/Control/Flood.antt =====
-- control.h, `CtlFlood`: the pace of the commands on one control connection.
pub mod Strikes
pub mod Hangup
use ewb_server.Base.{
  ℕ, suc, ℤ, pos, leb_ℤ, ◌≡◌, refl, List, [], ◌∷◌, ◌++◌, Bool, true, false, leb, if◌then◌else◌,
}
use ewb_server.Hardening.Bucket
use ewb_server.Hardening.Bucket.{TokenBucket, allow}

abbrev pub ctl_max_strikes : ℕ
ctl_max_strikes = 8

pub record CtlFlood : Type 0 where
  pub bucket : TokenBucket
  pub strikes : ℕ
  pub max_strikes : ℕ

pub data Verdict : Type 0 where
  allowed throttled disconnected : Verdict

unfoldable pub new : ℤ → ℤ → CtlFlood
unfolding Bucket.new
new burst rate = record {
  bucket = Bucket.new burst rate;
  strikes = 0;
  max_strikes = ctl_max_strikes;
}

unfoldable pub judge : CtlFlood → TokenBucket × Bool → CtlFlood × Verdict
judge f (b, true) = (record f { bucket = b; strikes = 0 }, Verdict.allowed)
judge f (b, false) = (
  record f { bucket = b; strikes = suc f.strikes },
  if leb f.max_strikes (suc f.strikes) then Verdict.disconnected else Verdict.throttled,
)

unfoldable pub check : ℤ → CtlFlood → CtlFlood × Verdict
unfolding judge allow
check now f =
    if leb_ℤ f.bucket.refill_per_sec (pos 0)
    then (f, Verdict.allowed)
    else judge f (allow now (pos 1) f.bucket)

-- What is said to one line and to the rest: nothing after a hang-up.
abbrev pub answer : Verdict → List Verdict → List Verdict
answer Verdict.allowed rest = Verdict.allowed ∷ rest
answer Verdict.throttled rest = Verdict.throttled ∷ rest
answer Verdict.disconnected rest = Verdict.disconnected ∷ []

-- The lines of one connection, by their times (server_posix.cpp, the control connection's loop).
unfoldable pub serve : List ℤ → CtlFlood → List Verdict
serve [] f = []
serve (now ∷ more) f = answer (check now f).1 (serve more (check now f).0)

pub serve-cons :
    (now : ℤ) (more : List ℤ) (f : CtlFlood)
    → serve (now ∷ more) f ≡ answer (check now f).1 (serve more (check now f).0)
unfolding serve
serve-cons now more f = refl
