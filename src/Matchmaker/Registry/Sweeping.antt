-- ===== src/Matchmaker/Registry/Sweeping.antt =====
-- `sweep`, and the calls that change single rows.
use ewb_server.Base.{
  ℕ, suc, ℤ, ◌≡◌, refl, ap, List, [], ◌∷◌, Bool, All, keep, length, length-keep-le, arith, ◌⊎◌, inl,
  inr, Bool-cases, text_beq_iff, Text, ◌==◌,
}
use ewb_server.Matchmaker.{Registration}
use ewb_server.Matchmaker.Registry.{
  same, refresh_one, refresh, answers, settle, remove, touch, set_players, orphan,
}
use ewb_server.Matchmaker.Registry.Apart.{IsApart, AllApart, AllApart-keep}
use ewb_server.Matchmaker.Registry.Adding.{IsRegistry}

-- The rows with the same addresses and owners as before, in order.
abbrev pub IsUpdate : List Registration → List Registration → Type 0
IsUpdate [] [] = Unit {0}
IsUpdate [] (f ∷ fs) = ⊥
IsUpdate (e ∷ es) [] = ⊥
IsUpdate (e ∷ es) (f ∷ fs) =
    ((f.name ≡ e.name) × (f.ip ≡ e.ip) × (f.port ≡ e.port) × ((f.conn ≡ e.conn) ⊎ (f.conn ≡ 0)))
    × IsUpdate es fs

update-IsApart :
    (r s : Registration) (es fs : List Registration)
    → (s.name ≡ r.name) × (s.ip ≡ r.ip) × (s.port ≡ r.port) × ((s.conn ≡ r.conn) ⊎ (s.conn ≡ 0))
    → IsUpdate es fs
    → All (IsApart r) es
    → All (IsApart s) fs
update-IsApart r s [] [] k u h = tt
update-IsApart r s [] (f ∷ fs) k u h = absurd u
update-IsApart r s (e ∷ es) [] k u h = absurd u
update-IsApart r s (e ∷ es) (f ∷ fs) k u h =
    let (name, ip, port, conn) = u.0 in
    let (sname, sip, sport, sconn) = k in
    (
      record {
        key = ground (
          arith,
          (h.0).key,
          text_beq_iff f.ip s.ip,
          text_beq_iff e.ip r.ip,
          ip,
          port,
          sip,
          sport,
        );
        owner = ground (arith, (h.0).owner, conn, sconn);
      },
      update-IsApart r s es fs k u.1 h.1,
    )

pub IsUpdate-IsRegistry :
    (es fs : List Registration) → IsUpdate es fs → IsRegistry es → IsRegistry fs
IsUpdate-IsRegistry es fs u v = record {
  apart = apart es fs u v.apart;
  few = omega (arith, size es fs u, v.few);
}
  where
    apart : (es fs : List Registration) → IsUpdate es fs → AllApart es → AllApart fs
    apart [] [] u h = tt
    apart [] (f ∷ fs) u h = absurd u
    apart (e ∷ es) [] u h = absurd u
    apart (e ∷ es) (f ∷ fs) u h = (update-IsApart e f es fs u.0 u.1 h.0, apart es fs u.1 h.1)

    size : (es fs : List Registration) → IsUpdate es fs → length fs ≡ length es
    size [] [] u = refl
    size [] (f ∷ fs) u = absurd u
    size (e ∷ es) [] u = absurd u
    size (e ∷ es) (f ∷ fs) u = ap suc (size es fs u.1)

-- What a row's name and address decide carries over.
pub All-update :
    (P : Registration → Type 0)
    → ((e f : Registration) → f.name ≡ e.name → f.ip ≡ e.ip → f.port ≡ e.port → P e → P f)
    → (es fs : List Registration) → IsUpdate es fs
    → All P es
    → All P fs
All-update P k [] [] u h = tt
All-update P k [] (f ∷ fs) u h = absurd u
All-update P k (e ∷ es) [] u h = absurd u
All-update P k (e ∷ es) (f ∷ fs) u h =
    let (name, ip, port, conn) = u.0 in (k e f name ip port h.0, All-update P k es fs u.1 h.1)

IsUpdate-refl : (es : List Registration) → IsUpdate es es
IsUpdate-refl [] = tt
IsUpdate-refl (e ∷ es) = ((refl, refl, refl, inl refl), IsUpdate-refl es)

pub touch-IsUpdate : (conn : ℕ) (now : ℤ) (es : List Registration) → IsUpdate es (touch conn now es)
unfolding touch
touch-IsUpdate conn now [] = tt
touch-IsUpdate conn now (e ∷ es) = elim (Bool-cases (e.conn == conn)) [
  | inl y ↦ rw y ((refl, refl, refl, inl refl), touch-IsUpdate conn now es)
  | inr n ↦ rw n ((refl, refl, refl, inl refl), touch-IsUpdate conn now es)
]

pub set_players-IsUpdate :
    (conn : ℕ) (players : ℤ) (es : List Registration) → IsUpdate es (set_players conn players es)
unfolding set_players
set_players-IsUpdate conn players [] = tt
set_players-IsUpdate conn players (e ∷ es) = elim (Bool-cases (e.conn == conn)) [
  | inl y ↦ rw y ((refl, refl, refl, inl refl), IsUpdate-refl es)
  | inr n ↦ rw n ((refl, refl, refl, inl refl), set_players-IsUpdate conn players es)
]

pub orphan-IsUpdate : (conn : ℕ) (es : List Registration) → IsUpdate es (orphan conn es).0
unfolding orphan
orphan-IsUpdate conn [] = tt
orphan-IsUpdate conn (e ∷ es) = elim (Bool-cases (e.conn == conn)) [
  | inl y ↦ rw y ((refl, refl, refl, inr refl), IsUpdate-refl es)
  | inr n ↦ rw n ((refl, refl, refl, inl refl), orphan-IsUpdate conn es)
]

pub refresh_one-IsUpdate :
    (now : ℤ) (k : Registration) (es : List Registration) → IsUpdate es (refresh_one now k es)
unfolding refresh_one
refresh_one-IsUpdate now k [] = tt
refresh_one-IsUpdate now k (e ∷ es) = elim (Bool-cases (same k e)) [
  | inl y ↦ rw y ((refl, refl, refl, inl refl), IsUpdate-refl es)
  | inr n ↦ rw n ((refl, refl, refl, inl refl), refresh_one-IsUpdate now k es)
]

pub refresh-IsRegistry :
    (now : ℤ) (ks es : List Registration) → IsRegistry es → IsRegistry (refresh now ks es)
unfolding refresh
refresh-IsRegistry now [] es v = v
refresh-IsRegistry now (k ∷ ks) es v =
    refresh-IsRegistry now ks (refresh_one now k es)
      (IsUpdate-IsRegistry es (refresh_one now k es) (refresh_one-IsUpdate now k es) v)

pub All-refresh :
    (now : ℤ) (ks es : List Registration)
    → (P : Registration → Type 0)
    → ((e f : Registration) → f.name ≡ e.name → f.ip ≡ e.ip → f.port ≡ e.port → P e → P f)
    → All P es
    → All P (refresh now ks es)
unfolding refresh
All-refresh now [] es P k h = h
All-refresh now (j ∷ ks) es P k h =
    All-refresh now ks (refresh_one now j es) P k
      (All-update P k es (refresh_one now j es) (refresh_one-IsUpdate now j es) h)

pub keep-IsRegistry :
    (p : Registration → Bool) (es : List Registration) → IsRegistry es → IsRegistry (keep p es)
keep-IsRegistry p es v = record {
  apart = AllApart-keep p es v.apart;
  few = omega (arith, length-keep-le p es, v.few);
}

-- Every other call that changes rows keeps the registry in order too, at any times and with any
-- answers of the probes: the second part of a sweep (`settle`) even after other calls came between.
pub calls-IsRegistry :
    (conn : ℕ) (now players : ℤ) (alive : Text → ℤ → Bool) (stale es : List Registration)
    → IsRegistry es
    → IsRegistry (touch conn now es)
      × IsRegistry (set_players conn players es)
      × IsRegistry (remove conn es)
      × IsRegistry (orphan conn es).0
      × IsRegistry (settle now alive stale es).0
unfolding remove settle
calls-IsRegistry conn now players alive stale es v = (
  IsUpdate-IsRegistry es (touch conn now es) (touch-IsUpdate conn now es) v,
  IsUpdate-IsRegistry es (set_players conn players es) (set_players-IsUpdate conn players es) v,
  keep-IsRegistry _ es v,
  IsUpdate-IsRegistry es (orphan conn es).0 (orphan-IsUpdate conn es) v,
  keep-IsRegistry _ (refresh now (keep (answers alive) stale) es)
      (refresh-IsRegistry now (keep (answers alive) stale) es v),
)
