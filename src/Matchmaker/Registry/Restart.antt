-- ===== src/Matchmaker/Registry/Restart.antt =====
-- A matchmaker that starts again: `load_stale`, and the first sweep.
use ewb_server.Base.{
  ℕ, zero, suc, ◌-◌, ◌≤◌, ℤ, pos, ◌-ℤ◌, -ℤ_parts, ◌≤ℤ◌, ◌≡◌, refl, sym, ◌∙◌, ap, List, [], ◌∷◌,
  ◌++◌, append-nil, append_assoc, map, Bool, true, keep, length, length-append, take, leb, arith,
  inl, inr, Bool-cases, Text,
}
use ewb_server.Matchmaker.{Registration, max_registrations, heartbeat_ttl_sec}
use ewb_server.Matchmaker.Registry.{is_stale, answers, sweep, load_stale}
use ewb_server.Matchmaker.Registry.Apart.{AllApart}
use ewb_server.Matchmaker.Registry.Adding.{IsRegistry}
use ewb_server.Matchmaker.Registry.Probing.{seen, swept, sweep-swept}

-- The row of a server that is not connected, last heard of too long ago.
abbrev pub reloaded : ℤ → Registration → Registration
reloaded t r = record r { conn = 0; last_seen = t -ℤ pos heartbeat_ttl_sec -ℤ pos 1 }

load_stale-append :
    (rs : List Registration) (t : ℤ) (es : List Registration)
    → length es ≤ max_registrations
    → load_stale rs t es ≡ es ++ map (reloaded t) (take (max_registrations - length es) rs)
unfolding load_stale
load_stale-append [] t es h = sym (none_left (max_registrations - length es))
  where
    none_left : (n : ℕ) → es ++ map (reloaded t) (take n []) ≡ es
    none_left zero = append-nil es
    none_left (suc n) = append-nil es
load_stale-append (r ∷ rs) t es h = elim (Bool-cases (leb max_registrations (length es))) [
  | inl y ↦
      rw y (
        let z : max_registrations - length es ≡ 0 = ground (arith, y) in rw z (sym (append-nil es)))
  | inr n ↦ rw n (
      let z : max_registrations - length es
          ≡ suc (max_registrations - length (es ++ (reloaded t r ∷ []))) =
        ground (arith, n, length-append es (reloaded t r ∷ [])) in
      load_stale-append rs t (es ++ (reloaded t r ∷ []))
        (ground (arith, n, length-append es (reloaded t r ∷ [])))
      ∙ rw z (
          append_assoc es (reloaded t r ∷ [])
            (map (reloaded t) (take (max_registrations - length (es ++ (reloaded t r ∷ []))) rs))))
]

length-take_le : (n : ℕ) (rs : List Registration) → length (take n rs) ≤ n
length-take_le zero rs = omega arith
length-take_le (suc n) [] = omega arith
length-take_le (suc n) (r ∷ rs) = omega (arith, length-take_le n rs)

length-map-reloaded : (t : ℤ) (rs : List Registration) → length (map (reloaded t) rs) ≡ length rs
length-map-reloaded t [] = refl
length-map-reloaded t (r ∷ rs) = ap suc (length-map-reloaded t rs)

stale_reloaded : (t now : ℤ) (r : Registration) → t ≤ℤ now → is_stale now (reloaded t r) ≡ true
stale_reloaded t now r h =
    let a = -ℤ_parts t (pos 45) in
    let b = -ℤ_parts (t -ℤ pos 45) (pos 1) in
    let c = -ℤ_parts now (t -ℤ pos 45 -ℤ pos 1) in ground (arith, a, b, c, h)

swept-reloaded :
    (t now : ℤ) (alive : Text → ℤ → Bool) (rs : List Registration)
    → t ≤ℤ now
    → swept now alive (map (reloaded t) rs)
      ≡ map (seen now) (keep (answers alive) (map (reloaded t) rs))
swept-reloaded t now alive [] h = refl
swept-reloaded t now alive (r ∷ rs) h =
    rw (stale_reloaded t now r h) (elim (Bool-cases (alive r.ip r.port)) [
      | inl y ↦
          rw y
            (ap (λ s. record r { conn = 0; last_seen = now } ∷ s) (swept-reloaded t now alive rs h))
      | inr n ↦ rw n (swept-reloaded t now alive rs h)
    ])

-- After a restart at time `t` with a file of rows of distinct addresses, the first sweep lists
-- exactly the rows, of the first 512, whose server answers; none is connected.
pub sweep-load_stale :
    (rs : List Registration) (t now : ℤ) (alive : Text → ℤ → Bool)
    → t ≤ℤ now
    → AllApart (map (reloaded t) (take max_registrations rs))
    → (sweep now alive (load_stale rs t [])).0
      ≡ map (seen now) (keep (answers alive) (map (reloaded t) (take max_registrations rs)))
sweep-load_stale rs t now alive h a =
    let loaded = map (reloaded t) (take max_registrations rs) in
    let v : IsRegistry loaded = record {
      apart = a;
      few = omega (
        arith,
        length-map-reloaded t (take max_registrations rs),
        length-take_le max_registrations rs,
      );
    } in
    rw (load_stale-append rs t [] (omega arith), sweep-swept now alive loaded v)
      (swept-reloaded t now alive (take max_registrations rs) h)
