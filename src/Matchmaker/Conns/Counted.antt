-- ===== src/Matchmaker/Conns/Counted.antt =====
-- The counts of `ConnCaps` agree with the connections that are open.
use ewb_server.Base.{
  suc, ◌-◌, ◌+◌, ◌≤◌, ◌<◌, ◌≡◌, ◌≢◌, refl, sym, ◌∙◌, ap, List, [], ◌∷◌, Bool, true, false, leb,
  if◌then◌else◌, Text, text_eq, text_beq_iff, lookup, lookup-replace, lookup-erase, length, arith,
  inl, inr, Bool-cases, Option-cases,
}
use ewb_server.Hardening.Connections.{Event, arrives, ends, held, remove_one}
use ewb_server.Hardening.Connections.Counts.{held-remove_one}
use ewb_server.Matchmaker.{max_conns_global, max_conns_per_ip}
use ewb_server.Matchmaker.Conns.{
  ConnCaps, init, value_of, for_ip, acquire_at, try_acquire, release_at, release,
}

pub record IsCounted (t : ConnCaps) (live : List Text) : Type 0 where
  pub agrees : (ip : Text) → for_ip ip t ≡ held ip live
  pub total : t.total ≡ length live
  pub few : length live ≤ max_conns_global
  pub few_of : (ip : Text) → held ip live ≤ max_conns_per_ip

abbrev admit : Text → List Text → ConnCaps × Bool → ConnCaps × List Text
admit ip live (t, true) = (t, ip ∷ live)
admit ip live (t, false) = (t, live)

-- A connection is accepted if it gets its slots, and gives them back when its thread ends
-- (edenmatch.cpp, `ConnCapGuard`).
pub step : Event → ConnCaps × List Text → ConnCaps × List Text
step (arrives ip) (t, live) = admit ip live (try_acquire ip t)
step (ends ip) (t, live) =
    if leb (held ip live) 0 then (t, live) else (release ip t, remove_one ip live)

pub run : List Event → ConnCaps × List Text → ConnCaps × List Text
unfolding step
run [] s = s
run (e ∷ es) s = run es (step e s)

length-remove_one :
    (ip : Text) (live : List Text)
    → held ip live ≢ 0
    → suc (length (remove_one ip live)) ≡ length live
unfolding held remove_one
length-remove_one ip [] h = absurd (h refl)
length-remove_one ip (j ∷ js) h = ground (arith, length-remove_one ip js)

module _ (ip : Text) (t : ConnCaps) (live : List Text) (v : IsCounted t live) where
  acquire-IsCounted :
      t.total < max_conns_global
      → IsCounted
          (admit ip live (acquire_at (lookup ip t.per_ip) ip t)).0
          (admit ip live (acquire_at (lookup ip t.per_ip) ip t)).1
  unfolding acquire_at held for_ip lookup
  acquire-IsCounted room = elim (Option-cases (lookup ip t.per_ip)) [
    | inl e ↦ rw e (record {
      agrees = λ i. ground (arith, v.agrees i, v.agrees ip, e, text_beq_iff ip i);
      total = omega (arith, v.total);
      few = omega (arith, v.total, room);
      few_of = λ i. ground (arith, v.agrees i, v.agrees ip, v.few_of i, e, text_beq_iff ip i);
    })
    | inr (n, e) ↦ rw e (elim (Bool-cases (leb max_conns_per_ip n)) [
      | inl full ↦ rw full v
      | inr more ↦ rw more (record {
        agrees = λ i. ground (
          arith,
          lookup-replace ip i (n + 1) n t.per_ip e,
          v.agrees i,
          v.agrees ip,
          e,
          text_beq_iff ip i,
        );
        total = omega (arith, v.total);
        few = omega (arith, v.total, room);
        few_of =
            λ i. ground (arith, v.agrees i, v.agrees ip, v.few_of i, more, e, text_beq_iff ip i);
      })
    ])
  ]

  release-IsCounted : held ip live ≢ 0 → IsCounted (release ip t) (remove_one ip live)
  unfolding release release_at for_ip
  release-IsCounted h =
      let l = length-remove_one ip live h in
      elim (Option-cases (lookup ip t.per_ip)) [
        | inl e ↦ absurd (h (sym (v.agrees ip) ∙ ap value_of e))
        | inr (n, e) ↦ rw e (record {
          agrees = λ i. ground (
            arith,
            lookup-erase ip i t.per_ip,
            lookup-replace ip i (n - 1) n t.per_ip e,
            held-remove_one i ip live h,
            v.agrees i,
            v.agrees ip,
            e,
            text_beq_iff ip i,
          );
          total = ground (arith, v.total, l);
          few = omega (arith, v.few, l);
          few_of = λ i. ground (arith, held-remove_one i ip live h, v.few_of i);
        })
      ]

step-IsCounted :
    (e : Event) (s : ConnCaps × List Text) → IsCounted s.0 s.1 → IsCounted (step e s).0 (step e s).1
unfolding step try_acquire
step-IsCounted (arrives ip) (t, live) v = elim (Bool-cases (leb max_conns_global t.total)) [
  | inl full ↦ rw full v
  | inr room ↦ rw room (acquire-IsCounted ip t live v (ground (arith, room)))
]
step-IsCounted (ends ip) (t, live) v = elim (Bool-cases (leb (held ip live) 0)) [
  | inl gone ↦ rw gone v
  | inr there ↦ rw there (release-IsCounted ip t live v (ground (arith, there)))
]

run-IsCounted_from :
    (es : List Event) (s : ConnCaps × List Text)
    → IsCounted s.0 s.1
    → IsCounted (run es s).0 (run es s).1
unfolding run
run-IsCounted_from [] s v = v
run-IsCounted_from (e ∷ es) s v = run-IsCounted_from es (step e s) (step-IsCounted e s v)

-- After any arrivals and ends of connections the matchmaker's counts agree with the connections
-- that are open, in all and for each address, and these are never more than 256 and 24.
pub caps-IsCounted : (es : List Event) → IsCounted (run es (init, [])).0 (run es (init, [])).1
unfolding held for_ip lookup
caps-IsCounted es =
    run-IsCounted_from es (init, [])
      (record { agrees = λ ip. refl; total = refl; few = omega arith; few_of = λ ip. omega arith })
