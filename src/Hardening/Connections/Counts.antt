-- ===== src/Hardening/Connections/Counts.antt =====
-- The table counts the open connections.
use ewb_server.Base.{
  ℕ, ◌-◌, ◌+◌, ◌≤◌, ◌<◌, ◌≡◌, ◌≢◌, refl, sym, ap, ◌∙◌, inl, inr, List, [], ◌∷◌, false, none, some,
  leb, ◌==◌, if◌then◌else◌, Text, text_eq, text_beq, text_beq_iff, lookup, lookup-replace,
  lookup-erase, arith, Option-cases, Bool-cases,
}
use ewb_server.Hardening.Connections.{
  IpConnCounter, new, count, count_of, acquire_found, try_acquire, release_found, release, Event,
  arrives, ends, held, remove_one, admit, step, run,
}

-- The count of every address is the number of its open connections, at most `max`, and no entry of 0
-- is kept.
pub record IsCounted (t : IpConnCounter) (live : List Text) : Type 0 where
  pub on : 0 < t.max
  pub agrees : (ip : Text) → count ip t ≡ held ip live
  pub bounded : (ip : Text) → held ip live ≤ t.max
  pub no_zero : (ip : Text) → lookup ip t.counts ≢ some 0

pub held-remove_one :
    (i ip : Text) (live : List Text)
    → held ip live ≢ 0
    → held i (remove_one ip live) ≡ (if text_beq ip i then held i live - 1 else held i live)
unfolding held remove_one
held-remove_one i ip [] h = ground arith
held-remove_one i ip (j ∷ js) h =
    ground (arith, held-remove_one i ip js, text_beq_iff j ip, text_beq_iff j i, text_beq_iff ip i)

acquire_none :
    (ip : Text) (t : IpConnCounter) (live : List Text)
    → IsCounted t live
    → lookup ip t.counts ≡ none
    → IsCounted
        (admit ip live (acquire_found none ip t)).0
        (admit ip live (acquire_found none ip t)).1
unfolding acquire_found admit held lookup count
acquire_none ip t live v e =
    let some_room : leb t.max 0 ≡ false = ground (arith, v.on) in
    rw some_room (record {
      on = v.on;
      agrees = λ i. ground (arith, v.agrees i, v.agrees ip, e, text_beq_iff ip i);
      bounded =
          λ i. ground (arith, v.agrees i, v.agrees ip, v.bounded i, v.on, e, text_beq_iff ip i);
      no_zero = λ i. ground (arith, v.no_zero i);
    })

acquire_some :
    (ip : Text) (n : ℕ) (t : IpConnCounter) (live : List Text)
    → IsCounted t live
    → lookup ip t.counts ≡ some n
    → IsCounted
        (admit ip live (acquire_found (some n) ip t)).0
        (admit ip live (acquire_found (some n) ip t)).1
unfolding acquire_found admit held count
acquire_some ip n t live v e = elim (Bool-cases (leb t.max n)) [
  | inl full ↦ (let nonzero : n == 0 ≡ false = ground (arith, full, v.on) in rw (full, nonzero) v)
  | inr room ↦ rw room (record {
    on = v.on;
    agrees = λ i. ground (
      arith,
      lookup-replace ip i (n + 1) n t.counts e,
      v.agrees i,
      v.agrees ip,
      e,
      text_beq_iff ip i,
    );
    bounded = λ i. ground (arith, v.agrees i, v.agrees ip, v.bounded i, room, e, text_beq_iff ip i);
    no_zero = λ i. ground (arith, lookup-replace ip i (n + 1) n t.counts e, v.no_zero i);
  })
]

release_some :
    (ip : Text) (n : ℕ) (t : IpConnCounter) (live : List Text)
    → IsCounted t live
    → lookup ip t.counts ≡ some n
    → held ip live ≢ 0
    → IsCounted (release_found (some n) ip t) (remove_one ip live)
unfolding release_found count
release_some ip n t live v e h = elim (Bool-cases (leb n 1)) [
  | inl last ↦ rw last (record {
    on = v.on;
    agrees = λ i. ground (
      arith,
      lookup-erase ip i t.counts,
      held-remove_one i ip live h,
      v.agrees i,
      v.agrees ip,
      e,
      text_beq_iff ip i,
    );
    bounded = λ i. ground (arith, held-remove_one i ip live h, v.bounded i);
    no_zero = λ i. ground (arith, lookup-erase ip i t.counts, v.no_zero i);
  })
  | inr more ↦ rw more (record {
    on = v.on;
    agrees = λ i. ground (
      arith,
      lookup-replace ip i (n - 1) n t.counts e,
      held-remove_one i ip live h,
      v.agrees i,
      v.agrees ip,
      e,
      text_beq_iff ip i,
    );
    bounded = λ i. ground (arith, held-remove_one i ip live h, v.bounded i);
    no_zero = λ i. ground (arith, more, lookup-replace ip i (n - 1) n t.counts e, v.no_zero i);
  })
]

absent :
    (ip : Text) (t : IpConnCounter) (live : List Text)
    → IsCounted t live
    → lookup ip t.counts ≡ none
    → held ip live ≢ 0
    → ⊥
unfolding count
absent ip t live v e h = h (sym (v.agrees ip) ∙ ap count_of e)

new-IsCounted : (limit : ℕ) → 0 < limit → IsCounted (new limit) []
unfolding new held count lookup
new-IsCounted limit h = record {
  on = h;
  agrees = λ ip. refl;
  bounded = λ ip. omega arith;
  no_zero = λ ip e. cc;
}

step-IsCounted :
    (e : Event) (s : IpConnCounter × List Text)
    → IsCounted s.0 s.1
    → IsCounted (step e s).0 (step e s).1
unfolding step try_acquire release
step-IsCounted (arrives ip) (t, live) v =
    let on : t.max == 0 ≡ false = ground (arith, v.on) in
    elim (Option-cases (lookup ip t.counts)) [
      | inl e ↦ rw (on, e) (acquire_none ip t live v e)
      | inr (n, e) ↦ rw (on, e) (acquire_some ip n t live v e)
    ]
step-IsCounted (ends ip) (t, live) v =
    let on : t.max == 0 ≡ false = ground (arith, v.on) in
    elim (Bool-cases (held ip live == 0)) [
      | inl none_live ↦ rw none_live v
      | inr some_live ↦ elim (Option-cases (lookup ip t.counts)) [
        | inl e ↦ absurd (absent ip t live v e (ground (arith, some_live)))
        | inr (n, e) ↦
            rw (some_live, on, e) (release_some ip n t live v e (ground (arith, some_live)))
      ]
    ]

run-IsCounted_from :
    (es : List Event) (s : IpConnCounter × List Text)
    → IsCounted s.0 s.1
    → IsCounted (run es s).0 (run es s).1
unfolding run
run-IsCounted_from [] s v = v
run-IsCounted_from (e ∷ es) s v = run-IsCounted_from es (step e s) (step-IsCounted e s v)

-- With a limit above 0, after any arrivals and ends of connections the table counts, for every
-- address, exactly its open connections; they are never more than the limit; and an address without
-- open connections has no entry.
pub run-IsCounted :
    (limit : ℕ) (es : List Event)
    → 0 < limit
    → IsCounted (run es (new limit, [])).0 (run es (new limit, [])).1
run-IsCounted limit es h = run-IsCounted_from es (new limit, []) (new-IsCounted limit h)
