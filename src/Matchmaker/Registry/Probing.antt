-- ===== src/Matchmaker/Registry/Probing.antt =====
-- What a sweep comes to when no other call falls between its two parts, and after a restart.
use ewb_server.Base.{
  ℕ, ℤ, ◌≡◌, refl, sym, ◌∙◌, ap, ap₂, List, [], ◌∷◌, map, Bool, true, false, ◌&&◌, ◌||◌, not, All,
  keep, arith, inl, inr, Bool-cases, text_beq_iff, Text, if◌then◌else◌,
}
use mathlib.Core.List.{Memᴰ}
use ewb_server.Matchmaker.{Registration}
use ewb_server.Matchmaker.Registry.{
  same, is_stale, stale_rows, refresh_one, refresh, has_key, answers, settle, sweep,
}
use ewb_server.Matchmaker.Registry.Apart.{IsApart, AllApart, same_comm}
use ewb_server.Matchmaker.Registry.Adding.{IsRegistry}
use ewb_server.Matchmaker.Registry.Sweeping.{IsUpdate-IsRegistry, refresh_one-IsUpdate}

abbrev pub seen : ℤ → Registration → Registration
seen now e = record e { last_seen = now }

same_self : (e : Registration) → same e e ≡ true
same_self e = ground (arith, text_beq_iff e.ip e.ip)

-- One row.
abbrev pub is_dropped : ℤ → (Text → ℤ → Bool) → Registration → Bool
is_dropped now alive e = is_stale now e && not (answers alive e)

abbrev pub is_refreshed : ℤ → (Text → ℤ → Bool) → Registration → Bool
is_refreshed now alive e = is_stale now e && answers alive e

-- A row that was heard of stays as it is, a silent one stays with a new time if its server answers,
-- and goes if it does not.
abbrev pub swept : ℤ → (Text → ℤ → Bool) → List Registration → List Registration
swept now alive [] = []
swept now alive (e ∷ es) =
    if is_dropped now alive e
    then swept now alive es
    else (if is_refreshed now alive e then seen now e else e) ∷ swept now alive es

abbrev mark : ℤ → List Registration → Registration → Registration
mark now ks e = if has_key ks e then seen now e else e

refresh_one-map :
    (now : ℤ) (k : Registration) (es : List Registration)
    → AllApart es
    → refresh_one now k es ≡ map (λ e. if same k e then seen now e else e) es
unfolding refresh_one
refresh_one-map now k [] h = refl
refresh_one-map now k (e ∷ es) h = elim (Bool-cases (same k e)) [
  | inl y ↦ rw y (ap (λ t. seen now e ∷ t) (sym (others es h.0 y)))
  | inr n ↦ rw n (ap (λ t. e ∷ t) (refresh_one-map now k es h.1))
]
  where
    others :
        (fs : List Registration)
        → All (IsApart e) fs
        → same k e ≡ true
        → map (λ f. if same k f then seen now f else f) fs ≡ fs
    others [] a y = refl
    others (f ∷ fs) a y =
        let n : same k f ≡ false = ground (
          arith,
          (a.0).key,
          y,
          text_beq_iff f.ip k.ip,
          text_beq_iff e.ip k.ip,
          text_beq_iff f.ip e.ip,
        ) in
        rw n (ap (λ t. f ∷ t) (others fs a.1 y))

has_key-seen :
    (now : ℤ) (ks : List Registration) (e : Registration) → has_key ks (seen now e) ≡ has_key ks e
unfolding has_key
has_key-seen now [] e = refl
has_key-seen now (k ∷ ks) e = ap (λ b. same k e || b) (has_key-seen now ks e)

mark_twice :
    (now : ℤ) (k : Registration) (ks : List Registration) (e : Registration)
    → mark now ks (if same k e then seen now e else e) ≡ mark now (k ∷ ks) e
unfolding has_key
mark_twice now k ks e = elim (Bool-cases (same k e)) [
  | inl y ↦ rw (y, has_key-seen now ks e) (ground arith)
  | inr n ↦ rw n refl
]

mark_none : (now : ℤ) (fs : List Registration) → fs ≡ map (mark now []) fs
unfolding has_key
mark_none now [] = refl
mark_none now (f ∷ fs) = ap (λ t. f ∷ t) (mark_none now fs)

refresh-map :
    (now : ℤ) (ks es : List Registration) → IsRegistry es → refresh now ks es ≡ map (mark now ks) es
unfolding refresh
refresh-map now [] es v = mark_none now es
refresh-map now (k ∷ ks) es v =
    refresh-map now ks (refresh_one now k es)
      (IsUpdate-IsRegistry es (refresh_one now k es) (refresh_one-IsUpdate now k es) v)
    ∙ (ap (map (mark now ks)) (refresh_one-map now k es v.apart) ∙ twice es)
  where
    twice :
        (fs : List Registration)
        → map (mark now ks) (map (λ e. if same k e then seen now e else e) fs)
          ≡ map (mark now (k ∷ ks)) fs
    twice [] = refl
    twice (f ∷ fs) = ap₂ (λ g t. g ∷ t) (mark_twice now k ks f) (twice fs)

keep-keep :
    (p q : Registration → Bool) (es : List Registration)
    → keep p (keep q es) ≡ keep (λ e. q e && p e) es
keep-keep p q [] = refl
keep-keep p q (e ∷ es) = ground (arith, keep-keep p q es)

no_key :
    (q : Registration → Bool) (x : Registration) (es : List Registration)
    → All (IsApart x) es
    → has_key (keep q es) x ≡ false
unfolding has_key
no_key q x [] h = refl
no_key q x (e ∷ es) h = ground (arith, no_key q x es h.1, same_comm x e (h.0).key)

apart_at :
    (x e : Registration) (es : List Registration)
    → All (IsApart x) es
    → Memᴰ e es
    → same x e ≡ false
apart_at x e [] h m = elim m [ ]
apart_at x e (f ∷ es) h (Memᴰ.head q) = rw q ((h.0).key)
apart_at x e (f ∷ es) h (Memᴰ.tail m) = apart_at x e es h.1 m

-- Among rows of distinct addresses a row stands in for its address.
has_key-keep :
    (q : Registration → Bool) (e : Registration) (es : List Registration)
    → AllApart es
    → Memᴰ e es
    → has_key (keep q es) e ≡ q e
unfolding has_key
has_key-keep q e [] h m = elim m [ ]
has_key-keep q e (x ∷ es) h (Memᴰ.head r) = rw r (ground (arith, no_key q x es h.0, same_self x))
has_key-keep q e (x ∷ es) h (Memᴰ.tail m) =
    ground (arith, has_key-keep q e es h.1 m, apart_at x e es h.0 m)

-- What the two scans of the second part say of each row.
abbrev Judged : ℤ → (Text → ℤ → Bool) → List Registration → Registration → Type 0
Judged now alive es e =
    (has_key (keep (answers alive) (stale_rows now es)) e ≡ is_refreshed now alive e)
    × (has_key (keep (λ k. not (answers alive k)) (stale_rows now es)) e ≡ is_dropped now alive e)

judged :
    (now : ℤ) (alive : Text → ℤ → Bool) (es : List Registration) (e : Registration)
    → AllApart es
    → Memᴰ e es
    → Judged now alive es e
unfolding stale_rows
judged now alive es e h m = (
  rw (keep-keep (answers alive) (is_stale now) es) (has_key-keep (is_refreshed now alive) e es h m),
  rw (keep-keep (λ k. not (answers alive k)) (is_stale now) es)
      (has_key-keep (is_dropped now alive) e es h m),
)

All-of_mem :
    (P : Registration → Type 0) (es : List Registration)
    → ((e : Registration) → Memᴰ e es → P e)
    → All P es
All-of_mem P [] k = tt
All-of_mem P (e ∷ es) k = (k e (Memᴰ.head refl), All-of_mem P es (λ f m. k f (Memᴰ.tail m)))

module _ (now : ℤ) (alive : Text → ℤ → Bool) (es : List Registration) where
  abbrev marked : Registration → Registration
  marked = mark now (keep (answers alive) (stale_rows now es))

  abbrev drops : Registration → Bool
  drops = has_key (keep (λ k. not (answers alive k)) (stale_rows now es))

  drops-marked : (e : Registration) → drops (marked e) ≡ drops e
  drops-marked e = elim (Bool-cases (has_key (keep (answers alive) (stale_rows now es)) e)) [
    | inl y ↦ rw y (has_key-seen now (keep (λ k. not (answers alive k)) (stale_rows now es)) e)
    | inr n ↦ rw n refl
  ]

  kept-swept :
      (fs : List Registration)
      → All (Judged now alive es) fs
      → keep (λ e. not (drops e)) (map marked fs) ≡ swept now alive fs
  kept-swept [] h = refl
  kept-swept (f ∷ fs) h =
      rw (drops-marked f, (h.0).0, (h.0).1, kept-swept fs h.1)
        (elim (Bool-cases (is_dropped now alive f)) [ inl y ↦ rw y refl | inr n ↦ rw n refl ])

  conns-swept :
      (fs : List Registration)
      → All (Judged now alive es) fs
      → map (λ e. e.conn) (keep drops (map marked fs))
        ≡ map (λ e. e.conn) (keep (is_dropped now alive) fs)
  conns-swept [] h = refl
  conns-swept (f ∷ fs) h =
      rw (drops-marked f, (h.0).0, (h.0).1)
        (elim (Bool-cases (is_dropped now alive f)) [
          | inl y ↦ rw y (ap₂ (λ (c : ℕ) t. c ∷ t) (same_conn f) (conns-swept fs h.1))
          | inr n ↦ rw n (conns-swept fs h.1)
        ])
    where
      same_conn :
          (e : Registration) → (if is_refreshed now alive e then seen now e else e).conn ≡ e.conn
      same_conn e = elim (Bool-cases (is_refreshed now alive e)) [
        | inl y ↦ rw y refl
        | inr n ↦ rw n refl
      ]

  -- With no other call between its two parts, a sweep keeps each row that was heard of in the last
  -- 45 seconds as it is, keeps each other row whose server answers, with the time of the sweep,
  -- drops the rest, and hands out the connections of the rows that it drops.
  pub sweep-swept :
      IsRegistry es
      → sweep now alive es
        ≡ (swept now alive es, map (λ e. e.conn) (keep (is_dropped now alive) es))
  unfolding sweep settle
  sweep-swept v =
      let h = All-of_mem (Judged now alive es) es (λ e. judged now alive es e v.apart) in
      rw (refresh-map now (keep (answers alive) (stale_rows now es)) es v)
        (ap₂ (λ (a : List Registration) (b : List ℕ). (a, b)) (kept-swept es h) (conns-swept es h))
