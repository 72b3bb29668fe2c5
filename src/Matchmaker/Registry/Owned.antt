-- ===== src/Matchmaker/Registry/Owned.antt =====
-- Whose rows an `add` may touch.
use ewb_server.Base.{
  ℕ, ℤ, ◌≡◌, ◌≢◌, refl, subst, List, [], ◌∷◌, ◌++◌, Bool, true, false, ◌&&◌, not, none, some,
  Option, keep, ◌⊎◌, arith, inl, inr, Bool-cases, text_beq_iff, leb, text_beq, length, ◌==◌,
}
use mathlib.Core.List.{Memᴰ}
use ewb_server.Zones.{is_empty}
use ewb_server.Matchmaker.{Registration, max_registrations}
use ewb_server.Matchmaker.Registry.{
  same, owned, find_if, assign, count_if, stamped, take_over, add_new, add_mine, add_hit, add,
  is_foreign,
}
use ewb_server.Matchmaker.Registry.Apart.{find_if-hit}

mem-append : (e u : Registration) (es : List Registration) → Memᴰ e es → Memᴰ e (es ++ (u ∷ []))
mem-append e u [] m = elim m [ ]
mem-append e u (x ∷ es) (Memᴰ.head h) = Memᴰ.head h
mem-append e u (x ∷ es) (Memᴰ.tail m) = Memᴰ.tail (mem-append e u es m)

pub mem-keep :
    (p : Registration → Bool) (e : Registration) (es : List Registration)
    → p e ≡ true
    → Memᴰ e es
    → Memᴰ e (keep p es)
mem-keep p e [] h m = elim m [ ]
mem-keep p e (x ∷ es) h (Memᴰ.head q) = rw (← q, h) (Memᴰ.head refl)
mem-keep p e (x ∷ es) h (Memᴰ.tail m) = elim (Bool-cases (p x)) [
  | inl y ↦ rw y (Memᴰ.tail (mem-keep p e es h m))
  | inr n ↦ rw n (mem-keep p e es h m)
]

-- Only the first row that passes the test is overwritten.
mem-assign :
    (p : Registration → Bool) (u x e : Registration) (es : List Registration)
    → find_if p es ≡ some x
    → Memᴰ e es
    → (x ≡ e) ⊎ Memᴰ e (assign p u es)
unfolding find_if assign
mem-assign p u x e [] h m = elim m [ ]
mem-assign p u x e (f ∷ es) h (Memᴰ.head q) = elim (Bool-cases (p f)) [
  | inl y ↦ inl (ground (arith, y, h, q))
  | inr n ↦ rw n (inr (Memᴰ.head q))
]
mem-assign p u x e (f ∷ es) h (Memᴰ.tail m) = elim (Bool-cases (p f)) [
  | inl y ↦ rw y (inr (Memᴰ.tail m))
  | inr n ↦ rw n (later (mem-assign p u x e es (ground (arith, n, h)) m))
]
  where
    later : (x ≡ e) ⊎ Memᴰ e (assign p u es) → (x ≡ e) ⊎ Memᴰ e (f ∷ assign p u es)
    later (inl q) = inl q
    later (inr k) = inr (Memᴰ.tail k)

module _ (reg : Registration) (conn : ℕ) (now : ℤ) (max_per_peer : ℕ) (e : Registration)
    (live : e.conn ≢ 0) (other : e.conn ≢ conn) (peer : e.peer ≢ reg.peer) where
  not_owned : owned conn e ≡ false
  not_owned = ground (arith, other)

  new_keeps :
      (es : List Registration) → Memᴰ e es → Memᴰ e (add_new reg conn now max_per_peer es).rows
  unfolding add_new
  new_keeps es m =
      elim (Bool-cases (
        not (max_per_peer == 0)
        && not (is_empty reg.peer)
        && leb max_per_peer (count_if (λ e. text_beq e.peer reg.peer) es))) [
          | inl h ↦ rw h m
          | inr h ↦ rw h (elim (Bool-cases (leb max_registrations (length es))) [
            | inl f ↦ rw f m
            | inr f ↦ rw f (mem-append e (stamped reg conn now reg.players) es m)
          ])
        ]

  mine_keeps :
      (mine : Option Registration) (es : List Registration)
      → find_if (owned conn) es ≡ mine
      → Memᴰ e es
      → Memᴰ e (add_mine mine reg conn now max_per_peer es).rows
  unfolding add_mine
  mine_keeps none es h m = new_keeps es m
  mine_keeps (some x) es h m =
      elim (mem-assign (owned conn) (stamped reg conn now x.players) x e es h m) [
        | inl q ↦ absurd (
            let y = find_if-hit (owned conn) es x h in
            let z : owned conn e ≡ true = subst (λ r. owned conn r ≡ true) q y in
            ground (arith, z, not_owned))
        | inr k ↦ k
      ]

  hit_keeps :
      (hit : Option Registration) (es : List Registration)
      → find_if (same reg) es ≡ hit
      → Memᴰ e es
      → Memᴰ e (add_hit hit reg conn now max_per_peer es).rows
  unfolding add_hit
  hit_keeps none es h m = mine_keeps (find_if (owned conn) es) es refl m
  hit_keeps (some x) es h m = elim (Bool-cases (is_foreign x conn reg.peer)) [
    | inl y ↦ rw y m
    | inr n ↦ rw n (elim (mem-assign (same reg) (stamped reg conn now x.players) x e es h m) [
      | inl q ↦ absurd (
          let z : is_foreign e conn reg.peer ≡ false =
            subst (λ r. is_foreign r conn reg.peer ≡ false) q n in
          ground (arith, z, text_beq_iff e.peer reg.peer, live, other, peer))
      | inr k ↦
          unfold take_over in
          mem-keep (λ f. not (owned conn f && not (same reg f))) e
            (assign (same reg) (stamped reg conn now x.players) es) (rw not_owned refl) k
    ])
  ]

  -- A registration, whatever address it claims, leaves the row of a connected server alone, unless
  -- it comes over the server's own connection or from its own TCP peer.
  pub add_keeps :
      (es : List Registration) → Memᴰ e es → Memᴰ e (add reg conn now max_per_peer es).rows
  unfolding add
  add_keeps es m = hit_keeps (find_if (same reg) es) es refl m
