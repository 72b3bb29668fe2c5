-- ===== src/Matchmaker/Registry/Adding.antt =====
-- `add`, and the other calls that change rows, keep a registry in order.
use ewb_server.Base.{
  ℕ, ◌≤◌, ℤ, ◌≡◌, ◌≢◌, refl, sym, List, [], ◌∷◌, ◌++◌, Bool, true, false, ◌&&◌, not, none, some,
  Option, All, keep, length, length-append, length-keep-le, arith, inl, inr, Bool-cases,
  text_beq_iff, leb, text_beq, ◌==◌,
}
use ewb_server.Zones.{is_empty}
use ewb_server.Matchmaker.{Registration, max_registrations}
use ewb_server.Matchmaker.Registry.{
  same, owned, find_if, assign, count_if, stamped, take_over, add_new, add_mine, add_hit, add,
  is_foreign,
}
use ewb_server.Matchmaker.Registry.Apart.{
  IsApart, AllApart, same_trans, IsApart-comm, All-assign, All-keep_apart, AllApart-keep,
  AllApart-append_one, find_if-none, find_if-hit,
}

pub record IsRegistry (es : List Registration) : Type 0 where
  pub apart : AllApart es
  pub few : length es ≤ max_registrations

length-assign :
    (p : Registration → Bool) (u : Registration) (es : List Registration)
    → length (assign p u es) ≡ length es
unfolding assign
length-assign p u [] = refl
length-assign p u (e ∷ es) = ground (arith, length-assign p u es)

module _ (reg : Registration) (conn : ℕ) (u : Registration) (key : same reg u ≡ true)
    (owner : u.conn ≡ conn) where
  -- A row that is not of this key and stays is apart from the new one.
  kept-IsApart : (e : Registration) → same reg e ≡ false → owned conn e ≡ false → IsApart e u
  kept-IsApart e n o = record {
    key =
        ground (
          arith,
          text_beq_iff e.ip reg.ip,
          text_beq_iff u.ip reg.ip,
          text_beq_iff u.ip e.ip,
          n,
          key,
        );
    owner = ground (arith, o, owner);
  }

  All-take_over :
      (P : Registration → Type 0) (es : List Registration)
      → P u
      → All P es
      → All P (take_over reg conn u es)
  unfolding take_over
  All-take_over P es pu h =
      All-keep_apart P _ (assign (same reg) u es) (All-assign P (same reg) u es pu h)

  -- The rows behind the one that the key stands in.
  behind :
      (r : Registration) (es : List Registration)
      → same reg r ≡ true
      → All (IsApart r) es
      → All (IsApart u) (keep (λ e. not (owned conn e && not (same reg e))) es)
  behind r [] h k = tt
  behind r (e ∷ es) h k =
      let n = same_trans reg r e h (k.0).key in
      elim (Bool-cases (owned conn e)) [
        | inl y ↦ rw (y, n) (behind r es h k.1)
        | inr o ↦ rw o (IsApart-comm e u (kept-IsApart e n o), behind r es h k.1)
      ]

  take_over-AllApart : (es : List Registration) → AllApart es → AllApart (take_over reg conn u es)
  unfolding take_over assign
  take_over-AllApart [] h = tt
  take_over-AllApart (r ∷ es) h = elim (Bool-cases (same reg r)) [
    | inl y ↦
        rw (y, key)
          (ground (
            arith,
            behind r es y h.0,
            AllApart-keep (λ e. not (owned conn e && not (same reg e))) es h.1,
          ))
    | inr n ↦ elim (Bool-cases (owned conn r)) [
      | inl o ↦ rw n (rw (n, o) (take_over-AllApart es h.1))
      | inr o ↦ rw n (
          rw (n, o)
            (
              unfold take_over in All-take_over (IsApart r) es (kept-IsApart r n o) h.0,
              take_over-AllApart es h.1,
            ))
    ]
  ]

  -- The connection's own row takes the new address.
  move-AllApart :
      (es : List Registration)
      → conn ≢ 0
      → All (λ e. same reg e ≡ false) es
      → AllApart es
      → AllApart (assign (owned conn) u es)
  unfolding assign
  move-AllApart [] z h a = tt
  move-AllApart (r ∷ es) z h a = elim (Bool-cases (owned conn r)) [
    | inl y ↦ rw y (moved es h.1 a.0 y, a.1)
    | inr n ↦ rw n (
      All-assign (IsApart r) (owned conn) u es (kept-IsApart r h.0 n) a.0,
      move-AllApart es z h.1 a.1,
    )
  ]
    where
      moved :
          (fs : List Registration)
          → All (λ e. same reg e ≡ false) fs
          → All (IsApart r) fs
          → owned conn r ≡ true
          → All (IsApart u) fs
      moved [] k b y = tt
      moved (f ∷ fs) k b y = (
        IsApart-comm f u (kept-IsApart f k.0 (ground (arith, (b.0).owner, y))),
        moved fs k.1 b.1 y,
      )

same_refl :
    (reg : Registration) (conn : ℕ) (now players : ℤ)
    → same reg (stamped reg conn now players) ≡ true
same_refl reg conn now players = ground (arith, text_beq_iff reg.ip reg.ip)

All-pair :
    (P Q R : Registration → Type 0) (es : List Registration)
    → ((e : Registration) → P e → Q e → R e)
    → All P es
    → All Q es
    → All R es
All-pair P Q R [] k h j = tt
All-pair P Q R (e ∷ es) k h j = (k e h.0 j.0, All-pair P Q R es k h.1 j.1)

add_new-IsRegistry :
    (reg : Registration) (conn : ℕ) (now : ℤ) (cap : ℕ) (es : List Registration)
    → IsRegistry es
    → All (λ e. same reg e ≡ false) es
    → All (λ e. owned conn e ≡ false) es
    → IsRegistry (add_new reg conn now cap es).rows
unfolding add_new
add_new-IsRegistry reg conn now cap es v n o =
    let u = stamped reg conn now reg.players in
    let longer : IsRegistry es
        → leb max_registrations (length es) ≡ false
        → IsRegistry (es ++ (u ∷ [])) =
      λ w room. record {
        apart = AllApart-append_one u es w.apart (
            All-pair _ _ (λ e. IsApart e u) es
              (kept-IsApart reg conn u (same_refl reg conn now reg.players) refl) n o);
        few = ground (arith, room, length-append es (u ∷ []));
      } in
    elim (Bool-cases (
      not (cap == 0)
      && not (is_empty reg.peer)
      && leb cap (count_if (λ e. text_beq e.peer reg.peer) es))) [
        | inl e ↦ rw e v
        | inr e ↦ rw e (elim (Bool-cases (leb max_registrations (length es))) [
          | inl f ↦ rw f v
          | inr f ↦ rw f (longer v f)
        ])
      ]

add_mine-IsRegistry :
    (mine : Option Registration) (reg : Registration) (conn : ℕ) (now : ℤ) (cap : ℕ)
    (es : List Registration)
    → mine ≡ find_if (owned conn) es
    → IsRegistry es
    → All (λ e. same reg e ≡ false) es
    → IsRegistry (add_mine mine reg conn now cap es).rows
unfolding add_mine
add_mine-IsRegistry none reg conn now cap es m v n =
    add_new-IsRegistry reg conn now cap es v n (find_if-none (owned conn) es (sym m))
add_mine-IsRegistry (some x) reg conn now cap es m v n =
    let u = stamped reg conn now x.players in
    let y = find_if-hit (owned conn) es x (sym m) in
    record {
      apart =
          move-AllApart reg conn u (same_refl reg conn now x.players) refl es (ground (arith, y)) n
            v.apart;
      few = omega (arith, length-assign (owned conn) u es, v.few);
    }

add_hit-IsRegistry :
    (hit : Option Registration) (reg : Registration) (conn : ℕ) (now : ℤ) (cap : ℕ)
    (es : List Registration)
    → hit ≡ find_if (same reg) es
    → IsRegistry es
    → IsRegistry (add_hit hit reg conn now cap es).rows
unfolding add_hit
add_hit-IsRegistry none reg conn now cap es m v =
    add_mine-IsRegistry (find_if (owned conn) es) reg conn now cap es refl v
      (find_if-none (same reg) es (sym m))
add_hit-IsRegistry (some x) reg conn now cap es m v =
    let u = stamped reg conn now x.players in
    elim (Bool-cases (is_foreign x conn reg.peer)) [
      | inl e ↦ rw e v
      | inr e ↦ rw e (record {
        apart = take_over-AllApart reg conn u (same_refl reg conn now x.players) refl es v.apart;
        few =
            unfold take_over in
            omega (
              arith,
              length-assign (same reg) u es,
              length-keep-le (λ e. not (owned conn e && not (same reg e))) (assign (same reg) u es),
              v.few,
            );
      })
    ]

-- A registration keeps the registry in order whatever its result: no two rows of one address, no
-- connection with two rows, 512 rows at most.
pub add-IsRegistry :
    (reg : Registration) (conn : ℕ) (now : ℤ) (max_per_peer : ℕ) (es : List Registration)
    → IsRegistry es
    → IsRegistry (add reg conn now max_per_peer es).rows
unfolding add
add-IsRegistry reg conn now max_per_peer es v =
    add_hit-IsRegistry (find_if (same reg) es) reg conn now max_per_peer es refl v
