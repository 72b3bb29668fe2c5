-- ===== src/Zones/Queries.antt =====
-- What the tests of a zone set tell about one another.
use ewb_server.Base.{
  ◌≡◌, ◌↔◌, refl, ap, ℤ, leb_ℤ, min_ℤ, max_ℤ, ◌≤ℤ◌, [], ◌∷◌, ◌++◌, Bool, true, false, ◌&&◌, none,
  some, All, arith, ◌⊎◌, inl, inr, Bool-cases,
}
use ewb_server.Zones.{Zone, contains, bypassed_by, overlaps}
use ewb_server.Zones.Set.{ZoneSet, blocks, blocking, has_bypass_levels, any_overlaps, intersects}

shares_cell :
    (lo hi b c x : ℤ)
    → leb_ℤ lo x ≡ true
    → leb_ℤ x hi ≡ true
    → b ≤ℤ x
    → x ≤ℤ c
    → (leb_ℤ lo c ≡ true) × (leb_ℤ b hi ≡ true)
shares_cell lo hi b c x h k l m = ground arith

-- A cell in the box of two corners, whichever of them is the lower one on an axis.
pub record IsInBox (x0 y0 z0 x1 y1 z1 x y z : ℤ) : Type 0 where
  pub x_low : min_ℤ x0 x1 ≤ℤ x
  pub x_high : x ≤ℤ max_ℤ x0 x1
  pub y_low : min_ℤ y0 y1 ≤ℤ y
  pub y_high : y ≤ℤ max_ℤ y0 y1
  pub z_low : min_ℤ z0 z1 ≤ℤ z
  pub z_high : z ≤ℤ max_ℤ z0 z1

and_true : (a b : Bool) → (a && b) ≡ true → (a ≡ true) × (b ≡ true)
and_true true b h = (refl, h)
and_true false b h = cc

overlaps-contains :
    (r : Zone) (bx0 by0 bz0 bx1 by1 bz1 x y z : ℤ)
    → bx0 ≤ℤ x
    → x ≤ℤ bx1
    → by0 ≤ℤ y
    → y ≤ℤ by1
    → bz0 ≤ℤ z
    → z ≤ℤ bz1
    → contains r x y z ≡ true
    → overlaps r bx0 by0 bz0 bx1 by1 bz1 ≡ true
unfolding contains overlaps
overlaps-contains r bx0 by0 bz0 bx1 by1 bz1 x y z a b c d e f h =
    let (t5, h6) = and_true _ (leb_ℤ z r.z1) h in
    let (t4, h5) = and_true _ (leb_ℤ r.z0 z) t5 in
    let (t3, h4) = and_true _ (leb_ℤ y r.y1) t4 in
    let (t2, h3) = and_true _ (leb_ℤ r.y0 y) t3 in
    let (h1, h2) = and_true (leb_ℤ r.x0 x) (leb_ℤ x r.x1) t2 in
    let (i1, i2) = shares_cell r.x0 r.x1 bx0 bx1 x h1 h2 a b in
    let (i3, i4) = shares_cell r.y0 r.y1 by0 by1 y h3 h4 c d in
    let (i5, i6) = shares_cell r.z0 r.z1 bz0 bz1 z h5 h6 e f in rw (i1, i2, i3, i4, i5, i6)

any_overlaps-blocking :
    (bx0 by0 bz0 bx1 by1 bz1 x y z level : ℤ) (zones : ZoneSet)
    → bx0 ≤ℤ x
    → x ≤ℤ bx1
    → by0 ≤ℤ y
    → y ≤ℤ by1
    → bz0 ≤ℤ z
    → z ≤ℤ bz1
    → any_overlaps bx0 by0 bz0 bx1 by1 bz1 zones ≡ false
    → blocking x y z level zones ≡ none
unfolding any_overlaps blocking blocks
any_overlaps-blocking bx0 by0 bz0 bx1 by1 bz1 x y z level [] a b c d e f h = refl
any_overlaps-blocking bx0 by0 bz0 bx1 by1 bz1 x y z level (r ∷ rs) a b c d e f h = ground (
  arith,
  overlaps-contains r bx0 by0 bz0 bx1 by1 bz1 x y z a b c d e f,
  any_overlaps-blocking bx0 by0 bz0 bx1 by1 bz1 x y z level rs a b c d e f,
)

-- A box that `intersects` reports clear holds no cell that `blocking` refuses, at any level: the
-- one test stands for the test of every cell.
pub intersects-blocking :
    (x0 y0 z0 x1 y1 z1 x y z level : ℤ) (zones : ZoneSet)
    → IsInBox x0 y0 z0 x1 y1 z1 x y z
    → intersects x0 y0 z0 x1 y1 z1 zones ≡ false
    → blocking x y z level zones ≡ none
unfolding intersects
intersects-blocking x0 y0 z0 x1 y1 z1 x y z level zones b h =
    any_overlaps-blocking (min_ℤ x0 x1) (min_ℤ y0 y1) (min_ℤ z0 z1) (max_ℤ x0 x1) (max_ℤ y0 y1)
      (max_ℤ z0 z1) x y z level zones b.x_low b.x_high b.y_low b.y_high b.z_low b.z_high h

-- An enforced zone that contains the cell and that the level does not bypass.
pub record IsBlocking (x y z level : ℤ) (r : Zone) : Type 0 where
  pub enforced : r.enforced ≡ true
  pub inside : contains r x y z ≡ true
  pub unbypassed : bypassed_by r level ≡ false

blocks_iff : (x y z level : ℤ) (r : Zone) → (blocks x y z level r ≡ true) ↔ IsBlocking x y z level r
unfolding blocks
blocks_iff x y z level r = (
  λ h. record {
    enforced = ground (arith, h);
    inside = ground (arith, h);
    unbypassed = ground (arith, h);
  },
  λ b. ground (arith, b.enforced, b.inside, b.unbypassed),
)

-- The zone that `blocking` names is the first that forbids the edit, and it names none exactly if
-- no zone of the set forbids it.
pub blocking_lem :
    (x y z level : ℤ) (zones : ZoneSet)
    → ((r : Zone) × (before after : ZoneSet) × (zones ≡ before ++ (r ∷ after))
        × (blocking x y z level zones ≡ some r)
        × IsBlocking x y z level r
        × All (λ q. IsBlocking x y z level q → ⊥) before)
      ⊎ ((blocking x y z level zones ≡ none) × All (λ q. IsBlocking x y z level q → ⊥) zones)
unfolding blocking
blocking_lem x y z level [] = inr (refl, tt)
blocking_lem x y z level (q ∷ rs) = elim (Bool-cases (blocks x y z level q)) [
  | inl b ↦ inl (q, [], rs, refl, rw b refl, (blocks_iff x y z level q).0 b, tt)
  | inr b ↦
      (let free : IsBlocking x y z level q → ⊥ = λ p. cc ((blocks_iff x y z level q).1 p, b) in
        elim (blocking_lem x y z level rs) [
          | inl (r, before, after, e, found, block, clear) ↦
              inl (r, q ∷ before, after, ap (◌∷◌ q) e, rw b found, block, (free, clear))
          | inr (e, clear) ↦ inr (rw b e, (free, clear))
        ])
]

-- While no enforced zone names a level, the level of the session makes no difference, so it need
-- not be looked up.
pub has_bypass_levels-blocking :
    (x y z level other : ℤ) (zones : ZoneSet)
    → has_bypass_levels zones ≡ false
    → blocking x y z level zones ≡ blocking x y z other zones
unfolding has_bypass_levels blocking blocks bypassed_by
has_bypass_levels-blocking x y z level other [] h = refl
has_bypass_levels-blocking x y z level other (r ∷ rs) h =
    ground (arith, has_bypass_levels-blocking x y z level other rs)

-- A session that may edit a cell may still do so at a higher level.
pub blocking_monotone :
    (x y z level higher : ℤ) (zones : ZoneSet)
    → level ≤ℤ higher
    → blocking x y z level zones ≡ none
    → blocking x y z higher zones ≡ none
unfolding blocking blocks bypassed_by
blocking_monotone x y z level higher [] le h = refl
blocking_monotone x y z level higher (r ∷ rs) le h =
    ground (arith, blocking_monotone x y z level higher rs)
