-- ===== src/Region/Gens/Changes.antt =====
-- A reply that was scanned before a change in its box is never taken for a fresh one.
use ewb_server.Base.{ℕ, ◌≤◌, ◌<◌, ◌≡◌, refl, ℤ, List, [], ◌∷◌, ◌++◌, true, false, leb, arith}
use ewb_server.Region.Box.{RegionBox, contains}
use ewb_server.Region.Gens.{ColumnGens, column, slot, bump, bump_all, newest_in, unchanged_since}
use ewb_server.Region.Gens.Columns.{newest_in-sees, newest_in-floor}

-- A write to a cell at a block, or a reload of the world.
pub data Change : Type 0 where
  cell : ℤ → ℤ → Change
  reload : Change

unfoldable pub change : Change → ColumnGens → ColumnGens
unfolding bump bump_all
change (cell x z) g = bump x z g
change reload g = bump_all g

unfoldable pub changed : List Change → ColumnGens → ColumnGens
unfolding change
changed [] g = g
changed (c ∷ cs) g = changed cs (change c g)

-- The change is in the box.
abbrev pub IsIn : RegionBox → Change → Type 0
IsIn b (cell x z) = contains b x z ≡ true
IsIn b reload = Unit {0}

-- No stamp is ahead of the counter.
pub record IsGens (g : ColumnGens) : Type 0 where
  pub stamps : (s : ℕ) → g.gen s ≤ g.now
  pub reloads : g.floor ≤ g.now

change-IsGens : (c : Change) (g : ColumnGens) → IsGens g → IsGens (change c g)
unfolding change bump bump_all
change-IsGens (cell x z) g v = record {
  stamps = λ s. ground (arith, v.stamps s);
  reloads = omega (arith, v.reloads);
}
change-IsGens reload g v = record { stamps = λ s. omega (arith, v.stamps s); reloads = omega arith }

pub changed-IsGens : (cs : List Change) (g : ColumnGens) → IsGens g → IsGens (changed cs g)
unfolding changed
changed-IsGens [] g v = v
changed-IsGens (c ∷ cs) g v = changed-IsGens cs (change c g) (change-IsGens c g v)

-- Stamps only grow.
record IsLater (g g' : ColumnGens) : Type 0 where
  stamps : (s : ℕ) → g.gen s ≤ g'.gen s
  reloads : g.floor ≤ g'.floor
  clock : g.now ≤ g'.now

change-IsLater : (c : Change) (g : ColumnGens) → IsGens g → IsLater g (change c g)
unfolding change bump bump_all
change-IsLater (cell x z) g v = record {
  stamps = λ s. ground (arith, v.stamps s);
  reloads = omega arith;
  clock = omega arith;
}
change-IsLater reload g v = record {
  stamps = λ s. omega arith;
  reloads = omega (arith, v.reloads);
  clock = omega arith;
}

changed-IsLater : (cs : List Change) (g : ColumnGens) → IsGens g → IsLater g (changed cs g)
unfolding changed
changed-IsLater [] g v = record {
  stamps = λ s. omega arith;
  reloads = omega arith;
  clock = omega arith;
}
changed-IsLater (c ∷ cs) g v =
    let one = change-IsLater c g v in
    let rest = changed-IsLater cs (change c g) (change-IsGens c g v) in
    record {
      stamps = λ s. omega (arith, one.stamps s, rest.stamps s);
      reloads = omega (arith, one.reloads, rest.reloads);
      clock = omega (arith, one.clock, rest.clock);
    }

-- A change in the box stamps something that the sweep sees, and that stays so.
touched :
    (b : RegionBox) (c : Change) (later : List Change) (g : ColumnGens)
    → IsGens g
    → IsIn b c
    → g.now < newest_in b (changed later (change c g))
unfolding change bump bump_all
touched b (cell x z) later g v h =
    let g' = changed later (bump x z g) in
    let grown = changed-IsLater later (bump x z g) (change-IsGens (cell x z) g v) in
    ground (arith, grown.stamps (slot (column x) (column z)), newest_in-sees b g' x z h)
touched b reload later g v h =
    let g' = changed later (bump_all g) in
    let grown = changed-IsLater later (bump_all g) (change-IsGens reload g v) in
    omega (arith, grown.reloads, newest_in-floor b g')

newer : (m stamp : ℕ) → stamp < m → leb m stamp ≡ false
newer m stamp h = ground arith

changed-append : (m n : List Change) (g : ColumnGens) → changed (m ++ n) g ≡ changed n (changed m g)
unfolding changed
changed-append [] n g = refl
changed-append (c ∷ m) n g = changed-append m n (change c g)

-- If any of the changes after a scan is in its box, the box counts as changed since the scan,
-- whatever the other changes are.
pub unchanged_since-changed :
    (b : RegionBox) (g : ColumnGens) (early later : List Change) (c : Change)
    → IsGens g
    → IsIn b c
    → unchanged_since b g.now (changed (early ++ (c ∷ later)) g) ≡ false
unfolding unchanged_since changed
unchanged_since-changed b g early later c v h =
    let before = changed early g in
    let since = changed-IsLater early g v in
    let seen = touched b c later before (changed-IsGens early g v) h in
    rw (changed-append early (c ∷ later) g) (
      newer (newest_in b (changed later (change c before))) g.now
        (omega (arith, since.clock, seen)))
