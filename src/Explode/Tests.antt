-- ===== src/Explode/Tests.antt =====
-- Runs of the burn, and the theorems at concrete inputs.
use ewb_server.Base.{
  ℕ, ◌+◌, ◌≤◌, ◌/◌, max, ◌≡◌, refl, ap, ℤ, pos, negsuc, eqb_ℤ, true, Bool-cases, inl, inr, Option,
  none, some, length, arith, if◌then◌else◌,
}
use ewb_server.Explode.{Pos, ExplodeCell, ExplodeWorld, BurnRun, same_place}
use ewb_server.Explode.Blast.{blast_cells, explode_visits_per_blast}
use ewb_server.Explode.Burn.{sim_burn}
use ewb_server.Explode.Kept.Burns.{WritesOne, sim_burn-Contained, sim_burn-bounded}
use ewb_server.Explode.Visits.{heightened, blast_cells-explode_visits_per_blast}

abbrev Cells : Type 0
Cells = Pos → Option ExplodeCell

abbrev at : ℤ → ℤ → Pos
at x z = record { x = x; y = pos 5; z = z }

abbrev put : Pos → ℕ → ℕ → Cells → Cells
put p kind color s =
    λ (q : Pos). if same_place q p then some record { kind = kind; color = color } else s q

-- A world of radius 1, whose cell at -1, 5, 0 is protected.
abbrev small : ExplodeWorld Cells
small = record {
  get = λ (p : Pos) (s : Cells). s p;
  set = λ (p : Pos) (kind color : ℕ) (s : Cells). (put p kind color s, true);
  protected_at = λ (p : Pos). same_place p (at (negsuc 0) (pos 0));
  base_type = λ (y : ℤ). 0;
  air_type = 0;
  tnt_type = 9;
  bedrock_type = 1;
  steel_type = 74;
  golden_type = 71;
  painted_base_type = 255;
  y_min = pos 0;
  radius = 1;
  y_max = pos 256;
}

-- TNT at the root and beside it, stone on both other sides, an expansion block that fills with glass.
abbrev built : Cells
built = put (at (pos 0) (pos 0)) 9 0 (
    put (at (pos 0) (pos 1)) 9 0 (
      put (at (pos 1) (pos 0)) 2 0
        (put (at (negsuc 0) (pos 0)) 2 0 (put (at (pos 1) (pos 1)) 90 0 (λ (q : Pos). none)))))

eqb_ℤ-eq : (a b : ℤ) → eqb_ℤ a b ≡ true → a ≡ b
eqb_ℤ-eq (pos m) (pos n) h = ap pos (ground (arith, h))
eqb_ℤ-eq (pos m) (negsuc n) h = absurd (ground (arith, h))
eqb_ℤ-eq (negsuc m) (pos n) h = absurd (ground (arith, h))
eqb_ℤ-eq (negsuc m) (negsuc n) h = ap negsuc (ground (arith, h))

same_place-eq : (p q : Pos) → same_place p q ≡ true → p ≡ q
unfolding same_place
same_place-eq p q h = ground (arith, h, eqb_ℤ-eq p.x q.x, eqb_ℤ-eq p.y q.y, eqb_ℤ-eq p.z q.z)

small-WritesOne : WritesOne small
small-WritesOne p q kind color s h = elim (Bool-cases (same_place q p)) [
  | inl g ↦ absurd (h (same_place-eq q p g))
  | inr g ↦ rw g refl
]

abbrev result : Option (BurnRun Cells)
result = sim_burn small (at (pos 0) (pos 0)) 5000 built

abbrev kind_at : Option (BurnRun Cells) → Pos → Option ℕ
kind_at none p = none
kind_at (some r) p = shown (r.world p)
  where
    shown : Option ExplodeCell → Option ℕ
    shown none = none
    shown (some c) = some c.kind

sim_burn-Contained_example :
    (r : BurnRun Cells) × (sim_burn small (at (pos 0) (pos 0)) 5000 built ≡ some r)
    × ((q : Pos) → same_place q (at (negsuc 0) (pos 0)) ≡ true → r.world q ≡ built q)
sim_burn-Contained_example =
    sim_burn-Contained small (at (pos 0) (pos 0)) 5000 built small-WritesOne

sim_burn-bounded_example :
    (r : BurnRun Cells) × (sim_burn small (at (pos 0) (pos 0)) 5000 built ≡ some r)
    × (r.res.explosions ≤ max 1 (5000 / explode_visits_per_blast 1))
sim_burn-bounded_example = sim_burn-bounded small (at (pos 0) (pos 0)) 5000 built

blast_cells-explode_visits_per_blast_example :
    (1 + length (blast_cells small (at (pos 0) (pos 0))) ≤ explode_visits_per_blast 1)
    × (1 + length (blast_cells (heightened small (at (pos 0) (pos 0))) (at (pos 0) (pos 0)))
        ≡ explode_visits_per_blast 1)
blast_cells-explode_visits_per_blast_example =
    blast_cells-explode_visits_per_blast small (at (pos 0) (pos 0))
