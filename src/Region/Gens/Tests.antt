-- ===== src/Region/Gens/Tests.antt =====
-- A table at concrete changes.
use ewb_server.Base.{◌≡◌, refl, pos, [], ◌∷◌, ◌++◌, true, false, arith}
use ewb_server.Region.Box.{RegionBox, contains}
use ewb_server.Region.Gens.{new, unchanged_since}
use ewb_server.Region.Gens.Changes.{cell, changed, IsGens, unchanged_since-changed}

abbrev box : RegionBox
box = record { x0 = pos 0; x1 = pos 63; z0 = pos 16; z1 = pos 79 }

new-IsGens : IsGens new
unfolding new
new-IsGens = record { stamps = λ s. omega arith; reloads = omega arith }

inside : contains box (pos 40) (pos 70) ≡ true
unfolding contains
inside = refl

unchanged_since-changed_example :
    unchanged_since box 0
      (changed ((cell (pos 900) (pos 3) ∷ []) ++ (cell (pos 40) (pos 70) ∷ [])) new)
    ≡ false
unfolding new
unchanged_since-changed_example =
    unchanged_since-changed box new (cell (pos 900) (pos 3) ∷ []) [] (cell (pos 40) (pos 70))
      new-IsGens inside
