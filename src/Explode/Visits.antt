-- ===== src/Explode/Visits.antt =====
-- explode.h: the cells of a blast against the number that the budget charges for it. The two walk the
-- sphere each in their own loops: the blast over places, from the outermost layer inwards, and the
-- budget over offsets, from the middle layer outwards.
use ewb_server.Base.{
  ℕ, zero, suc, ◌+◌, ◌*◌, ◌≤◌, ◌≤ℤ◌, ◌<ℤ◌, ltb_ℤ, false, ◌≡◌, refl, ap₂, ℤ, pos, ◌+ℤ◌, ◌-ℤ◌, ◌*ℤ◌,
  leb_ℤ, List, [], ◌∷◌, length, length-append, arith, +ℤ_parts, -ℤ_parts, if◌then◌else◌,
}
use ewb_server.Explode.{Pos, ExplodeWorld, span, countdown}
use ewb_server.Explode.Blast.{
  clipped, samples, line_cells, layer_cells, sphere_cells, blast_cells, line_visits, layer_visits,
  sphere_visits, offsets, explode_visits_per_blast,
}
use ewb_server.Explode.Spheres.{less, less-side, blast_cells-le, sphere_visits-count_up}

-- The world's height about the centre is all that the sphere needs.
abbrev pub IsDeep : {S : Type 0} → ExplodeWorld S → Pos → Type 0
IsDeep w c = (w.y_min ≤ℤ c.y -ℤ pos w.radius) × (c.y +ℤ pos w.radius <ℤ w.y_max)

module _ {S : Type 0} (w : ExplodeWorld S) (c : Pos) (deep : IsDeep w c) where
  clipped-low :
      (yy : ℕ) (j k : ℤ)
      → yy ≤ w.radius
      → length (clipped w (record { x = j; y = c.y -ℤ pos yy; z = k })) ≡ 1
  unfolding clipped
  clipped-low yy j k h =
      let top : ltb_ℤ (c.y -ℤ pos yy) w.y_min ≡ false = ground (
        arith,
        deep,
        h,
        -ℤ_parts c.y (pos yy),
        -ℤ_parts c.y (pos w.radius),
        +ℤ_parts c.y (pos w.radius),
      ) in
      let bottom : leb_ℤ w.y_max (c.y -ℤ pos yy) ≡ false = ground (
        arith,
        deep,
        h,
        -ℤ_parts c.y (pos yy),
        -ℤ_parts c.y (pos w.radius),
        +ℤ_parts c.y (pos w.radius),
      ) in
      rw (top, bottom) refl

  clipped-high :
      (yy : ℕ) (j k : ℤ)
      → yy ≤ w.radius
      → length (clipped w (record { x = j; y = c.y +ℤ pos yy; z = k })) ≡ 1
  unfolding clipped
  clipped-high yy j k h =
      let top : ltb_ℤ (c.y +ℤ pos yy) w.y_min ≡ false = ground (
        arith,
        deep,
        h,
        +ℤ_parts c.y (pos yy),
        -ℤ_parts c.y (pos w.radius),
        +ℤ_parts c.y (pos w.radius),
      ) in
      let bottom : leb_ℤ w.y_max (c.y +ℤ pos yy) ≡ false = ground (
        arith,
        deep,
        h,
        +ℤ_parts c.y (pos yy),
        -ℤ_parts c.y (pos w.radius),
        +ℤ_parts c.y (pos w.radius),
      ) in
      rw (top, bottom) refl

  length-samples :
      (yy : ℕ) (j k : ℤ)
      → yy ≤ w.radius
      → length (samples w c yy j k) ≡ (
          if leb_ℤ
            ((j -ℤ c.x) *ℤ (j -ℤ c.x) +ℤ (k -ℤ c.z) *ℤ (k -ℤ c.z) +ℤ pos (yy * yy))
            (pos (w.radius * w.radius))
          then 2
          else 0)
  unfolding samples
  length-samples yy j k h =
      let low : Pos = record { x = j; y = c.y -ℤ pos yy; z = k } in
      let high : Pos = record { x = j; y = c.y +ℤ pos yy; z = k } in
      ground (
        arith,
        clipped-low yy j k h,
        clipped-high yy j k h,
        length-append (clipped w low) (clipped w high),
      )

  length-line_cells :
      (yy : ℕ) (j : ℤ) (ks : List ℤ)
      → yy ≤ w.radius
      → length (line_cells w c yy j ks) ≡ line_visits w.radius yy (j -ℤ c.x) (less c.z ks)
  length-line_cells yy j [] h = omega arith
  length-line_cells yy j (k ∷ ks) h = omega (
    arith,
    length-append (samples w c yy j k) (line_cells w c yy j ks),
    length-samples yy j k h,
    length-line_cells yy j ks h,
  )

  length-layer_cells :
      (yy : ℕ) (js ks : List ℤ)
      → yy ≤ w.radius
      → length (layer_cells w c yy js ks) ≡ layer_visits w.radius yy (less c.x js) (less c.z ks)
  length-layer_cells yy [] ks h = omega arith
  length-layer_cells yy (j ∷ js) ks h = omega (
    arith,
    length-append (line_cells w c yy j ks) (layer_cells w c yy js ks),
    length-line_cells yy j ks h,
    length-layer_cells yy js ks h,
  )

  length-sphere_cells :
      (n : ℕ)
      → n ≤ w.radius
      → length (sphere_cells w c (countdown n))
        ≡ sphere_visits w.radius (offsets w.radius) (countdown n)
  length-sphere_cells zero h = omega arith
  length-sphere_cells (suc yy) h =
      let js = span (c.x -ℤ pos w.radius) (2 * w.radius + 1) in
      let ks = span (c.z -ℤ pos w.radius) (2 * w.radius + 1) in
      let layer : layer_visits w.radius yy (less c.x js) (less c.z ks)
          ≡ layer_visits w.radius yy (offsets w.radius) (offsets w.radius) =
        ap₂ (λ (xs zs : List ℤ). layer_visits w.radius yy xs zs) (less-side c.x w.radius)
          (less-side c.z w.radius) in
      let below : yy ≤ w.radius = omega (arith, h) in
      omega (
        arith,
        length-append (layer_cells w c yy js ks) (sphere_cells w c (countdown yy)),
        length-layer_cells yy js ks below,
        layer,
        length-sphere_cells yy below,
      )

  length-blast_cells : 1 + length (blast_cells w c) ≡ explode_visits_per_blast w.radius
  unfolding blast_cells explode_visits_per_blast
  length-blast_cells = omega (
    arith,
    length-sphere_cells w.radius (omega arith),
    sphere_visits-count_up w.radius (offsets w.radius) w.radius,
  )

-- The world, made as high about the centre as the sphere needs.
abbrev pub heightened : {S : Type 0} → ExplodeWorld S → Pos → ExplodeWorld S
heightened w c = record w { y_min = c.y -ℤ pos w.radius; y_max = c.y +ℤ pos (w.radius + 1) }

heightened-IsDeep : {S : Type 0} → (w : ExplodeWorld S) (c : Pos) → IsDeep (heightened w c) c
heightened-IsDeep w c =
    (omega arith, omega (arith, +ℤ_parts c.y (pos w.radius), +ℤ_parts c.y (pos (w.radius + 1))))

-- A blast reads no more cells, its centre included, than the budget charges for one, wherever it is,
-- and where the world goes on above and below the sphere it reads exactly that many.
pub blast_cells-explode_visits_per_blast :
    {S : Type 0}
    → (w : ExplodeWorld S) (c : Pos)
    → (1 + length (blast_cells w c) ≤ explode_visits_per_blast w.radius)
      × (1 + length (blast_cells (heightened w c) c) ≡ explode_visits_per_blast w.radius)
blast_cells-explode_visits_per_blast w c =
    (blast_cells-le w c, length-blast_cells (heightened w c) c (heightened-IsDeep w c))
