-- ===== src/Explode/Spheres.antt =====
-- explode.h: the walk of a blast over its sphere, line by line and layer by layer, against the walk of
-- the budget over the same sphere.
use ewb_server.Base.{
  ℕ, zero, suc, ◌+◌, ◌*◌, ◌≤◌, ◌≡◌, refl, ap₂, ℤ, pos, ◌+ℤ◌, ◌-ℤ◌, ◌*ℤ◌, neg, leb_ℤ, List, [], ◌∷◌,
  ◌++◌, map, length, length-append, arith, eq_of_parts, +ℤ_parts, -ℤ_parts, neg_parts,
  if◌then◌else◌,
}
use ewb_server.Explode.{Pos, ExplodeWorld, span, countdown}
use ewb_server.Explode.Blast.{
  clipped, samples, line_cells, layer_cells, sphere_cells, blast_cells, line_visits, layer_visits,
  sphere_visits, offsets, count_up, explode_visits_per_blast,
}

-- Places less the centre's coordinate.
abbrev pub less : ℤ → List ℤ → List ℤ
less c js = map (λ (j : ℤ). j -ℤ c) js

less-span : (c lo : ℤ) (n : ℕ) → less c (span lo n) ≡ span (lo -ℤ c) n
less-span c lo zero = refl
less-span c lo (suc n) =
    let step : (lo +ℤ pos 1) -ℤ c ≡ (lo -ℤ c) +ℤ pos 1 =
      eq_of_parts ((lo +ℤ pos 1) -ℤ c) ((lo -ℤ c) +ℤ pos 1) (
        omega (
          arith,
          -ℤ_parts (lo +ℤ pos 1) c,
          +ℤ_parts lo (pos 1),
          +ℤ_parts (lo -ℤ c) (pos 1),
          -ℤ_parts lo c,
        )) in
    rw (less-span c (lo +ℤ pos 1) n, step) refl

pub less-side :
    (c : ℤ) (radius : ℕ) → less c (span (c -ℤ pos radius) (2 * radius + 1)) ≡ offsets radius
less-side c radius =
    let left : (c -ℤ pos radius) -ℤ c ≡ neg (pos radius) =
      eq_of_parts ((c -ℤ pos radius) -ℤ c) (neg (pos radius)) (
        omega
          (arith, -ℤ_parts (c -ℤ pos radius) c, -ℤ_parts c (pos radius), neg_parts (pos radius))) in
    rw (less-span c (c -ℤ pos radius) (2 * radius + 1), left) refl

module _ {S : Type 0} (w : ExplodeWorld S) (c : Pos) where
  clipped-le : (p : Pos) → length (clipped w p) ≤ 1
  unfolding clipped
  clipped-le p = ground arith

  samples-le :
      (yy : ℕ) (j k : ℤ)
      → length (samples w c yy j k) ≤ (
          if leb_ℤ
            ((j -ℤ c.x) *ℤ (j -ℤ c.x) +ℤ (k -ℤ c.z) *ℤ (k -ℤ c.z) +ℤ pos (yy * yy))
            (pos (w.radius * w.radius))
          then 2
          else 0)
  unfolding samples
  samples-le yy j k =
      let low : Pos = record { x = j; y = c.y -ℤ pos yy; z = k } in
      let high : Pos = record { x = j; y = c.y +ℤ pos yy; z = k } in
      ground
        (arith, clipped-le low, clipped-le high, length-append (clipped w low) (clipped w high))

  line_cells-le :
      (yy : ℕ) (j : ℤ) (ks : List ℤ)
      → length (line_cells w c yy j ks) ≤ line_visits w.radius yy (j -ℤ c.x) (less c.z ks)
  line_cells-le yy j [] = omega arith
  line_cells-le yy j (k ∷ ks) = omega (
    arith,
    length-append (samples w c yy j k) (line_cells w c yy j ks),
    samples-le yy j k,
    line_cells-le yy j ks,
  )

  layer_cells-le :
      (yy : ℕ) (js ks : List ℤ)
      → length (layer_cells w c yy js ks) ≤ layer_visits w.radius yy (less c.x js) (less c.z ks)
  layer_cells-le yy [] ks = omega arith
  layer_cells-le yy (j ∷ js) ks = omega (
    arith,
    length-append (line_cells w c yy j ks) (layer_cells w c yy js ks),
    line_cells-le yy j ks,
    layer_cells-le yy js ks,
  )

  sphere_cells-le :
      (yys : List ℕ) → length (sphere_cells w c yys) ≤ sphere_visits w.radius (offsets w.radius) yys
  sphere_cells-le [] = omega arith
  sphere_cells-le (yy ∷ yys) =
      let js = span (c.x -ℤ pos w.radius) (2 * w.radius + 1) in
      let ks = span (c.z -ℤ pos w.radius) (2 * w.radius + 1) in
      let layer : layer_visits w.radius yy (less c.x js) (less c.z ks)
          ≡ layer_visits w.radius yy (offsets w.radius) (offsets w.radius) =
        ap₂ (λ (xs zs : List ℤ). layer_visits w.radius yy xs zs) (less-side c.x w.radius)
          (less-side c.z w.radius) in
      omega (
        arith,
        length-append (layer_cells w c yy js ks) (sphere_cells w c yys),
        layer_cells-le yy js ks,
        layer,
        sphere_cells-le yys,
      )

sphere_visits-append :
    (radius : ℕ) (side : List ℤ) (xs ys : List ℕ)
    → sphere_visits radius side (xs ++ ys)
      ≡ sphere_visits radius side xs + sphere_visits radius side ys
sphere_visits-append radius side [] ys = omega arith
sphere_visits-append radius side (x ∷ xs) ys = omega (arith, sphere_visits-append radius side xs ys)

-- The layers from either end.
pub sphere_visits-count_up :
    (radius : ℕ) (side : List ℤ) (n : ℕ)
    → sphere_visits radius side (count_up n) ≡ sphere_visits radius side (countdown n)
sphere_visits-count_up radius side zero = refl
sphere_visits-count_up radius side (suc n) = omega (
  arith,
  sphere_visits-append radius side (count_up n) (n ∷ []),
  sphere_visits-count_up radius side n,
)

pub blast_cells-le :
    {S : Type 0}
    → (w : ExplodeWorld S) (c : Pos)
    → 1 + length (blast_cells w c) ≤ explode_visits_per_blast w.radius
unfolding blast_cells explode_visits_per_blast
blast_cells-le w c = omega (
  arith,
  sphere_cells-le w c (countdown w.radius),
  sphere_visits-count_up w.radius (offsets w.radius) w.radius,
)
