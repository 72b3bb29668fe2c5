-- ===== src/Explode/Kept/Fills.antt =====
-- explode.h, `fill`, `fire` and `expansions`: every fill keeps what `Kept` says, and each fired
-- expansion reads a cell, so that the budget ends the loop.
use ewb_server.Base.{
  ℕ, zero, suc, ◌+◌, ◌-◌, ◌≤◌, ◌≡◌, refl, Bool, true, false, not, ◌&&◌, Bool-cases, inl, inr,
  Option, none, some, List, [], ◌∷◌, All, All-drop, arith, length, ltb, ◌==◌, if◌then◌else◌,
}
use ewb_server.Explode.{
  Pos, ExplodeWorld, BurnRun, Link, visit, hit, truncate, set_counted, expand_visits_per_link,
}
use ewb_server.Explode.Blocks.{is_expansion, expansion_material, expansion_ramp}
use ewb_server.Explode.Expand.{
  light_at, fill_cell, ramp_cell, light_cell, fill, fill_cells, box_cells, ring_cells, extent,
  extent_visits, whole_box, Extent, begin_fire, refill, fire, fire_from, expansions,
}
use ewb_server.Explode.Kept.{
  IsFreeLink, Kept, Keeps, each-keeps, Kept-visit, Kept-less, Kept-hit, Kept-truncate,
  Kept-set_counted, Kept-light,
}
use ewb_server.Explode.Kept.Blasts.{Done}

module _ {S : Type 0} {w : ExplodeWorld S} {I : S → Type 0} (keeps : Keeps w I) {b e v : ℕ} where
  Kept-reads : (n : ℕ) (r : BurnRun S) → Kept w I b e v r → Kept w I b e v (visit n r)
  Kept-reads n r k = Kept-less keeps v _ (omega arith) (Kept-visit keeps n r k)

  Kept-light_at :
      (depth : ℕ) (p : Pos) (t : Option ℕ) (r : BurnRun S)
      → Kept w I b e v r
      → Kept w I b e v (light_at w depth p t r)
  unfolding light_at
  Kept-light_at depth p none r k = k
  Kept-light_at depth p (some t) r k = elim (Bool-cases (ltb 0 t && is_expansion t)) [
    | inl h ↦ rw h (
        Kept-light keeps (record { place = p; kind = t; depth = depth }) true r
          (λ (u : true ≡ false). ground (arith, u)) k)
    | inr h ↦ rw h k
  ]

  -- A write where the cell was air, or a block that is lit.
  Kept-write :
      (air skip : Bool) (p : Pos) (kind color depth n : ℕ) (t : Option ℕ) (r : BurnRun S)
      → Kept w I b e v r
      → Kept w I b e v (
          if air
          then if skip
            then r
            else if w.protected_at p
            then hit r
            else set_counted w p kind color (visit n r)
          else light_at w depth p t r)
  Kept-write false skip p kind color depth n t r k = Kept-light_at depth p t r k
  Kept-write true true p kind color depth n t r k = k
  Kept-write true false p kind color depth n t r k = elim (Bool-cases (w.protected_at p)) [
    | inl h ↦ rw h (Kept-hit keeps r k)
    | inr h ↦ rw h (Kept-set_counted keeps p kind color _ h (Kept-reads n r k))
  ]

  fill_new :
      (air : Bool) (material color depth : ℕ) (p : Pos) (t : Option ℕ) (r : BurnRun S)
      → Kept w I b e v r
      → Kept w I b e v (
          if air
          then if w.protected_at p then hit r else set_counted w p material color r
          else light_at w depth p t r)
  fill_new false material color depth p t r k = Kept-light_at depth p t r k
  fill_new true material color depth p t r k = elim (Bool-cases (w.protected_at p)) [
    | inl h ↦ rw h (Kept-hit keeps r k)
    | inr h ↦ rw h (Kept-set_counted keeps p material color r h k)
  ]

  Kept-fill_cell :
      (material color depth : ℕ) (p : Pos) (r : BurnRun S)
      → Kept w I b e v r
      → Kept w I b e v (fill_cell w material color depth p r)
  unfolding fill_cell
  Kept-fill_cell material color depth p r k = elim (Bool-cases (material == w.air_type)) [
    | inl h ↦ rw h (Kept-write _ true p material color depth 0 _ _ (Kept-reads 1 r k))
    | inr h ↦ rw h (fill_new _ material color depth p _ _ (Kept-reads 1 r k))
  ]

  Kept-ramp_cell :
      (ramp color depth : ℕ) (p : Pos) (r : BurnRun S)
      → Kept w I b e v r
      → Kept w I b e v (ramp_cell w ramp color depth p r)
  unfolding ramp_cell
  Kept-ramp_cell ramp color depth p r k =
      Kept-write _ false p _ color depth 4 _ _ (Kept-reads 1 r k)

  Kept-light_cell :
      (depth : ℕ) (p : Pos) (r : BurnRun S)
      → Kept w I b e v r
      → Kept w I b e v (light_cell w depth p r)
  unfolding light_cell
  Kept-light_cell depth p r k = Kept-light_at depth p _ _ (Kept-reads 1 r k)

  Kept-fill :
      (c : Pos) (kind color depth : ℕ) (r : BurnRun S)
      → Kept w I b e v r
      → Kept w I b e v (fill w c kind color depth r)
  unfolding fill
  Kept-fill c kind color depth r k =
      let P : BurnRun S → Type 0 = Kept w I b e v in
      let ramp : ℕ = expansion_ramp kind in
      let x : Extent = extent w c r.world in
      each-keeps P _ (Kept-light_cell (depth + 1)) (fill_cells w c whole_box true) _ (
        each-keeps P _ (Kept-ramp_cell ramp color (depth + 1)) (ring_cells w c ramp x) _ (
          each-keeps P _ (Kept-fill_cell (expansion_material kind) color (depth + 1))
            (box_cells w c ramp x) _ (Kept-reads (extent_visits w c) r k)))

  Kept-if :
      (c : Bool) (q r : BurnRun S)
      → Kept w I b e v q
      → Kept w I b e v r
      → Kept w I b e v (if c then q else r)
  Kept-if true q r hq hr = hq
  Kept-if false q r hq hr = hr

  Kept-begin_fire :
      (n : Link) (r : BurnRun S) → Kept w I b e v r → Kept w I b e (suc v) (begin_fire n r)
  unfolding begin_fire
  Kept-begin_fire n r k = record {
    world = k.world;
    queue = k.queue;
    budget = k.budget;
    blasts = k.blasts;
    read = omega (arith, k.read);
  }

  Kept-refill : (n : Link) (r : BurnRun S) → Kept w I b e v r → Kept w I b e v (refill w n r)
  unfolding refill
  Kept-refill n r k = Kept-if r.refire _ r (Kept-fill n.place n.kind 0 n.depth r k) k

  Kept-put_out : (r : BurnRun S) → Kept w I b e v r → Kept w I b e v (record r { firing = none })
  Kept-put_out r k = record {
    world = k.world;
    queue = k.queue;
    budget = k.budget;
    blasts = k.blasts;
    read = k.read;
  }

-- A round that is not the end leaves room for one more.
still_low :
    (queued : Bool) (qi budget visits : ℕ) {b : ℕ}
    → budget ≡ b
    → qi ≤ visits
    → (not (queued && qi == 0) && ltb budget (visits + expand_visits_per_link)) ≡ false
    → suc qi ≤ b + 1
still_low queued qi budget visits h k g = ground (arith, h, k, g)

module _ {S : Type 0} {w : ExplodeWorld S} {I : S → Type 0} (keeps : Keeps w I) {b e : ℕ} where
  Kept-fire :
      (v : ℕ) (n : Link) (r : BurnRun S)
      → IsFreeLink w n
      → Kept w I b e v r
      → Kept w I b e (suc v) (fire w n r)
  unfolding fire
  Kept-fire v n r free k =
      let filled = Kept-fill keeps n.place n.kind _ n.depth _ (Kept-begin_fire keeps n r k) in
      Kept-put_out keeps _
        (Kept-refill keeps n _ (Kept-set_counted keeps n.place w.air_type 0 _ free filled))

  fire_from-Done :
      (fuel qi m : ℕ) (rest : List Link) (r : BurnRun S)
      → e ≤ m
      → qi ≤ b + 1
      → b + 2 ≤ fuel + qi
      → All (IsFreeLink w) rest
      → Kept w I b e qi r
      → Done w I b m (fire_from w fuel qi rest r)
  unfolding fire_from
  fire_from-Done fuel qi m [] r h low fuels free k = record {
    run = r;
    returns = refl;
    blasts = e;
    kept = Kept-less keeps 0 r (omega arith) k;
    bounded = h;
  }
  fire_from-Done zero qi m (n ∷ rest) r h low fuels free k = absurd (omega (arith, low, fuels))
  fire_from-Done (suc fuel) qi m (n ∷ rest) r h low fuels free k =
      let kept = Kept-fire qi n r free.0 k in
      elim (Bool-cases (
        not (r.root_queued && qi == 0)
        && ltb r.max_visits (r.res.visits + expand_visits_per_link))) [
          | inl g ↦ rw g (record {
            run = truncate (length r.queue - qi) r;
            returns = refl;
            blasts = e;
            kept = Kept-less keeps 0 _ (omega arith) (Kept-truncate keeps _ r k);
            bounded = h;
          })
          | inr g ↦ rw g (
              fire_from-Done fuel (suc qi) m _ _ h
                (still_low r.root_queued qi r.max_visits r.res.visits k.budget k.read g)
                (omega (arith, fuels)) (All-drop (IsFreeLink w) (suc qi) _ kept.queue) kept)
        ]

  pub expansions-Done :
      (m : ℕ) (r : BurnRun S) → e ≤ m → Kept w I b e 0 r → Done w I b m (expansions w r)
  unfolding expansions
  expansions-Done m r h k =
      fire_from-Done (r.max_visits + 2) 0 m r.queue r h (omega arith) (omega (arith, k.budget))
        k.queue k
