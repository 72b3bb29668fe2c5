-- ===== src/Explode/Expand.antt =====
-- explode.h, `fill`, `fire` and `expansions`: lit expansion blocks fill what is around them.
use ewb_server.Base.{
  ℕ, zero, suc, ◌+◌, ◌-◌, ◌*◌, max, ℤ, pos, ◌+ℤ◌, ◌-ℤ◌, leb_ℤ, ltb_ℤ, eqb_ℤ, Bool, true, false, not,
  ◌&&◌, ◌||◌, Option, none, some, List, [], ◌∷◌, ◌++◌, keep, map, ◌==◌, ltb, leb, if◌then◌else◌,
  drop, length,
}
use ewb_server.Explode.{
  Pos, ExplodeCell, ExplodeWorld, BurnRun, Link, span, countdown, each, is_inside, visit, hit,
  truncate, set_counted, expand_extent, expand_visits_per_link,
}
use ewb_server.Explode.Blocks.{
  is_expansion, expansion_material, expansion_ramp, face_solid, face_dx, face_dz, Faces,
  ramp_for_faces,
}
use ewb_server.Explode.Blast.{light, color_of, concat}

-- How far a fill goes from its centre, to each side.
pub record Extent : Type 0 where
  pub left : ℕ
  pub right : ℕ
  pub forward : ℕ
  pub back : ℕ
  pub top : ℕ
  pub bottom : ℕ

abbrev pub moved : Pos → ℤ → ℤ → ℤ → Pos
moved p dx dy dz = record { x = p.x +ℤ dx; y = p.y +ℤ dy; z = p.z +ℤ dz }

-- `abs(j - cx) + abs(k - cz) == 2 * E`.
abbrev abs_diff : ℤ → ℤ → ℤ
abs_diff a b = if leb_ℤ b a then a -ℤ b else b -ℤ a

unfoldable pub is_corner : Pos → Pos → Bool
is_corner c p = eqb_ℤ (abs_diff p.x c.x +ℤ abs_diff p.z c.z) (pos (2 * expand_extent))

abbrev pub whole_box : Extent
whole_box = record {
  left = expand_extent;
  right = expand_extent;
  forward = expand_extent;
  back = expand_extent;
  top = expand_extent;
  bottom = expand_extent;
}

-- A side that is against something solid does not grow.
growth : Bool → ℕ
growth stopped = if stopped then 0 else expand_extent

abbrev is_solid : Option ℕ → Bool
is_solid none = false
is_solid (some t) = ltb 0 t

module _ {S : Type 0} where
  unfoldable pub type_at : ExplodeWorld S → Pos → S → Option ℕ
  type_at w p s = if is_inside w p.y then some (shown (w.get p s)) else none
    where
      shown : Option ExplodeCell → ℕ
      shown none = w.base_type p.y
      shown (some c) = if c.kind == w.painted_base_type then w.base_type p.y else c.kind

  -- The cells of `eachCell`, in its order.
  column : ExplodeWorld S → Pos → Extent → Bool → ℕ → ℤ → ℤ → List Pos
  column w c e both yy j k =
      let down : Pos = record { x = j; y = c.y -ℤ pos yy; z = k } in
      let up : Pos = record { x = j; y = c.y +ℤ pos yy; z = k } in
      (if ltb_ℤ w.y_min down.y && (both || leb yy e.bottom) then down ∷ [] else [])
      ++ (if ltb_ℤ up.y w.y_max && (both || leb yy e.top) then up ∷ [] else [])

  unfoldable pub fill_cells : ExplodeWorld S → Pos → Extent → Bool → List Pos
  unfolding column
  fill_cells w c e both =
      let xs = span (c.x -ℤ pos e.left) (e.left + e.right + 1) in
      let zs = span (c.z -ℤ pos e.forward) (e.forward + e.back + 1) in
      concat (
        map
          (λ (yy : ℕ).
            concat (map (λ (j : ℤ). concat (map (λ (k : ℤ). column w c e both yy j k) zs)) xs))
          (countdown (expand_extent + 1)))

  at_top : ExplodeWorld S → Pos → Bool
  at_top w c = eqb_ℤ (c.y +ℤ pos 1) w.y_max

  at_bottom : ExplodeWorld S → Pos → Bool
  at_bottom w c = leb_ℤ (c.y -ℤ pos 1) w.y_min

  unfoldable pub extent : ExplodeWorld S → Pos → S → Extent
  unfolding growth at_top at_bottom
  extent w c s =
      let solid : ℤ → ℤ → ℤ → Bool = λ (dx dy dz : ℤ). is_solid (type_at w (moved c dx dy dz) s) in
      record {
        left = growth (solid (pos 0 -ℤ pos 1) (pos 0) (pos 0));
        right = growth (solid (pos 1) (pos 0) (pos 0));
        forward = growth (solid (pos 0) (pos 0) (pos 0 -ℤ pos 1));
        back = growth (solid (pos 0) (pos 0) (pos 1));
        top = growth (at_top w c || solid (pos 0) (pos 1) (pos 0));
        bottom = growth (at_bottom w c || solid (pos 0) (pos 0 -ℤ pos 1) (pos 0));
      }

  -- The cells that `extent` reads: a side at the edge of the world is not read.
  unfoldable pub extent_visits : ExplodeWorld S → Pos → ℕ
  unfolding at_top at_bottom
  extent_visits w c = 4 + (if at_top w c then 0 else 1) + (if at_bottom w c then 0 else 1)

  -- The end of the three loops' bodies: an expansion block of type `t` at `p` is lit.
  unfoldable pub light_at : ExplodeWorld S → ℕ → Pos → Option ℕ → BurnRun S → BurnRun S
  light_at w depth p none r = r
  light_at w depth p (some t) r =
      if ltb 0 t && is_expansion t
      then light w (record { place = p; kind = t; depth = depth }) true r
      else r

  unfoldable pub is_air : ExplodeWorld S → Option ℕ → Bool
  is_air w none = false
  is_air w (some t) = t == w.air_type

  unfoldable pub fill_cell : ExplodeWorld S → ℕ → ℕ → ℕ → Pos → BurnRun S → BurnRun S
  unfolding is_air
  fill_cell w material color depth p r =
      let t = type_at w p r.world in
      let v = visit 1 r in
      if is_air w t
      then if material == w.air_type
        then v
        else if w.protected_at p
        then hit v
        else set_counted w p material color v
      else light_at w depth p t v

  unfoldable pub faces_at : ExplodeWorld S → Pos → S → Faces
  faces_at w p s =
      let solid : ℕ → Bool =
        λ (d : ℕ). face_solid (type_at w (moved p (face_dx d) (pos 0) (face_dz d)) s) d in
      record { east = solid 0; south = solid 1; west = solid 2; north = solid 3 }

  -- One corner cell of the ramp ring.
  unfoldable pub ramp_cell : ExplodeWorld S → ℕ → ℕ → ℕ → Pos → BurnRun S → BurnRun S
  unfolding is_air
  ramp_cell w ramp color depth p r =
      let t = type_at w p r.world in
      let v = visit 1 r in
      if is_air w t
      then if w.protected_at p
        then hit v
        else set_counted w p (ramp_for_faces ramp (faces_at w p r.world)) color (visit 4 v)
      else light_at w depth p t v

  unfoldable pub light_cell : ExplodeWorld S → ℕ → Pos → BurnRun S → BurnRun S
  light_cell w depth p r = light_at w depth p (type_at w p r.world) (visit 1 r)

  -- A side variant's box leaves its corner columns out; they are its ring.
  unfoldable pub box_cells : ExplodeWorld S → Pos → ℕ → Extent → List Pos
  box_cells w c ramp e =
      keep (λ (p : Pos). not (ltb 0 ramp && is_corner c p)) (fill_cells w c e false)

  unfoldable pub ring_cells : ExplodeWorld S → Pos → ℕ → Extent → List Pos
  ring_cells w c ramp e = keep (λ (p : Pos). ltb 0 ramp && is_corner c p) (fill_cells w c e false)

  unfoldable pub fill : ExplodeWorld S → Pos → ℕ → ℕ → ℕ → BurnRun S → BurnRun S
  fill w c kind color depth r =
      let ramp = expansion_ramp kind in
      let e = extent w c r.world in
      let box =
        each (fill_cell w (expansion_material kind) color (depth + 1)) (box_cells w c ramp e)
          (visit (extent_visits w c) r) in
      let ramps = each (ramp_cell w ramp color (depth + 1)) (ring_cells w c ramp e) box in
      each (light_cell w (depth + 1)) (fill_cells w c whole_box true) ramps

  unfoldable pub begin_fire : Link → BurnRun S → BurnRun S
  begin_fire n r = record r {
    res = record r.res {
      expansions = suc r.res.expansions;
      max_depth = max r.res.max_depth n.depth;
      visits = r.res.visits + 1;
    };
    firing = some n.place;
    refire = false;
  }

  unfoldable pub refill : ExplodeWorld S → Link → BurnRun S → BurnRun S
  refill w n r = if r.refire then fill w n.place n.kind 0 n.depth r else r

  unfoldable pub fire : ExplodeWorld S → Link → BurnRun S → BurnRun S
  fire w n r =
      let filled =
        fill w n.place n.kind (color_of (w.get n.place r.world)) n.depth (begin_fire n r) in
      let refilled = refill w n (set_counted w n.place w.air_type 0 filled) in
      record refilled { firing = none }

  -- The loop over the queue at index `qi`, whose links from there on are `rest`; `none` if `fuel`
  -- rounds are too few.
  unfoldable pub fire_from : ExplodeWorld S → ℕ → ℕ → List Link → BurnRun S → Option (BurnRun S)
  fire_from w fuel qi [] r = some r
  fire_from w zero qi (n ∷ rest) r = none
  fire_from w (suc fuel) qi (n ∷ rest) r =
      let fired = fire w n r in
      let more = fire_from w fuel (suc qi) (drop (suc qi) fired.queue) fired in
      if not (r.root_queued && qi == 0) && ltb r.max_visits (r.res.visits + expand_visits_per_link)
      then some (truncate (length r.queue - qi) r)
      else more

  -- Each round but the root's leaves `visits` below the budget, and reads a cell at least.
  unfoldable pub expansions : ExplodeWorld S → BurnRun S → Option (BurnRun S)
  expansions w r = fire_from w (r.max_visits + 2) 0 r.queue r
