-- ===== src/Explode/Blast.antt =====
-- explode.h, `blastChain`, `light` and `key`: blasts that set off one another.
use ewb_server.Base.{
  ℕ, zero, suc, ◌+◌, ◌-◌, ◌*◌, ◌/◌, ◌%◌, ◌^◌, max, ℤ, pos, pos_part, neg_part, ◌+ℤ◌, ◌-ℤ◌, ◌*ℤ◌,
  neg, leb_ℤ, ltb_ℤ, Bool, true, false, ◌&&◌, ◌||◌, Option, none, some, List, [], ◌∷◌, ◌++◌, ◌==◌,
  ltb, if◌then◌else◌, length,
}
use ewb_server.Explode.{
  Pos, ExplodeCell, ExplodeWorld, BurnRun, Node, Link, span, countdown, each, is_past, visit, hit,
  truncate, set_counted, set_uncounted, same_place, explode_max_depth,
}
use ewb_server.Explode.Blocks.{is_expansion}

-- The low `w` bits of a coordinate, in two's complement.
low_bits : ℕ → ℤ → ℕ
low_bits w c = (pos_part c % 2 ^ w + (2 ^ w - neg_part c % 2 ^ w)) % 2 ^ w

unfoldable pub key : Pos → ℕ
unfolding low_bits
key p = low_bits 24 p.x * 2 ^ 40 + low_bits 24 p.z * 2 ^ 16 + low_bits 16 p.y

abbrev pub has : ℕ → List ℕ → Bool
has k [] = false
has k (l ∷ ls) = k == l || has k ls

abbrev pub is_at : Option Pos → Pos → Bool
is_at none p = false
is_at (some q) p = same_place q p

abbrev pub concat : {A : Type 0} → List (List A) → List A
concat [] = []
concat (xs ∷ xss) = xs ++ concat xss

-- The budget's own walk over the sphere: the cells of one line of offsets, of one layer and of all.
abbrev pub line_visits : ℕ → ℕ → ℤ → List ℤ → ℕ
line_visits radius yy ox [] = 0
line_visits radius yy ox (oz ∷ ozs) =
    (if leb_ℤ (ox *ℤ ox +ℤ oz *ℤ oz +ℤ pos (yy * yy)) (pos (radius * radius)) then 2 else 0)
    + line_visits radius yy ox ozs

abbrev pub layer_visits : ℕ → ℕ → List ℤ → List ℤ → ℕ
layer_visits radius yy [] ozs = 0
layer_visits radius yy (ox ∷ oxs) ozs =
    line_visits radius yy ox ozs + layer_visits radius yy oxs ozs

abbrev pub sphere_visits : ℕ → List ℤ → List ℕ → ℕ
sphere_visits radius side [] = 0
sphere_visits radius side (yy ∷ yys) =
    layer_visits radius yy side side + sphere_visits radius side yys

-- -R, …, R.
abbrev pub offsets : ℕ → List ℤ
offsets radius = span (neg (pos radius)) (2 * radius + 1)

-- 0, 1, …, n - 1.
abbrev pub count_up : ℕ → List ℕ
count_up zero = []
count_up (suc n) = count_up n ++ n ∷ []

unfoldable pub explode_visits_per_blast : ℕ → ℕ
explode_visits_per_blast radius = 1 + sphere_visits radius (offsets radius) (count_up radius)

module _ {S : Type 0} where
  -- The place, if it is within the world's height.
  unfoldable pub clipped : ExplodeWorld S → Pos → List Pos
  clipped w p = if ltb_ℤ p.y w.y_min || leb_ℤ w.y_max p.y then [] else p ∷ []

  -- The two samples at `j`, `k`, `yy` below and above the centre.
  unfoldable pub samples : ExplodeWorld S → Pos → ℕ → ℤ → ℤ → List Pos
  unfolding clipped
  samples w c yy j k =
      let ox = j -ℤ c.x in
      let oz = k -ℤ c.z in
      if ltb_ℤ (pos (w.radius * w.radius)) (ox *ℤ ox +ℤ oz *ℤ oz +ℤ pos (yy * yy))
      then []
      else clipped w (record { x = j; y = c.y -ℤ pos yy; z = k })
        ++ clipped w (record { x = j; y = c.y +ℤ pos yy; z = k })

  abbrev pub line_cells : ExplodeWorld S → Pos → ℕ → ℤ → List ℤ → List Pos
  line_cells w c yy j [] = []
  line_cells w c yy j (k ∷ ks) = samples w c yy j k ++ line_cells w c yy j ks

  abbrev pub layer_cells : ExplodeWorld S → Pos → ℕ → List ℤ → List ℤ → List Pos
  layer_cells w c yy [] ks = []
  layer_cells w c yy (j ∷ js) ks = line_cells w c yy j ks ++ layer_cells w c yy js ks

  abbrev pub sphere_cells : ExplodeWorld S → Pos → List ℕ → List Pos
  sphere_cells w c [] = []
  sphere_cells w c (yy ∷ yys) =
      layer_cells w c yy (span (c.x -ℤ pos w.radius) (2 * w.radius + 1))
        (span (c.z -ℤ pos w.radius) (2 * w.radius + 1))
      ++ sphere_cells w c yys

  -- The cells that one blast samples, in its order, within the world's height. The layer of the
  -- centre comes twice.
  unfoldable pub blast_cells : ExplodeWorld S → Pos → List Pos
  blast_cells w c = sphere_cells w c (countdown w.radius)

-- A blast under way: the run, and the TNT that this blast sets off.
abbrev pub Blasting : Type 0 → Type 0
Blasting S = BurnRun S × List Node

abbrev pub color_of : Option ExplodeCell → ℕ
color_of none = 0
color_of (some c) = c.color

module _ {S : Type 0} where
  -- `light`, past the test for a block that is lit already.
  unfoldable pub light_new : ExplodeWorld S → Link → Bool → BurnRun S → BurnRun S
  unfolding hit truncate is_past
  light_new w n ask_zone r =
      let p = n.place in
      if ask_zone && w.protected_at p
      then hit r
      else if is_past p.x r.root.x r.reach
          || is_past p.z r.root.z r.reach
          || is_past p.y r.root.y r.reach
      then truncate 1 r
      else record r { queue = r.queue ++ n ∷ [] }

  unfoldable pub light : ExplodeWorld S → Link → Bool → BurnRun S → BurnRun S
  light w n ask_zone r =
      let k = key n.place in
      if is_at r.firing n.place
      then record r { refire = true }
      else if has k r.lit
      then r
      else light_new w n ask_zone (record r { lit = k ∷ r.lit })

  unfoldable pub paint_cell : ExplodeWorld S → ℕ → Pos → Option ExplodeCell → BurnRun S → BurnRun S
  paint_cell w color p none r = set_counted w p w.painted_base_type color r
  paint_cell w color p (some c) r =
      if c.kind == w.air_type || (c.kind == w.tnt_type && c.color == 0)
      then r
      else set_uncounted w p c.kind color r

  unfoldable pub break_cell :
      ExplodeWorld S → ℕ → Pos → Option ExplodeCell → Blasting S → Blasting S
  break_cell w depth p none (r, chain) = (set_counted w p w.air_type 0 r, chain)
  break_cell w depth p (some c) (r, chain) =
      if c.kind == w.air_type
      then (r, chain)
      else if c.kind == w.tnt_type
      then (r, chain ++ record { place = p; depth = suc depth } ∷ [])
      else if is_expansion c.kind
      then (light w (record { place = p; kind = c.kind; depth = suc depth }) false r, chain)
      else if c.kind == w.bedrock_type || c.kind == w.steel_type || c.kind == w.golden_type
      then (r, chain)
      else (set_uncounted w p w.air_type 0 r, chain)

  -- The body of the sphere's loop. A `color` above 0 paints.
  unfoldable pub blast_cell : ExplodeWorld S → ℕ → ℕ → Pos → Blasting S → Blasting S
  blast_cell w color depth p (r, chain) =
      let v = visit 1 r in
      if w.protected_at p
      then (hit v, chain)
      else if color == 0
      then break_cell w depth p (w.get p r.world) (v, chain)
      else (paint_cell w color p (w.get p r.world) v, chain)

  unfoldable pub begin_blast : Node → BurnRun S → BurnRun S
  begin_blast n r = record r {
    res = record r.res {
      explosions = suc r.res.explosions;
      max_depth = max r.res.max_depth n.depth;
      visits = r.res.visits + 1;
    };
  }

  unfoldable pub blast : ExplodeWorld S → Node → BurnRun S → Blasting S
  blast w n r =
      let color = color_of (w.get n.place r.world) in
      each (blast_cell w color n.depth) (blast_cells w n.place)
        (set_counted w n.place w.air_type 0 (begin_blast n r), [])

  -- The last loop of a blast: the chain goes on the worklist, whose back is the head here.
  unfoldable pub queue_chain : ℕ → List Node → List Node × BurnRun S → List Node × BurnRun S
  queue_chain max_blasts [] (work, r) = (work, r)
  queue_chain max_blasts (n ∷ chain) (work, r) = queue_chain max_blasts chain (
      if ltb explode_max_depth n.depth
      then (work, r)
      else if ltb (r.res.explosions + length work) max_blasts
      then (n ∷ work, r)
      else (work, truncate 1 r))

  unfoldable pub max_blasts : ExplodeWorld S → ℕ → ℕ
  max_blasts w max_visits = max 1 (max_visits / explode_visits_per_blast w.radius)

  -- `while (!worklist.empty())`; `none` if `fuel` rounds are too few.
  unfoldable pub chain_loop : ExplodeWorld S → ℕ → ℕ → List Node → BurnRun S → Option (BurnRun S)
  chain_loop w m fuel [] r = some r
  chain_loop w m zero (n ∷ work) r = none
  chain_loop w m (suc fuel) (n ∷ work) r =
      let b = blast w n r in
      let next = queue_chain m b.1 (work, b.0) in chain_loop w m fuel next.0 next.1

  unfoldable pub blast_chain : ExplodeWorld S → Pos → BurnRun S → Option (BurnRun S)
  blast_chain w c r =
      let m = max_blasts w r.max_visits in chain_loop w m m (record { place = c; depth = 0 } ∷ []) r
