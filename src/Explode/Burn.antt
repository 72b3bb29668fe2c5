-- ===== src/Explode/Burn.antt =====
-- explode.h, `simExplode` and `simBurn`: what one burn does to the world.
use ewb_server.Base.{ℕ, true, Option, none, some, [], ◌∷◌, ◌++◌, ◌==◌, if◌then◌else◌}
use ewb_server.Explode.{Pos, ExplodeCell, ExplodeWorld, BurnRun, start, visit, hit, set_counted}
use ewb_server.Explode.Blocks.{is_expansion}
use ewb_server.Explode.Blast.{blast_chain, key}
use ewb_server.Explode.Expand.{expansions}

module _ {S : Type 0} where
  unfoldable pub light_root : Pos → ℕ → BurnRun S → BurnRun S
  light_root p kind r = record r {
    lit = key p ∷ r.lit;
    queue = r.queue ++ record { place = p; kind = kind; depth = 0 } ∷ [];
    root_queued = true;
  }

  unfoldable pub then_expand : ExplodeWorld S → Option (BurnRun S) → Option (BurnRun S)
  then_expand w none = none
  then_expand w (some r) = expansions w r

  -- Both give the run, of which the code returns `res`, and change the world.
  unfoldable pub sim_explode : ExplodeWorld S → Pos → ℕ → S → Option (BurnRun S)
  sim_explode w c max_visits s =
      if w.protected_at c
      then some (hit (start w c max_visits s))
      else then_expand w (blast_chain w c (start w c max_visits s))

  unfoldable pub burn_cell : ExplodeWorld S → Pos → ℕ → S → Option ExplodeCell → Option (BurnRun S)
  burn_cell w p max_visits s none = some (visit 1 (start w p max_visits s))
  burn_cell w p max_visits s (some c) =
      if c.kind == w.air_type
      then some (visit 1 (start w p max_visits s))
      else if c.kind == w.tnt_type
      then sim_explode w p max_visits s
      else if is_expansion c.kind
      then expansions w (light_root p c.kind (visit 1 (start w p max_visits s)))
      else some (set_counted w p w.air_type 0 (visit 1 (start w p max_visits s)))

  unfoldable pub sim_burn : ExplodeWorld S → Pos → ℕ → S → Option (BurnRun S)
  sim_burn w p max_visits s =
      if w.protected_at p
      then some (hit (start w p max_visits s))
      else burn_cell w p max_visits s (w.get p s)
