-- ===== src/Explode/Kept/Burns.antt =====
-- explode.h, `simExplode` and `simBurn`: every burn ends, and leaves protected cells as they were.
use ewb_server.Base.{
  ℕ, ◌≤◌, ◌/◌, max, ◌≡◌, ◌≢◌, refl, ◌∙◌, ap, Bool, true, false, Bool-cases, inl, inr, Option, none,
  some, [], arith, if◌then◌else◌,
}
use ewb_server.Explode.{
  Pos, ExplodeCell, ExplodeWorld, BurnRun, start, no_result, visit, set_counted,
}
use ewb_server.Explode.Blast.{max_blasts, explode_visits_per_blast}
use ewb_server.Explode.Expand.{expansions}
use ewb_server.Explode.Burn.{light_root, then_expand, sim_explode, burn_cell, sim_burn}
use ewb_server.Explode.Kept.{IsFree, Kept, Keeps, Kept-visit, Kept-less, Kept-hit, Kept-set_counted}
use ewb_server.Explode.Kept.Blasts.{Done, blast_chain-Done}
use ewb_server.Explode.Kept.Fills.{expansions-Done}

empty_queue :
    {S : Type 0}
    → (w : ExplodeWorld S) (c : Pos) (b : ℕ) (s : S) → (visit 1 (start w c b s)).queue ≡ []
unfolding visit start
empty_queue w c b s = refl

module _ {S : Type 0} {w : ExplodeWorld S} {I : S → Type 0} (keeps : Keeps w I) where
  start-Kept : (c : Pos) (b : ℕ) (s : S) → I s → Kept w I b 0 0 (start w c b s)
  unfolding start no_result
  start-Kept c b s h = record {
    world = h;
    queue = tt;
    budget = refl;
    blasts = refl;
    read = omega arith;
  }

  read : (c : Pos) (b : ℕ) (s : S) → I s → Kept w I b 0 0 (visit 1 (start w c b s))
  read c b s h = Kept-less keeps 0 _ (omega arith) (Kept-visit keeps 1 _ (start-Kept c b s h))

  -- A run without a blast.
  quiet : (b : ℕ) (r : BurnRun S) → Kept w I b 0 0 r → Done w I b (max_blasts w b) (some r)
  quiet b r k = record { run = r; returns = refl; blasts = 0; kept = k; bounded = omega arith }

  then_expand-Done :
      (b : ℕ) (o : Option (BurnRun S))
      → Done w I b (max_blasts w b) o
      → Done w I b (max_blasts w b) (then_expand w o)
  unfolding then_expand
  then_expand-Done b o d =
      rw d.returns (expansions-Done keeps (max_blasts w b) d.run d.bounded d.kept)

  sim_explode-Done :
      (c : Pos) (b : ℕ) (s : S) → I s → Done w I b (max_blasts w b) (sim_explode w c b s)
  unfolding sim_explode
  sim_explode-Done c b s h =
      let k = start-Kept c b s h in
      elim (Bool-cases (w.protected_at c)) [
        | inl g ↦ rw g (quiet b _ (Kept-hit keeps _ k))
        | inr g ↦ rw g (then_expand-Done b _ (blast_chain-Done keeps c _ g k))
      ]

  light_root-Kept :
      (p : Pos) (kind b : ℕ) (r : BurnRun S)
      → IsFree w p
      → r.queue ≡ []
      → Kept w I b 0 0 r
      → Kept w I b 0 0 (light_root p kind r)
  unfolding light_root
  light_root-Kept p kind b r free empty k = record {
    world = k.world;
    queue = rw empty (free, tt);
    budget = k.budget;
    blasts = k.blasts;
    read = k.read;
  }

  burn_known :
      (p : Pos) (b : ℕ) (s : S) (c : ExplodeCell) (air tnt lights : Bool)
      → IsFree w p
      → I s
      → Done w I b (max_blasts w b) (
          if air
          then some (visit 1 (start w p b s))
          else if tnt
          then sim_explode w p b s
          else if lights
          then expansions w (light_root p c.kind (visit 1 (start w p b s)))
          else some (set_counted w p w.air_type 0 (visit 1 (start w p b s))))
  burn_known p b s c true tnt lights free h = quiet b _ (read p b s h)
  burn_known p b s c false true lights free h = sim_explode-Done p b s h
  burn_known p b s c false false true free h =
      expansions-Done keeps (max_blasts w b) _ (omega arith)
        (light_root-Kept p c.kind b _ free (empty_queue w p b s) (read p b s h))
  burn_known p b s c false false false free h =
      quiet b _ (Kept-set_counted keeps p w.air_type 0 _ free (read p b s h))

  burn_cell-Done :
      (p : Pos) (b : ℕ) (s : S) (o : Option ExplodeCell)
      → IsFree w p
      → I s
      → Done w I b (max_blasts w b) (burn_cell w p b s o)
  unfolding burn_cell
  burn_cell-Done p b s none free h = quiet b _ (read p b s h)
  burn_cell-Done p b s (some c) free h = burn_known p b s c _ _ _ free h

  pub sim_burn-Done :
      (p : Pos) (b : ℕ) (s : S) → I s → Done w I b (max_blasts w b) (sim_burn w p b s)
  unfolding sim_burn
  sim_burn-Done p b s h = elim (Bool-cases (w.protected_at p)) [
    | inl g ↦ rw g (quiet b _ (Kept-hit keeps _ (start-Kept p b s h)))
    | inr g ↦ rw g (burn_cell-Done p b s (w.get p s) g h)
  ]

-- `set` writes no cell but its own.
abbrev pub WritesOne : {S : Type 0} → ExplodeWorld S → Type 0
WritesOne {S} w =
    (p q : Pos) (kind color : ℕ) (s : S) → q ≢ p → w.get q (w.set p kind color s).0 ≡ w.get q s

-- How the protected cells stood.
abbrev Untouched : {S : Type 0} → ExplodeWorld S → S → S → Type 0
Untouched w s t = (q : Pos) → w.protected_at q ≡ true → w.get q t ≡ w.get q s

Untouched-Keeps :
    {S : Type 0} → (w : ExplodeWorld S) (s : S) → WritesOne w → Keeps w (Untouched w s)
Untouched-Keeps w s one p kind color t free h q zone =
    one p q kind color t (λ (e : q ≡ p). ground (arith, ap w.protected_at e, zone, free)) ∙ h q zone

-- Where `set` writes no cell but its own, every burn ends, whatever it sets off, and every cell that
-- is protected is then as it was before.
pub sim_burn-Contained :
    {S : Type 0}
    → (w : ExplodeWorld S) (p : Pos) (max_visits : ℕ) (s : S) → WritesOne w
    → (r : BurnRun S) × (sim_burn w p max_visits s ≡ some r)
      × ((q : Pos) → w.protected_at q ≡ true → w.get q r.world ≡ w.get q s)
sim_burn-Contained w p max_visits s one =
    let d =
      sim_burn-Done (Untouched-Keeps w s one) p max_visits s
        (λ (q : Pos) (zone : w.protected_at q ≡ true). refl) in
    (d.run, d.returns, (d.kept).world)

-- Every burn ends after as many blasts as the budget has room for, or after one if it has room for
-- none.
pub sim_burn-bounded :
    {S : Type 0}
    → (w : ExplodeWorld S) (p : Pos) (max_visits : ℕ) (s : S)
    → (r : BurnRun S) × (sim_burn w p max_visits s ≡ some r)
      × (r.res.explosions ≤ max 1 (max_visits / explode_visits_per_blast w.radius))
unfolding max_blasts
sim_burn-bounded {S} w p max_visits s =
    let d =
      sim_burn-Done {w = w} {I = λ (t : S). Unit {0}}
        (λ (q : Pos) (kind color : ℕ) (t : S) (free : IsFree w q) (u : Unit {0}). tt) p max_visits s
        tt in
    (d.run, d.returns, omega (arith, (d.kept).blasts, d.bounded))
