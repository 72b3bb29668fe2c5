-- ===== src/Explode.antt =====
-- explode.h: what a burn does to the world. A blast works on its sphere of cells and sets off the TNT
-- in it; a lit expansion block fills the box around it. The world's calls are the parameter `World`.
-- A coordinate is an exact integer.
pub mod Blocks
pub mod Blast
pub mod Expand
pub mod Burn
pub mod Kept
pub mod Spheres
pub mod Visits
mod Tests
use ewb_server.Base.{
  ℕ, suc, zero, ◌+◌, ◌-◌, ◌*◌, ◌/◌, ◌%◌, ◌^◌, ◌≤◌, max, ℤ, pos, negsuc, pos_part, neg_part, ◌+ℤ◌,
  ◌-ℤ◌, ltb_ℤ, leb_ℤ, eqb_ℤ, Bool, true, false, not, ◌&&◌, ◌||◌, Option, none, some, List, [], ◌∷◌,
  ◌++◌, ◌==◌, ltb, leb, if◌then◌else◌,
}

abbrev pub explode_max_depth : ℕ
explode_max_depth = 6

unfoldable pub explode_reach : ℕ → ℕ
explode_reach radius = radius * (explode_max_depth + 1)

abbrev pub expand_extent : ℕ
expand_extent = 2

abbrev pub expand_chain_reach : ℕ
expand_chain_reach = 64

unfoldable pub burn_reach : ℕ → ℕ
unfolding explode_reach
burn_reach radius = explode_reach radius + expand_chain_reach

unfoldable pub expand_visits_per_fill : ℕ
expand_visits_per_fill =
    let side = 2 * expand_extent + 1 in
    let box = side * side * (expand_extent + 1) * 2 in
    let ring = 4 * (expand_extent + 1) * 2 in 6 + box + ring * (1 + 4) + box

unfoldable pub expand_visits_per_link : ℕ
unfolding expand_visits_per_fill
expand_visits_per_link = 1 + 2 * expand_visits_per_fill

pub record Pos : Type 0 where
  pub x : ℤ
  pub y : ℤ
  pub z : ℤ

unfoldable pub same_place : Pos → Pos → Bool
same_place p q = eqb_ℤ p.x q.x && eqb_ℤ p.y q.y && eqb_ℤ p.z q.z

pub record ExplodeCell : Type 0 where
  pub kind : ℕ
  pub color : ℕ

-- `S` is the state behind the calls. `set` takes a place, a type and a colour.
pub record ExplodeWorld (S : Type 0) : Type 0 where
  pub get : Pos → S → Option ExplodeCell
  pub set : Pos → ℕ → ℕ → S → S × Bool
  pub protected_at : Pos → Bool
  pub base_type : ℤ → ℕ
  pub air_type : ℕ
  pub tnt_type : ℕ
  pub bedrock_type : ℕ
  pub steel_type : ℕ
  pub golden_type : ℕ
  pub painted_base_type : ℕ
  pub y_min : ℤ
  pub radius : ℕ
  pub y_max : ℤ

pub record ExplodeResult : Type 0 where
  pub refused : ℕ
  pub truncated : ℕ
  pub explosions : ℕ
  pub expansions : ℕ
  pub visits : ℕ
  pub protected_hits : ℕ
  pub max_depth : ℕ

unfoldable pub no_result : ExplodeResult
no_result = record {
  refused = 0;
  truncated = 0;
  explosions = 0;
  expansions = 0;
  visits = 0;
  protected_hits = 0;
  max_depth = 0;
}

-- A lit expansion block.
pub record Link : Type 0 where
  pub place : Pos
  pub kind : ℕ
  pub depth : ℕ

-- TNT that a blast set off.
pub record Node : Type 0 where
  pub place : Pos
  pub depth : ℕ

-- One burn under way: the root, the budget and the reach, which stay, then what changes. `world` is
-- what the calls of the world have made of it.
pub record BurnRun (S : Type 0) : Type 0 where
  pub root : Pos
  pub max_visits : ℕ
  pub reach : ℕ
  pub world : S
  pub res : ExplodeResult
  pub queue : List Link
  pub lit : List ℕ
  pub root_queued : Bool
  pub firing : Option Pos
  pub refire : Bool

-- `n` consecutive integers from `lo`.
abbrev pub span : ℤ → ℕ → List ℤ
span lo zero = []
span lo (suc n) = lo ∷ span (lo +ℤ pos 1) n

-- n - 1, …, 1, 0.
abbrev pub countdown : ℕ → List ℕ
countdown zero = []
countdown (suc n) = n ∷ countdown n

-- A range loop: the body once for each element, in order.
abbrev pub each : {A R : Type 0} → (A → R → R) → List A → R → R
each f [] r = r
each f (a ∷ more) r = each f more (f a r)

-- `std::abs(c - r) > n`.
unfoldable pub is_past : ℤ → ℤ → ℕ → Bool
is_past c r n = ltb_ℤ (pos n) (c -ℤ r) || ltb_ℤ (pos n) (r -ℤ c)

module _ {S : Type 0} where
  abbrev pub is_inside : ExplodeWorld S → ℤ → Bool
  is_inside w y = leb_ℤ w.y_min y && ltb_ℤ y w.y_max

  unfoldable pub start : ExplodeWorld S → Pos → ℕ → S → BurnRun S
  unfolding burn_reach no_result
  start w root max_visits s = record {
    root = root;
    max_visits = max_visits;
    reach = burn_reach w.radius - expand_extent;
    world = s;
    res = no_result;
    queue = [];
    lit = [];
    root_queued = false;
    firing = none;
    refire = false;
  }

  -- The counters of `res`.
  unfoldable pub visit : ℕ → BurnRun S → BurnRun S
  visit n r = record r { res = record r.res { visits = r.res.visits + n } }

  unfoldable pub refuse : BurnRun S → BurnRun S
  refuse r = record r { res = record r.res { refused = suc r.res.refused } }

  unfoldable pub hit : BurnRun S → BurnRun S
  hit r = record r { res = record r.res { protected_hits = suc r.res.protected_hits } }

  unfoldable pub truncate : ℕ → BurnRun S → BurnRun S
  truncate n r = record r { res = record r.res { truncated = r.res.truncated + n } }

  -- `if (!w_.set(…)) ++res.refused;`, and `w_.set(…);` with its result left alone.
  unfoldable pub set_counted : ExplodeWorld S → Pos → ℕ → ℕ → BurnRun S → BurnRun S
  unfolding refuse
  set_counted w p kind color r =
      let after = w.set p kind color r.world in
      let written = record r { world = after.0 } in if after.1 then written else refuse written

  unfoldable pub set_uncounted : ExplodeWorld S → Pos → ℕ → ℕ → BurnRun S → BurnRun S
  set_uncounted w p kind color r = record r { world = (w.set p kind color r.world).0 }
