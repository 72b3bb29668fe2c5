-- ===== src/Explode/Kept.antt =====
-- explode.h: what every move of a burn keeps. `I` is any property of the world that writing to a cell
-- outside the protected zones keeps.
pub mod Blasts
pub mod Fills
pub mod Burns
use ewb_server.Base.{
  ℕ, suc, ◌+◌, ◌≤◌, ◌≡◌, refl, Bool, true, false, Bool-cases, ◌⊎◌, inl, inr, Option, none, some,
  List, [], ◌∷◌, ◌++◌, All, All-append, arith, if◌then◌else◌,
}
use ewb_server.Explode.{
  Pos, ExplodeWorld, BurnRun, Link, each, is_past, visit, hit, truncate, refuse, set_counted,
  set_uncounted,
}
use ewb_server.Explode.Blast.{light, light_new, key, has, is_at}

abbrev pub IsFree : {S : Type 0} → ExplodeWorld S → Pos → Type 0
IsFree w p = w.protected_at p ≡ false

abbrev pub IsFreeLink : {S : Type 0} → ExplodeWorld S → Link → Type 0
IsFreeLink w n = IsFree w n.place

-- The property holds, no lit block is protected, and the numbers: the budget is `b`, `e` blasts have
-- run, and at least `v` cells were read.
pub record Kept {S : Type 0} (w : ExplodeWorld S) (I : S → Type 0) (b e v : ℕ) (r : BurnRun S)
    : Type 0 where
  pub world : I r.world
  pub queue : All (IsFreeLink w) r.queue
  pub budget : r.max_visits ≡ b
  pub blasts : r.res.explosions ≡ e
  pub read : v ≤ r.res.visits

abbrev pub Keeps : {S : Type 0} → ExplodeWorld S → (S → Type 0) → Type 0
Keeps {S} w I = (p : Pos) (kind color : ℕ) (s : S) → IsFree w p → I s → I (w.set p kind color s).0

pub each-keeps :
    {A R : Type 0} (P : R → Type 0) (f : A → R → R)
    → ((a : A) (r : R) → P r → P (f a r))
    → (xs : List A) (r : R) → P r
    → P (each f xs r)
each-keeps P f k [] r h = h
each-keeps P f k (x ∷ xs) r h = each-keeps P f k xs (f x r) (k x r h)

module _ {S : Type 0} {w : ExplodeWorld S} {I : S → Type 0} (keeps : Keeps w I) {b e v : ℕ} where
  pub Kept-visit : (n : ℕ) (r : BurnRun S) → Kept w I b e v r → Kept w I b e (v + n) (visit n r)
  unfolding visit
  Kept-visit n r k = record {
    world = k.world;
    queue = k.queue;
    budget = k.budget;
    blasts = k.blasts;
    read = omega (arith, k.read);
  }

  pub Kept-less : (n : ℕ) (r : BurnRun S) → n ≤ v → Kept w I b e v r → Kept w I b e n r
  Kept-less n r h k = record {
    world = k.world;
    queue = k.queue;
    budget = k.budget;
    blasts = k.blasts;
    read = omega (arith, h, k.read);
  }

  pub Kept-hit : (r : BurnRun S) → Kept w I b e v r → Kept w I b e v (hit r)
  unfolding hit
  Kept-hit r k = record {
    world = k.world;
    queue = k.queue;
    budget = k.budget;
    blasts = k.blasts;
    read = k.read;
  }

  pub Kept-truncate : (n : ℕ) (r : BurnRun S) → Kept w I b e v r → Kept w I b e v (truncate n r)
  unfolding truncate
  Kept-truncate n r k = record {
    world = k.world;
    queue = k.queue;
    budget = k.budget;
    blasts = k.blasts;
    read = k.read;
  }

  pub Kept-set_uncounted :
      (p : Pos) (kind color : ℕ) (r : BurnRun S)
      → IsFree w p
      → Kept w I b e v r
      → Kept w I b e v (set_uncounted w p kind color r)
  unfolding set_uncounted
  Kept-set_uncounted p kind color r free k = record {
    world = keeps p kind color r.world free k.world;
    queue = k.queue;
    budget = k.budget;
    blasts = k.blasts;
    read = k.read;
  }

  Kept-refuse : (r : BurnRun S) → Kept w I b e v r → Kept w I b e v (refuse r)
  unfolding refuse
  Kept-refuse r k = record {
    world = k.world;
    queue = k.queue;
    budget = k.budget;
    blasts = k.blasts;
    read = k.read;
  }

  pub Kept-set_counted :
      (p : Pos) (kind color : ℕ) (r : BurnRun S)
      → IsFree w p
      → Kept w I b e v r
      → Kept w I b e v (set_counted w p kind color r)
  unfolding set_counted set_uncounted
  Kept-set_counted p kind color r free k = elim (Bool-cases (w.set p kind color r.world).1) [
    | inl h ↦ rw h (Kept-set_uncounted p kind color r free k)
    | inr h ↦ rw h (Kept-refuse _ (Kept-set_uncounted p kind color r free k))
  ]

  Kept-push :
      (n : Link) (r : BurnRun S)
      → IsFreeLink w n
      → Kept w I b e v r
      → Kept w I b e v (record r { queue = r.queue ++ n ∷ [] })
  Kept-push n r free k = record {
    world = k.world;
    queue = All-append (IsFreeLink w) r.queue (n ∷ []) k.queue (free, tt);
    budget = k.budget;
    blasts = k.blasts;
    read = k.read;
  }

  Kept-marks :
      (r : BurnRun S) (refire : Bool) (lit : List ℕ)
      → Kept w I b e v r
      → Kept w I b e v (record r { refire = refire; lit = lit })
  Kept-marks r refire lit k = record {
    world = k.world;
    queue = k.queue;
    budget = k.budget;
    blasts = k.blasts;
    read = k.read;
  }

  Kept-reached :
      (far : Bool) (n : Link) (r : BurnRun S)
      → IsFreeLink w n
      → Kept w I b e v r
      → Kept w I b e v (if far then truncate 1 r else record r { queue = r.queue ++ n ∷ [] })
  Kept-reached true n r free k = Kept-truncate 1 r k
  Kept-reached false n r free k = Kept-push n r free k

  Kept-light_new :
      (n : Link) (ask : Bool) (r : BurnRun S)
      → (ask ≡ false → IsFreeLink w n)
      → Kept w I b e v r
      → Kept w I b e v (light_new w n ask r)
  unfolding light_new
  Kept-light_new n true r free k = elim (Bool-cases (w.protected_at n.place)) [
    | inl h ↦ rw h (Kept-hit r k)
    | inr h ↦ rw h (Kept-reached _ n r h k)
  ]
  Kept-light_new n false r free k = Kept-reached _ n r (free refl) k

  pub Kept-light :
      (n : Link) (ask : Bool) (r : BurnRun S)
      → (ask ≡ false → IsFreeLink w n)
      → Kept w I b e v r
      → Kept w I b e v (light w n ask r)
  unfolding light
  Kept-light n ask r free k = elim (Bool-cases (is_at r.firing n.place)) [
    | inl h ↦ rw h (Kept-marks r _ r.lit k)
    | inr h ↦ rw h (elim (Bool-cases (has (key n.place) r.lit)) [
      | inl g ↦ rw g k
      | inr g ↦ rw g (Kept-light_new n ask _ free (Kept-marks r r.refire _ k))
    ])
  ]
