-- ===== src/Explode/Kept/Blasts.antt =====
-- explode.h, `blastChain`: every blast keeps what `Kept` says, and the chain ends in time.
use ewb_server.Base.{
  ℕ, zero, suc, ◌+◌, ◌≤◌, ◌≡◌, refl, sym, subst, Bool, true, false, Bool-cases, inl, inr, Option,
  none, some, List, [], ◌∷◌, ◌++◌, All, All-append, arith, length, ltb, ◌==◌, ◌&&◌, ◌||◌,
  if◌then◌else◌,
}
use ewb_server.Explode.{
  Pos, ExplodeCell, ExplodeWorld, BurnRun, Node, visit, truncate, set_uncounted, explode_max_depth,
}
use ewb_server.Explode.Blast.{
  Blasting, paint_cell, break_cell, blast_cell, begin_blast, blast, queue_chain, max_blasts,
  chain_loop, blast_chain, blast_cells, light,
}
use ewb_server.Explode.Kept.{
  IsFree, Kept, Keeps, each-keeps, Kept-visit, Kept-less, Kept-hit, Kept-truncate, Kept-set_counted,
  Kept-set_uncounted, Kept-light,
}

abbrev pub IsFreeNode : {S : Type 0} → ExplodeWorld S → Node → Type 0
IsFreeNode w n = IsFree w n.place

-- A worklist that the number of blasts still allows.
record Waiting {S : Type 0} (w : ExplodeWorld S) (I : S → Type 0) (b e m : ℕ)
    (q : List Node × BurnRun S) : Type 0 where
  run : Kept w I b e 0 q.1
  work : All (IsFreeNode w) q.0
  room : e + length q.0 ≤ m

-- The loops have ended, after `m` blasts at most.
pub record Done {S : Type 0} (w : ExplodeWorld S) (I : S → Type 0) (b m : ℕ)
    (o : Option (BurnRun S)) : Type 0 where
  pub run : BurnRun S
  pub returns : o ≡ some run
  pub blasts : ℕ
  pub kept : Kept w I b blasts 0 run
  pub bounded : blasts ≤ m

abbrev KeptBlast : {S : Type 0} → ExplodeWorld S → (S → Type 0) → ℕ → ℕ → ℕ → Blasting S → Type 0
KeptBlast w I b e v a = Kept w I b e v a.0 × All (IsFreeNode w) a.1

module _ {S : Type 0} {w : ExplodeWorld S} {I : S → Type 0} (keeps : Keeps w I) {b e v : ℕ} where
  Kept-paint_cell :
      (color : ℕ) (p : Pos) (c : Option ExplodeCell) (r : BurnRun S)
      → IsFree w p
      → Kept w I b e v r
      → Kept w I b e v (paint_cell w color p c r)
  unfolding paint_cell
  Kept-paint_cell color p none r free k =
      Kept-set_counted keeps p w.painted_base_type color r free k
  Kept-paint_cell color p (some c) r free k =
      elim (Bool-cases (c.kind == w.air_type || (c.kind == w.tnt_type && c.color == 0))) [
        | inl h ↦ rw h k
        | inr h ↦ rw h (Kept-set_uncounted keeps p c.kind color r free k)
      ]

  break_known :
      (depth : ℕ) (p : Pos) (c : ExplodeCell) (air tnt lights hard : Bool) (a : Blasting S)
      → IsFree w p
      → KeptBlast w I b e v a
      → KeptBlast w I b e v (
          if air
          then a
          else if tnt
          then (a.0, a.1 ++ record { place = p; depth = suc depth } ∷ [])
          else if lights
          then (light w (record { place = p; kind = c.kind; depth = suc depth }) false a.0, a.1)
          else if hard
          then a
          else (set_uncounted w p w.air_type 0 a.0, a.1))
  break_known depth p c true tnt lights hard a free k = k
  break_known depth p c false true lights hard a free k =
      (k.0, All-append (IsFreeNode w) a.1 (_ ∷ []) k.1 (free, tt))
  break_known depth p c false false true hard a free k =
      (Kept-light keeps _ false a.0 (λ (u : false ≡ false). free) k.0, k.1)
  break_known depth p c false false false true a free k = k
  break_known depth p c false false false false a free k =
      (Kept-set_uncounted keeps p w.air_type 0 a.0 free k.0, k.1)

  KeptBlast-break_cell :
      (depth : ℕ) (p : Pos) (c : Option ExplodeCell) (a : Blasting S)
      → IsFree w p
      → KeptBlast w I b e v a
      → KeptBlast w I b e v (break_cell w depth p c a)
  unfolding break_cell
  KeptBlast-break_cell depth p none a free k =
      (Kept-set_counted keeps p w.air_type 0 a.0 free k.0, k.1)
  KeptBlast-break_cell depth p (some c) a free k = break_known depth p c _ _ _ _ a free k

  KeptBlast-blast_cell :
      (color depth : ℕ) (p : Pos) (a : Blasting S)
      → KeptBlast w I b e v a
      → KeptBlast w I b e v (blast_cell w color depth p a)
  unfolding blast_cell
  KeptBlast-blast_cell color depth p (r, chain) k =
      let read : Kept w I b e v (visit 1 r) =
        Kept-less keeps v _ (omega arith) (Kept-visit keeps 1 r k.0) in
      elim (Bool-cases (w.protected_at p)) [
        | inl h ↦ rw h (Kept-hit keeps _ read, k.1)
        | inr h ↦ rw h (elim (Bool-cases (color == 0)) [
          | inl g ↦ rw g (KeptBlast-break_cell depth p _ (_, chain) h (read, k.1))
          | inr g ↦ rw g (Kept-paint_cell color p _ _ h read, k.1)
        ])
      ]

  Kept-begin_blast :
      (n : Node) (r : BurnRun S) → Kept w I b e v r → Kept w I b (suc e) v (begin_blast n r)
  unfolding begin_blast
  Kept-begin_blast n r k = record {
    world = k.world;
    queue = k.queue;
    budget = k.budget;
    blasts = omega (arith, k.blasts);
    read = omega (arith, k.read);
  }

pub max_blasts-positive : {S : Type 0} → (w : ExplodeWorld S) (b : ℕ) → 1 ≤ max_blasts w b
unfolding max_blasts
max_blasts-positive w b = omega arith

module _ {S : Type 0} {w : ExplodeWorld S} {I : S → Type 0} (keeps : Keeps w I) {b : ℕ} where
  KeptBlast-blast :
      (e : ℕ) (n : Node) (r : BurnRun S)
      → IsFreeNode w n
      → Kept w I b e 0 r
      → KeptBlast w I b (suc e) 0 (blast w n r)
  unfolding blast
  KeptBlast-blast e n r free k =
      each-keeps (KeptBlast w I b (suc e) 0) _ (KeptBlast-blast_cell keeps _ n.depth)
        (blast_cells w n.place) _
        (Kept-set_counted keeps n.place w.air_type 0 _ free (Kept-begin_blast keeps n r k), tt)

  Waiting-push :
      (e m : ℕ) (n : Node) (work : List Node) (r : BurnRun S)
      → IsFreeNode w n
      → Waiting w I b e m (work, r)
      → Waiting w I b e m (
          if ltb explode_max_depth n.depth
          then (work, r)
          else if ltb (r.res.explosions + length work) m
          then (n ∷ work, r)
          else (work, truncate 1 r))
  Waiting-push e m n work r free k = elim (Bool-cases (ltb explode_max_depth n.depth)) [
    | inl h ↦ rw h k
    | inr h ↦ rw h (elim (Bool-cases (ltb (r.res.explosions + length work) m)) [
      | inl g ↦
          rw g (record {
            run = k.run;
            work = (free, k.work);
            room = ground (arith, g, (k.run).blasts);
          })
      | inr g ↦ rw g (record { run = Kept-truncate keeps 1 r k.run; work = k.work; room = k.room })
    ])
  ]

  Waiting-queue_chain :
      (e m : ℕ) (chain work : List Node) (r : BurnRun S)
      → All (IsFreeNode w) chain
      → Waiting w I b e m (work, r)
      → Waiting w I b e m (queue_chain m chain (work, r))
  unfolding queue_chain
  Waiting-queue_chain e m [] work r free k = k
  Waiting-queue_chain e m (n ∷ chain) work r free k =
      Waiting-queue_chain e m chain _ _ free.1 (Waiting-push e m n work r free.0 k)

  chain_loop-Done :
      (fuel e m : ℕ) (work : List Node) (r : BurnRun S)
      → m ≤ fuel + e
      → Waiting w I b e m (work, r)
      → Done w I b m (chain_loop w m fuel work r)
  unfolding chain_loop
  chain_loop-Done fuel e m [] r h k = record {
    run = r;
    returns = refl;
    blasts = e;
    kept = k.run;
    bounded = omega (arith, k.room);
  }
  chain_loop-Done zero e m (n ∷ work) r h k = absurd (omega (arith, h, k.room))
  chain_loop-Done (suc fuel) e m (n ∷ work) r h k =
      let kept = KeptBlast-blast e n r (k.work).0 k.run in
      chain_loop-Done fuel (suc e) m _ _ (omega (arith, h)) (
        Waiting-queue_chain (suc e) m (blast w n r).1 work (blast w n r).0 kept.1
          record { run = kept.0; work = (k.work).1; room = omega (arith, k.room) })

  pub blast_chain-Done :
      (c : Pos) (r : BurnRun S)
      → IsFree w c
      → Kept w I b 0 0 r
      → Done w I b (max_blasts w b) (blast_chain w c r)
  unfolding blast_chain
  blast_chain-Done c r free k =
      let m : ℕ = max_blasts w b in
      let root : List Node = record { place = c; depth = 0 } ∷ [] in
      subst (λ (n : ℕ). Done w I b m (chain_loop w (max_blasts w n) (max_blasts w n) root r))
        (sym k.budget)
        (chain_loop-Done m 0 m root r (omega arith)
          record { run = k; work = (free, tt); room = max_blasts-positive w b })
