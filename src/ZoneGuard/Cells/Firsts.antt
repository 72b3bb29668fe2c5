-- ===== src/ZoneGuard/Cells/Firsts.antt =====
-- zone_guard.h, `ZoneCellSet`: which cells the set holds.
use ewb_server.Base.{
  ℕ, zero, suc, ◌-◌, ◌^◌, ◌≡◌, refl, sym, ap, ◌∙◌, ℤ, pos, negsuc, pos_part, ◌≤ℤ◌, ◌<ℤ◌, eqb_ℤ,
  Bool, true, false, ◌&&◌, ◌||◌, ◌==◌, Bool-cases, inl, inr, List, [], ◌∷◌, ◌++◌, map, All,
  append-nil, append_assoc, arith, leb, if◌then◌else◌, length, length-append, take,
}
use ewb_server.ZoneGuard.Cells.{
  RevertCell, low_bits, ZoneCellSet, zone_cell_key, has, add, add_all, empty_set,
}

-- A cell that the world can hold: no two have one key.
pub record IsCell (c : RevertCell) : Type 0 where
  pub x : (pos 0 ≤ℤ c.x) × (c.x <ℤ pos (2 ^ 24))
  pub y : (pos 0 ≤ℤ c.y) × (c.y <ℤ pos (2 ^ 16))
  pub z : (pos 0 ≤ℤ c.z) × (c.z <ℤ pos (2 ^ 24))

abbrev pub same_cell : RevertCell → RevertCell → Bool
same_cell c d = eqb_ℤ c.x d.x && eqb_ℤ c.y d.y && eqb_ℤ c.z d.z

abbrev pub is_among : RevertCell → List RevertCell → Bool
is_among c [] = false
is_among c (d ∷ ds) = same_cell c d || is_among c ds

-- The cells that come for the first time, in order; those of `seen` came before.
abbrev pub firsts : List RevertCell → List RevertCell → List RevertCell
firsts seen [] = []
firsts seen (c ∷ cs) =
    let old = firsts seen cs in
    let new = firsts (c ∷ seen) cs in if is_among c seen then old else c ∷ new

low_bits_24 : (c : ℤ) → pos 0 ≤ℤ c → c <ℤ pos (2 ^ 24) → low_bits 24 c ≡ pos_part c
unfolding low_bits
low_bits_24 (pos n) h k = omega (arith, k)
low_bits_24 (negsuc n) h k = absurd (omega (arith, h))

low_bits_16 : (c : ℤ) → pos 0 ≤ℤ c → c <ℤ pos (2 ^ 16) → low_bits 16 c ≡ pos_part c
unfolding low_bits
low_bits_16 (pos n) h k = omega (arith, k)
low_bits_16 (negsuc n) h k = absurd (omega (arith, h))

-- The keys of two cells are the same exactly if the cells are.
zone_cell_key-same_cell :
    (c d : RevertCell) → IsCell c → IsCell d → (zone_cell_key c == zone_cell_key d) ≡ same_cell c d
unfolding zone_cell_key
zone_cell_key-same_cell c d k l =
    rw
      (
        low_bits_24 c.x (k.x).0 (k.x).1,
        low_bits_16 c.y (k.y).0 (k.y).1,
        low_bits_24 c.z (k.z).0 (k.z).1,
        low_bits_24 d.x (l.x).0 (l.x).1,
        low_bits_16 d.y (l.y).0 (l.y).1,
        low_bits_24 d.z (l.z).0 (l.z).1,
      )
      (ground (arith, k.x, k.y, k.z, l.x, l.y, l.z))

take-full : (n : ℕ) (xs : List RevertCell) → n ≡ 0 → take n xs ≡ []
take-full zero xs h = refl
take-full (suc n) xs h = absurd (omega (arith, h))

take-room :
    (n m : ℕ) (c : RevertCell) (xs : List RevertCell) → n ≡ suc m → take n (c ∷ xs) ≡ c ∷ take m xs
take-room zero m c xs h = absurd (omega (arith, h))
take-room (suc n) m c xs h = ap (λ (k : ℕ). c ∷ take k xs) (omega (arith, h))

take-nil : (n : ℕ) → take {A = RevertCell} n [] ≡ []
take-nil zero = refl
take-nil (suc n) = refl

add-seen :
    (c : RevertCell) (s : ZoneCellSet) → has (zone_cell_key c) s.seen ≡ true → (add c s).0 ≡ s
unfolding add
add-seen c s h = rw h refl

add-full :
    (c : RevertCell) (s : ZoneCellSet)
    → has (zone_cell_key c) s.seen ≡ false
    → leb s.cap (length s.cells) ≡ true
    → (add c s).0 ≡ record s { overflow = suc s.overflow }
unfolding add
add-full c s h g = rw (h, g) refl

add-room :
    (c : RevertCell) (s : ZoneCellSet)
    → has (zone_cell_key c) s.seen ≡ false
    → leb s.cap (length s.cells) ≡ false
    → (add c s).0 ≡ record s { seen = zone_cell_key c ∷ s.seen; cells = s.cells ++ c ∷ [] }
unfolding add
add-room c s h g = rw (h, g) refl

-- With no room, nothing is taken, whatever comes.
none_left :
    (s : ZoneCellSet) (xs ys : List RevertCell)
    → leb s.cap (length s.cells) ≡ true
    → take (s.cap - length s.cells) xs ≡ take (s.cap - length s.cells) ys
none_left s xs ys g = take-full _ xs (ground (arith, g)) ∙ sym (take-full _ ys (ground (arith, g)))

one_more :
    (c : RevertCell) (s : ZoneCellSet) (xs : List RevertCell)
    → leb s.cap (length s.cells) ≡ false
    → (s.cells ++ c ∷ []) ++ take (s.cap - length (s.cells ++ c ∷ [])) xs
      ≡ s.cells ++ take (s.cap - length s.cells) (c ∷ xs)
one_more c s xs g =
    let n = s.cap - length (s.cells ++ c ∷ []) in
    append_assoc s.cells (c ∷ []) (take n xs)
    ∙ ap (λ (t : List RevertCell). s.cells ++ t)
        (sym (take-room _ n c xs (ground (arith, g, length-append s.cells (c ∷ [])))))

has-is_among :
    (c : RevertCell) (ds : List RevertCell)
    → IsCell c
    → All IsCell ds
    → has (zone_cell_key c) (map zone_cell_key ds) ≡ is_among c ds
has-is_among c [] k h = refl
has-is_among c (d ∷ ds) k h = rw (zone_cell_key-same_cell c d k h.0, has-is_among c ds k h.1) refl

-- `ds` are the cells whose keys the set has seen.
cells-add_all :
    (cs ds : List RevertCell) (s : ZoneCellSet)
    → s.seen ≡ map zone_cell_key ds
    → All IsCell ds
    → All IsCell cs
    → (add_all cs s).cells ≡ s.cells ++ take (s.cap - length s.cells) (firsts ds cs)
unfolding add_all
cells-add_all [] ds s keys hd hc =
    sym (ap (λ (t : List RevertCell). s.cells ++ t) (take-nil _) ∙ append-nil s.cells)
cells-add_all (c ∷ cs) ds s keys hd hc =
    let among : is_among c ds ≡ has (zone_cell_key c) s.seen =
      rw keys (sym (has-is_among c ds hc.0 hd)) in
    elim (Bool-cases (has (zone_cell_key c) s.seen)) [
      | inl h ↦
          (let old : is_among c ds ≡ true = among ∙ h in
            ap (λ (t : ZoneCellSet). (add_all cs t).cells) (add-seen c s h)
            ∙ rw old (cells-add_all cs ds s keys hd hc.1))
      | inr h ↦
          (let new : is_among c ds ≡ false = among ∙ h in
            elim (Bool-cases (leb s.cap (length s.cells))) [
              | inl g ↦
                  ap (λ (t : ZoneCellSet). (add_all cs t).cells) (add-full c s h g)
                  ∙ cells-add_all cs ds _ keys hd hc.1
                  ∙ ap (λ (t : List RevertCell). s.cells ++ t) (none_left s _ _ g)
              | inr g ↦
                  ap (λ (t : ZoneCellSet). (add_all cs t).cells) (add-room c s h g)
                  ∙ cells-add_all cs (c ∷ ds) _ (ap (λ (t : List ℕ). zone_cell_key c ∷ t) keys)
                      (hc.0, hd) hc.1
                  ∙ one_more c s _ g
                  ∙ rw new refl
            ])
    ]

-- Whatever cells of the world come, and however often, the set restores the first `cap` different
-- ones among them, in the order in which they first came.
pub add_all-firsts :
    (cap : ℕ) (cs : List RevertCell)
    → All IsCell cs
    → (add_all cs (empty_set cap)).cells ≡ take cap (firsts [] cs)
unfolding empty_set
add_all-firsts cap cs h =
    cells-add_all cs [] (empty_set cap) refl tt h
    ∙ ap (λ (n : ℕ). take n (firsts [] cs)) (omega arith)
