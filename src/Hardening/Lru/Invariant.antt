-- ===== src/Hardening/Lru/Invariant.antt =====
-- The table never holds more than its capacity, and holds no key twice.
use ewb_server.Base.{
  ℕ, suc, ◌-◌, ◌≤◌, ◌<◌, ◌≡◌, refl, inl, inr, List, [], ◌∷◌, ◌++◌, none, some, ltb, if◌then◌else◌,
  length, Text, text_eq, lookup, erase, text_beq, text_beq_iff, arith, length-erase-le,
  lookup-erase, drop, zero, Bool-cases,
}
use ewb_server.Hardening.Lru.{LruTable, trim_list}

module _ {ℓ} {V : Type ℓ} where
  -- `trim` drops as many of the oldest entries as are over the capacity.
  pub trim_list-drop :
      (cap : ℕ) (order : List (Text × V))
      → trim_list cap order ≡ (drop (length order - cap) order, length order - cap)
  unfolding trim_list
  trim_list-drop cap [] = let e : 0 - cap ≡ 0 = omega arith in rw (e)
  trim_list-drop cap (kv ∷ order) = elim (Bool-cases (ltb cap (suc (length order)))) [
    | inl over ↦
        (let e : suc (length order) - cap ≡ suc (length order - cap) = ground arith in
          rw (over, e, trim_list-drop cap order))
    | inr fits ↦ (let e : suc (length order) - cap ≡ 0 = ground arith in rw (fits, e))
  ]

  -- No key stands twice.
  abbrev pub IsDistinct : List (Text × V) → Type ℓ
  IsDistinct [] = Unit {ℓ}
  IsDistinct ((k, v) ∷ m) = (lookup k m ≡ none) × IsDistinct m

  pub record IsValid (t : LruTable V) : Type ℓ where
    pub room : 0 < t.cap
    pub size : length t.order ≤ t.cap
    pub distinct : IsDistinct t.order

  pub lookup-snoc :
      (k i : Text) (v : V) (m : List (Text × V))
      → lookup k m ≡ none
      → lookup i (m ++ ((k, v) ∷ [])) ≡ (if text_beq k i then some v else lookup i m)
  unfolding lookup
  lookup-snoc k i v [] h = refl
  lookup-snoc k i v ((j, w) ∷ m) h =
      ground (arith, text_beq_iff j i, text_beq_iff j k, text_beq_iff k i, lookup-snoc k i v m)

  pub IsDistinct-snoc :
      (k : Text) (v : V) (m : List (Text × V))
      → lookup k m ≡ none
      → IsDistinct m
      → IsDistinct (m ++ ((k, v) ∷ []))
  unfolding lookup
  IsDistinct-snoc k v [] h d = (refl, tt)
  IsDistinct-snoc k v ((j, w) ∷ m) h d = (
    ground (arith, lookup-snoc k j v m, text_beq_iff j k, text_beq_iff k j, d.0),
    IsDistinct-snoc k v m (ground arith) d.1,
  )

  pub IsDistinct-erase : (k : Text) (m : List (Text × V)) → IsDistinct m → IsDistinct (erase k m)
  unfolding erase
  IsDistinct-erase k [] d = tt
  IsDistinct-erase k ((j, w) ∷ m) d =
      ground (arith, IsDistinct-erase k m d.1, lookup-erase k j m, text_beq_iff k j, d.0)

  pub IsDistinct-drop : (n : ℕ) (m : List (Text × V)) → IsDistinct m → IsDistinct (drop n m)
  IsDistinct-drop zero m d = d
  IsDistinct-drop (suc n) [] d = d
  IsDistinct-drop (suc n) ((j, w) ∷ m) d = IsDistinct-drop n m d.1

  pub erase_absent : (k : Text) (m : List (Text × V)) → lookup k m ≡ none → erase k m ≡ m
  unfolding lookup erase
  erase_absent k [] h = refl
  erase_absent k ((j, w) ∷ m) h = ground (arith, erase_absent k m)

  pub length-erase_found :
      (k : Text) (v : V) (m : List (Text × V))
      → lookup k m ≡ some v
      → suc (length (erase k m)) ≤ length m
  unfolding lookup erase
  length-erase_found k v [] h = cc
  length-erase_found k v ((j, w) ∷ m) h =
      ground (arith, length-erase_found k v m, length-erase-le k m)
