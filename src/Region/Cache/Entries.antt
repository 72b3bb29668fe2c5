-- ===== src/Region/Cache/Entries.antt =====
-- What the lookups and the evictions do to the entries: their bytes, and that no key stands twice.
use ewb_server.Base.{
  ℕ, ◌+◌, ◌≤◌, ◌≡◌, refl, subst, sym, ◌⊎◌, inl, inr, [], ◌∷◌, Bool, true, false, ◌&&◌, none, some,
  ltb, arith, Bool-cases, ℤ, eqb_ℤ, eq_of_parts,
}
use ewb_server.Region.{RegionCacheKey, CachedRegion}
use ewb_server.Region.Cache.{key_beq, Entries, entry_at, without, evict_list, same_flag}

-- The bytes of all replies.
abbrev pub total : Entries → ℕ
total [] = 0
total ((k, e) ∷ es) = e.bytes + total es

abbrev pub IsDistinct : Entries → Type 0
IsDistinct [] = Unit {0}
IsDistinct ((k, e) ∷ es) = (entry_at k es ≡ none) × IsDistinct es

eqb_eq : (a b : ℤ) → eqb_ℤ a b ≡ true → a ≡ b
eqb_eq a b h = eq_of_parts a b (ground arith)

flag_eq : (a b : Bool) → same_flag a b ≡ true → a ≡ b
flag_eq true b h = sym h
flag_eq false true h = cc
flag_eq false false h = refl

and_true : {a b : Bool} → (a && b) ≡ true → (a ≡ true) × (b ≡ true)
and_true {a = true} h = (refl, h)
and_true {a = false} h = cc

key_beq_eq : (a b : RegionCacheKey) → key_beq a b ≡ true → a ≡ b
unfolding key_beq
key_beq_eq a b h =
    let (h4, e) = and_true h in
    let (h3, d) = and_true h4 in
    let (h2, c) = and_true h3 in
    let (h0, h1) = and_true h2 in
    let p = eqb_eq a.x0 b.x0 h0 in
    let q = eqb_eq a.x1 b.x1 h1 in
    let r = eqb_eq a.z0 b.z0 c in
    let s = eqb_eq a.z1 b.z1 d in let t = flag_eq a.empty_frame b.empty_frame e in cc

pub total-without :
    (k : RegionCacheKey) (e : CachedRegion) (es : Entries)
    → entry_at k es ≡ some e
    → total (without k es) + e.bytes ≡ total es
unfolding entry_at without
total-without k e [] h = cc
total-without k e ((j, f) ∷ es) h = ground (arith, total-without k e es)

pub entry_at-without :
    (k : RegionCacheKey) (es : Entries) → IsDistinct es → entry_at k (without k es) ≡ none
unfolding entry_at without
entry_at-without k [] d = refl
entry_at-without k ((j, f) ∷ es) d = elim (Bool-cases (key_beq j k)) [
  | inl same ↦
      rw same (subst (λ (i : RegionCacheKey). entry_at i es ≡ none) (key_beq_eq j k same) d.0)
  | inr other ↦ rw (other, other) (entry_at-without k es d.1)
]

pub entry_at-without_none :
    (j k : RegionCacheKey) (es : Entries) → entry_at j es ≡ none → entry_at j (without k es) ≡ none
unfolding entry_at without
entry_at-without_none j k [] h = refl
entry_at-without_none j k ((i, f) ∷ es) h = ground (arith, entry_at-without_none j k es)

pub entry_at-without_other :
    (j k : RegionCacheKey) (es : Entries)
    → key_beq k j ≡ false
    → entry_at j (without k es) ≡ entry_at j es
unfolding entry_at without
entry_at-without_other j k [] h = refl
entry_at-without_other j k ((i, f) ∷ es) h = elim (Bool-cases (key_beq i k)) [
  | inl same ↦ (let e : key_beq i j ≡ false = rw (key_beq_eq i k same) h in rw (same, e) refl)
  | inr other ↦ rw other (ground (arith, entry_at-without_other j k es h))
]

pub evict_list-sum :
    (limit bytes : ℕ) (es : Entries)
    → total es ≤ bytes
    → (evict_list limit bytes es).1 + total es ≡ bytes + total (evict_list limit bytes es).0
unfolding evict_list
evict_list-sum limit bytes [] h = refl
evict_list-sum limit bytes ((k, e) ∷ es) h = ground (arith, evict_list-sum limit bytes es)

pub evict_list-fits :
    (limit bytes : ℕ) (es : Entries)
    → ((evict_list limit bytes es).1 ≤ limit) ⊎ ((evict_list limit bytes es).0 ≡ [])
unfolding evict_list
evict_list-fits limit bytes [] = inr refl
evict_list-fits limit bytes ((k, e) ∷ es) = ground (arith, evict_list-fits limit bytes es)

pub entry_at-evict_list :
    (limit bytes : ℕ) (k : RegionCacheKey) (es : Entries)
    → entry_at k es ≡ none
    → entry_at k (evict_list limit bytes es).0 ≡ none
unfolding evict_list entry_at
entry_at-evict_list limit bytes k [] h = refl
entry_at-evict_list limit bytes k ((j, e) ∷ es) h =
    ground (arith, entry_at-evict_list limit bytes k es)

pub IsDistinct-without :
    (k : RegionCacheKey) (es : Entries) → IsDistinct es → IsDistinct (without k es)
unfolding without
IsDistinct-without k [] d = tt
IsDistinct-without k ((j, f) ∷ es) d = elim (Bool-cases (key_beq j k)) [
  | inl same ↦ rw same d.1
  | inr other ↦ rw other (entry_at-without_none j k es d.0, IsDistinct-without k es d.1)
]

pub IsDistinct-evict_list :
    (limit bytes : ℕ) (es : Entries) → IsDistinct es → IsDistinct (evict_list limit bytes es).0
unfolding evict_list
IsDistinct-evict_list limit bytes [] d = tt
IsDistinct-evict_list limit bytes ((k, e) ∷ es) d =
    elim (Bool-cases (ltb limit (evict_list limit bytes es).1)) [
      | inl over ↦ rw over (IsDistinct-evict_list limit bytes es d.1)
      | inr fits ↦
          rw fits
            (entry_at-evict_list limit bytes k es d.0, IsDistinct-evict_list limit bytes es d.1)
    ]
