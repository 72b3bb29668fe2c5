-- ===== src/Hardening/Lru/Reload.antt =====
-- A table that is written out with `for_each` and put back in file order.
use ewb_server.Base.{
  ℕ, suc, ◌≤◌, ◌≡◌, refl, sym, ap, ◌∙◌, subst, List, [], ◌∷◌, ◌++◌, append-nil, append_assoc, none,
  length, length-append, Text, text_eq, lookup, text_beq_iff, arith,
}
use ewb_server.Hardening.Lru.{LruTable, empty, put, put_all}
use ewb_server.Hardening.Lru.Invariant.{IsValid, IsDistinct, erase_absent, IsDistinct-snoc}
use ewb_server.Hardening.Lru.Recency.{excess, put-trimmed}

module _ {ℓ} {V : Type ℓ} where
  lookup-append :
      (k : Text) (m n : List (Text × V))
      → lookup k (m ++ n) ≡ none
      → (lookup k m ≡ none) × (lookup k n ≡ none)
  unfolding lookup
  lookup-append k [] n h = (refl, h)
  lookup-append k ((j, w) ∷ m) n h = ground (arith, lookup-append k m n)

  IsDistinct-middle :
      (m : List (Text × V)) (k : Text) (v : V) (n : List (Text × V))
      → IsDistinct (m ++ ((k, v) ∷ n))
      → lookup k m ≡ none
  unfolding lookup
  IsDistinct-middle [] k v n d = refl
  IsDistinct-middle ((j, w) ∷ m) k v n d = ground (
    arith,
    IsDistinct-middle m k v n d.1,
    lookup-append j m ((k, v) ∷ n) d.0,
    text_beq_iff j k,
    text_beq_iff k j,
  )

  put_new :
      (k : Text) (v : V) (t : LruTable V)
      → IsValid t
      → lookup k t.order ≡ none
      → suc (length t.order) ≤ t.cap
      → (put k v t).0 ≡ record t { order = t.order ++ ((k, v) ∷ []) }
  put_new k v t valid h room =
      let e : excess t.cap (t.order ++ ((k, v) ∷ [])) ≡ 0 =
        omega (arith, length-append t.order ((k, v) ∷ [])) in
      rw (put-trimmed k v t valid, erase_absent k t.order h, e)

  snoc-cons : (m n : List (Text × V)) (kv : Text × V) → (m ++ (kv ∷ [])) ++ n ≡ m ++ (kv ∷ n)
  snoc-cons m n kv = append_assoc m (kv ∷ []) n

  put_all-append :
      (m : List (Text × V)) (t : LruTable V)
      → IsValid t
      → IsDistinct (t.order ++ m)
      → length (t.order ++ m) ≤ t.cap
      → put_all m t ≡ record t { order = t.order ++ m }
  unfolding put_all
  put_all-append [] t v d h =
      ap (λ (o : List (Text × V)). record t { order = o }) (sym (append-nil t.order))
  put_all-append ((k, x) ∷ m) t v d h =
      let n : List (Text × V) = t.order ++ ((k, x) ∷ m) in
      let added : LruTable V = record t { order = t.order ++ ((k, x) ∷ []) } in
      let absent = IsDistinct-middle t.order k x m d in
      let room : suc (length t.order) ≤ t.cap = omega (arith, length-append t.order ((k, x) ∷ m)) in
      let one : (put k x t).0 ≡ added = put_new k x t v absent room in
      let e : added.order ++ m ≡ n = snoc-cons t.order m (k, x) in
      let valid : IsValid added = record {
        room = v.room;
        size = omega (arith, length-append t.order ((k, x) ∷ []));
        distinct = IsDistinct-snoc k x t.order absent v.distinct;
      } in
      ap (put_all m) one
      ∙ put_all-append m added valid (subst IsDistinct (sym e) d) (rw e h)
      ∙ ap (λ (o : List (Text × V)). record t { order = o }) e

  -- A table that is written out entry by entry and read back into an empty table of the same
  -- capacity is the same table, its use order included.
  pub put_all-empty : (t : LruTable V) → IsValid t → put_all t.order (empty t.cap) ≡ t
  unfolding empty
  put_all-empty t v =
      ap (put_all t.order) fresh
      ∙ put_all-append t.order clear (record { room = v.room; size = omega arith; distinct = tt })
          v.distinct v.size
    where
      clear : LruTable V
      clear = record t { order = [] }

      fresh : empty t.cap ≡ clear
      fresh = ap (λ (c : ℕ). record t { cap = c; order = [] }) (ground (arith, v.room))
