-- ===== src/Hardening/Lru/Recency.antt =====
-- What `put` and `set_capacity` keep, and in which order.
use ewb_server.Base.{
  ℕ, zero, suc, ◌+◌, ◌-◌, ◌≤◌, ◌≡◌, refl, ap, ◌∙◌, List, [], ◌∷◌, ◌++◌, Option, none, some,
  if◌then◌else◌, length, length-append, Text, text_eq, lookup, erase, text_beq, text_beq_iff, arith,
  length-erase-le, lookup-erase, length-drop, drop,
}
use ewb_server.Hardening.Lru.{LruTable, trim, put_found, put, find, set_capacity, at_least_one}
use ewb_server.Hardening.Lru.Invariant.{
  IsValid, IsDistinct, trim_list-drop, lookup-snoc, IsDistinct-snoc, IsDistinct-erase,
  IsDistinct-drop, erase_absent, length-erase_found,
}

module _ {ℓ} {V : Type ℓ} where
  -- The entries in use order once `key` is written: the others as they were, and `key` last.
  abbrev pub refreshed : Text → V → List (Text × V) → List (Text × V)
  refreshed key value m = erase key m ++ ((key, value) ∷ [])

  erase_gone : (key : Text) (m : List (Text × V)) → lookup key (erase key m) ≡ none
  erase_gone key m = ground (arith, lookup-erase key key m, text_beq_iff key key)

  refreshed-IsDistinct :
      (key : Text) (value : V) (m : List (Text × V))
      → IsDistinct m
      → IsDistinct (refreshed key value m)
  refreshed-IsDistinct key value m d =
      IsDistinct-snoc key value (erase key m) (erase_gone key m) (IsDistinct-erase key m d)

  length-refreshed-le :
      (key : Text) (value : V) (m : List (Text × V))
      → length (refreshed key value m) ≤ suc (length m)
  length-refreshed-le key value m =
      omega (arith, length-append (erase key m) ((key, value) ∷ []), length-erase-le key m)

  length-refreshed_found :
      (key : Text) (value old : V) (m : List (Text × V))
      → lookup key m ≡ some old
      → length (refreshed key value m) ≤ length m
  length-refreshed_found key value old m h =
      omega (arith, length-append (erase key m) ((key, value) ∷ []), length-erase_found key old m h)

  lookup-refreshed :
      (key i : Text) (value : V) (m : List (Text × V))
      → lookup i (refreshed key value m) ≡ (if text_beq key i then some value else lookup i m)
  lookup-refreshed key i value m = ground (
    arith,
    lookup-snoc key i value (erase key m),
    lookup-erase key key m,
    lookup-erase key i m,
    text_beq_iff key key,
  )

  abbrev pub excess : ℕ → List (Text × V) → ℕ
  excess cap m = length m - cap

  -- The table and the number of evictions, as `put` leaves them.
  abbrev pub trimmed : LruTable V → List (Text × V) → LruTable V × ℕ
  trimmed t m = (record t { order = drop (excess t.cap m) m }, excess t.cap m)

  put_found-trimmed :
      (o : Option V) (key : Text) (value : V) (t : LruTable V)
      → lookup key t.order ≡ o
      → IsValid t
      → put_found o key value t ≡ trimmed t (refreshed key value t.order)
  unfolding put_found trim
  put_found-trimmed none key value t h v =
      rw (erase_absent key t.order h, trim_list-drop t.cap (t.order ++ ((key, value) ∷ [])))
  put_found-trimmed (some old) key value t h v =
      let e : excess t.cap (refreshed key value t.order) ≡ 0 =
        omega (arith, length-refreshed_found key value old t.order h, v.size) in
      rw e

  pub put-trimmed :
      (key : Text) (value : V) (t : LruTable V)
      → IsValid t
      → put key value t ≡ trimmed t (refreshed key value t.order)
  unfolding put
  put-trimmed key value t v = put_found-trimmed (lookup key t.order) key value t refl v

  drop-snoc :
      (n : ℕ) (x : Text × V) (m : List (Text × V))
      → n ≤ length m
      → drop n (m ++ (x ∷ [])) ≡ drop n m ++ (x ∷ [])
  drop-snoc zero x m h = refl
  drop-snoc (suc n) x [] h = absurd (omega arith)
  drop-snoc (suc n) x (y ∷ m) h = drop-snoc n x m (omega arith)

  lookup-drop_none :
      (n : ℕ) (k : Text) (m : List (Text × V)) → lookup k m ≡ none → lookup k (drop n m) ≡ none
  unfolding lookup
  lookup-drop_none zero k m h = h
  lookup-drop_none (suc n) k [] h = refl
  lookup-drop_none (suc n) k ((j, w) ∷ m) h = lookup-drop_none n k m (ground arith)

  -- What a call of `put` leaves in the table `t'` with `n` evictions.
  pub record IsPut (key : Text) (value : V) (t t' : LruTable V) (n : ℕ) : Type ℓ where
    pub valid : IsValid t'
    pub stored : find key t' ≡ some value
    pub order : t'.order ≡ drop n (erase key t.order) ++ ((key, value) ∷ [])
    pub evicted : n ≡ length (erase key t.order) + 1 - t.cap
    pub refresh_free : (old : V) → find key t ≡ some old → n ≡ 0

  trimmed-IsValid :
      (key : Text) (value : V) (t : LruTable V)
      → IsValid t
      → IsValid (trimmed t (refreshed key value t.order)).0
  trimmed-IsValid key value t v =
      let m = refreshed key value t.order in
      record {
        room = v.room;
        size = omega (arith, length-drop (excess t.cap m) m);
        distinct =
            IsDistinct-drop (excess t.cap m) m (refreshed-IsDistinct key value t.order v.distinct);
      }

  -- `put` on a valid table stores the value under the key and makes that entry the newest; the other
  -- entries keep their values and their order, less the `n` oldest ones that are over the capacity.
  -- `n`, the result, is 0 for a key that is there already. The table is valid again: no key twice,
  -- and no more entries than its capacity.
  pub put-IsPut :
      (key : Text) (value : V) (t : LruTable V)
      → IsValid t
      → IsPut key value t (put key value t).0 (put key value t).1
  unfolding find
  put-IsPut key value t v = rw (put-trimmed key value t v) (record {
    valid = trimmed-IsValid key value t v;
    stored = ap (lookup key) shape ∙ lookup-snoc key key value kept still_gone ∙ found_self;
    order = shape;
    evicted = omega (arith, len);
    refresh_free = λ old h. omega (arith, length-refreshed_found key value old t.order h, v.size);
  })
    where
      n : ℕ
      n = excess t.cap (refreshed key value t.order)

      len : length (refreshed key value t.order) ≡ length (erase key t.order) + 1
      len = length-append (erase key t.order) ((key, value) ∷ [])

      kept : List (Text × V)
      kept = drop n (erase key t.order)

      shape : drop n (refreshed key value t.order) ≡ kept ++ ((key, value) ∷ [])
      shape = drop-snoc n (key, value) (erase key t.order) (omega (arith, len, v.room))

      still_gone : lookup key kept ≡ none
      still_gone = lookup-drop_none n key (erase key t.order) (erase_gone key t.order)

      found_self : (if text_beq key key then some value else lookup key kept) ≡ some value
      found_self = rw ((text_beq_iff key key).1 refl)

  -- A smaller capacity drops the oldest entries; the rest keep their order. A capacity of 0 counts
  -- as 1.
  pub set_capacity-IsValid :
      (capacity : ℕ) (t : LruTable V)
      → IsValid t
      → IsValid (set_capacity capacity t).0
        × ((set_capacity capacity t).0.order ≡ drop (set_capacity capacity t).1 t.order)
  unfolding set_capacity trim
  set_capacity-IsValid capacity t v =
      let n = at_least_one capacity in
      rw (trim_list-drop n t.order) (
        record {
          room = ground arith;
          size = omega (arith, length-drop (length t.order - n) t.order);
          distinct = IsDistinct-drop (length t.order - n) t.order v.distinct;
        },
        refl,
      )
