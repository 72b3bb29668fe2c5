-- ===== src/Hardening/Lru.antt =====
-- hardening.h, `LruTable`. `order_` is the list, oldest first; `index_`, which finds a key's entry
-- in it, is the search in that list, so the two cannot disagree.
pub mod Invariant
pub mod Recency
pub mod Reload
mod Tests
use ewb_server.Base.{
  ℕ, suc, ◌+◌, ◌-◌, List, [], ◌∷◌, ◌++◌, Bool, true, false, Option, none, some, ltb, ◌==◌,
  if◌then◌else◌, length, Text, text_eq, lookup, erase, text_beq,
}

pub record LruTable {ℓ} (V : Type ℓ) : Type ℓ where
  pub cap : ℕ
  pub order : List (Text × V)

abbrev pub at_least_one : ℕ → ℕ
at_least_one n = if n == 0 then 1 else n

module _ {ℓ} {V : Type ℓ} where
  unfoldable pub empty : ℕ → LruTable V
  empty capacity = record { cap = at_least_one capacity; order = [] }

  -- `while (order_.size() > cap_) pop_front`, with the number of entries that go.
  unfoldable pub trim_list : ℕ → List (Text × V) → List (Text × V) × ℕ
  trim_list cap [] = ([], 0)
  trim_list cap (kv ∷ order) =
      let (rest, n) = trim_list cap order in
      if ltb cap (suc (length order)) then (rest, suc n) else (kv ∷ order, 0)

  unfoldable pub trim : LruTable V → LruTable V × ℕ
  trim t = (record t { order = (trim_list t.cap t.order).0 }, (trim_list t.cap t.order).1)

  -- A known key gets the value and moves to the back; a new one joins at the back.
  unfoldable pub put_found : Option V → Text → V → LruTable V → LruTable V × ℕ
  put_found (some old) key value t =
      (record t { order = erase key t.order ++ ((key, value) ∷ []) }, 0)
  put_found none key value t = trim (record t { order = t.order ++ ((key, value) ∷ []) })

  unfoldable pub put : Text → V → LruTable V → LruTable V × ℕ
  unfolding put_found trim
  put key value t = put_found (lookup key t.order) key value t

  unfoldable pub find : Text → LruTable V → Option V
  find key t = lookup key t.order

  unfoldable pub set_capacity : ℕ → LruTable V → LruTable V × ℕ
  set_capacity capacity t = trim (record t { cap = at_least_one capacity })

  -- `for_each` that puts every entry into another table, as a reload does.
  unfoldable pub put_all : List (Text × V) → LruTable V → LruTable V
  put_all [] t = t
  put_all ((key, value) ∷ entries) t = put_all entries (put key value t).0
