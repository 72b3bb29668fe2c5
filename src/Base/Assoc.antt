-- ===== src/Base/Assoc.antt =====
-- Tables as association lists: `insert` adds a key that is not there, at the place that the order
-- gives; `replace` changes the value of one that is; `erase` takes one out.
use Prim.Native.Nat.{suc, ◌≤◌}
use mathlib.Core.Path.{◌≡◌, refl}
use mathlib.Core.Bool.{Bool}
use mathlib.Core.List.{List, [], ◌∷◌}
use mathlib.Core.Option.{Option, none, some}
use native.Mathlib.Omega.{arith}
use ewb_server.Base.Tests.{if◌then◌else◌}
use ewb_server.Base.Lists.{length, All}
use ewb_server.Base.Equality.{Eq, ◌=?◌}

module _ {ℓ κ} {K : Type ℓ} {V : Type κ} ⦃e : Eq K⦄ where
  unfoldable pub lookup : K → List (K × V) → Option V
  lookup k [] = none
  lookup k ((j, v) ∷ m) = if j =? k then some v else lookup k m

  unfoldable pub replace : K → V → List (K × V) → List (K × V)
  replace k v [] = []
  replace k v ((j, w) ∷ m) = if j =? k then (j, v) ∷ m else (j, w) ∷ replace k v m

  unfoldable pub erase : K → List (K × V) → List (K × V)
  erase k [] = []
  erase k ((j, w) ∷ m) = if j =? k then erase k m else (j, w) ∷ erase k m

  unfoldable pub insert : (K → K → Bool) → K → V → List (K × V) → List (K × V)
  insert lt k v [] = (k, v) ∷ []
  insert lt k v ((j, w) ∷ m) =
      let rest = insert lt k v m in if lt k j then (k, v) ∷ (j, w) ∷ m else (j, w) ∷ rest

  pub lookup-insert :
      (lt : K → K → Bool) (k i : K) (v : V) (m : List (K × V))
      → lookup k m ≡ none
      → lookup i (insert lt k v m) ≡ (if k =? i then some v else lookup i m)
  unfolding lookup insert
  lookup-insert lt k i v [] h = refl
  lookup-insert lt k i v ((j, w) ∷ m) h =
      ground (arith, e.beq_iff j i, e.beq_iff j k, e.beq_iff k i, lookup-insert lt k i v m)

  pub lookup-replace :
      (k i : K) (v w : V) (m : List (K × V))
      → lookup k m ≡ some w
      → lookup i (replace k v m) ≡ (if k =? i then some v else lookup i m)
  unfolding lookup replace
  lookup-replace k i v w [] h = cc
  lookup-replace k i v w ((j, u) ∷ m) h =
      ground (arith, e.beq_iff j i, e.beq_iff j k, e.beq_iff k i, lookup-replace k i v w m)

  pub lookup-erase :
      (k i : K) (m : List (K × V)) → lookup i (erase k m) ≡ (if k =? i then none else lookup i m)
  unfolding lookup erase
  lookup-erase k i [] = ground arith
  lookup-erase k i ((j, u) ∷ m) =
      ground (arith, e.beq_iff j i, e.beq_iff j k, e.beq_iff k i, lookup-erase k i m)

  pub length-insert :
      (lt : K → K → Bool) (k : K) (v : V) (m : List (K × V))
      → length (insert lt k v m) ≡ suc (length m)
  unfolding insert
  length-insert lt k v [] = refl
  length-insert lt k v ((j, w) ∷ m) = ground (arith, length-insert lt k v m)

  pub length-replace : (k : K) (v : V) (m : List (K × V)) → length (replace k v m) ≡ length m
  unfolding replace
  length-replace k v [] = refl
  length-replace k v ((j, w) ∷ m) = ground (arith, length-replace k v m)

  pub length-erase-le : (k : K) (m : List (K × V)) → length (erase k m) ≤ length m
  unfolding erase
  length-erase-le k [] = omega arith
  length-erase-le k ((j, w) ∷ m) = ground (arith, length-erase-le k m)

  pub All-insert {μ} :
      (P : K × V → Type μ) (lt : K → K → Bool) (k : K) (v : V) (m : List (K × V))
      → P (k, v)
      → All P m
      → All P (insert lt k v m)
  unfolding insert
  All-insert P lt k v [] p h = (p, tt)
  All-insert P lt k v ((j, w) ∷ m) p h = ground (arith, All-insert P lt k v m p h.1)
