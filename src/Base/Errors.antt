-- ===== src/Base/Errors.antt =====
-- A call that gives a result or an error, for do blocks.
use mathlib.Core.Path.{◌≡◌, refl, subst}
use mathlib.Core.Bool.{Bool, true, false}
use mathlib.Core.Option.{Option, none, some}

pub data Result {ℓ κ} (E : Type ℓ) (A : Type κ) : Type (ℓ ⊔ κ) where
  ok : A → Result E A
  err : E → Result E A

module _ {ℓ κ μ} {E : Type ℓ} {A : Type κ} {B : Type μ} where
  infixl 5 ◌>>=◌ ◌>>◌
  abbrev pub ◌>>=◌ : Result E A → (A → Result E B) → Result E B
  ok a >>= f = f a
  err e >>= f = err e

  abbrev pub ◌>>◌ : Result E A → Result E B → Result E B
  m >> k = m >>= λ _. k

  -- A chain that succeeds has a first step that does.
  pub >>=-eq-ok :
      (m : Result E A) (f : A → Result E B) (b : B)
      → (m >>= f) ≡ ok b
      → (a : A) × (m ≡ ok a) × (f a ≡ ok b)
  >>=-eq-ok (ok a) f b h = (a, refl, h)
  >>=-eq-ok (err e) f b h = cc

module _ {ℓ} {E : Type ℓ} where
  abbrev pub guard : Bool → E → Result E (Unit {0})
  guard true e = ok tt
  guard false e = err e

module _ {ℓ κ} {E : Type ℓ} {A : Type κ} where
  abbrev pub of_option : E → Option A → Result E A
  of_option e none = err e
  of_option e (some a) = ok a

-- What a call that succeeds gives.
pub data Ensures {ℓ κ μ} {E : Type ℓ} {A : Type κ} (P : A → Type μ)
    : Result E A → Type (ℓ ⊔ κ ⊔ μ) where
  holds : {a : A} → P a → Ensures P (ok a)
  rejected : {e : E} → Ensures P (err e)

module _ {ℓ κ μ} {E : Type ℓ} {A : Type κ} {P : A → Type μ} where
  pub Ensures-ok : {r : Result E A} {a : A} → Ensures P r → r ≡ ok a → P a
  Ensures-ok (holds h) e = subst P (cc) h
  Ensures-ok rejected e = cc

  -- The guard held where the call succeeds.
  pub Ensures-guard :
      (b : Bool) (e : E) {r : Result E A} → (b ≡ true → Ensures P r) → Ensures P (guard b e >> r)
  Ensures-guard true e k = k refl
  Ensures-guard false e k = rejected

  pub Ensures-bind {ν θ} :
      {C : Type ν} {Q : C → Type θ} {m : Result E C} {f : C → Result E A}
      → Ensures Q m
      → ((c : C) → Q c → Ensures P (f c))
      → Ensures P (m >>= f)
  Ensures-bind (holds {a = c} h) k = k c h
  Ensures-bind rejected k = rejected

module _ {ℓ κ} {E : Type ℓ} {A : Type κ} where
  pub any_result : (m : Result E A) → Ensures (λ a. m ≡ ok a) m
  any_result (ok a) = holds refl
  any_result (err e) = rejected

module _ {ℓ κ μ ν} {E : Type ℓ} {A : Type κ} {P : A → Type μ} {Q : A → Type ν} where
  pub Ensures-imp : {r : Result E A} → Ensures P r → ((a : A) → P a → Q a) → Ensures Q r
  Ensures-imp (holds {a = a} h) k = holds (k a h)
  Ensures-imp rejected k = rejected
