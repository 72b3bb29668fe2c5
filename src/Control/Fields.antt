-- ===== src/Control/Fields.antt =====
-- control.h, `ctl_fields`: what the fields of a line are.
use ewb_server.Base.{
  ℕ, zero, suc, ℤ, ◌≤ℤ◌, pos, negsuc, ◌≡◌, ◌≢◌, refl, ◌∙◌, ap, subst, List, [], ◌∷◌, Option, none,
  some, All, length, ◌==◌, Text, ◌⊎◌, arith, inl, inr, Bool-cases, Option-cases,
}
use mathlib.Core.Option
use ewb_server.Zones.{fields, cons_first, colon}
use ewb_server.Zones.Line.{NoColon}
use ewb_server.Control.{find_colon, first_fields, ctl_fields}

-- The fields with a colon between each two.
abbrev pub join : List Text → Text
join [] = []
join (f ∷ []) = f
join (f ∷ g ∷ gs) = colon f (join (g ∷ gs))

-- Only the last field may hold a colon.
abbrev pub HeadsNoColon : List Text → Type 0
HeadsNoColon [] = Unit {0}
HeadsNoColon (f ∷ []) = Unit {0}
HeadsNoColon (f ∷ g ∷ gs) = NoColon f × HeadsNoColon (g ∷ gs)

pub record IsSplit (limit : ℤ) (rest : Text) (fs : List Text) : Type 0 where
  pub joined : join fs ≡ rest
  pub heads : HeadsNoColon fs
  pub last : All NoColon fs ⊎ (pos (length fs) ≡ limit)
  pub few : (limit ≤ℤ pos 0) ⊎ (pos (length fs) ≤ℤ limit)

heads_of_All : (fs : List Text) → All NoColon fs → HeadsNoColon fs
heads_of_All [] h = tt
heads_of_All (f ∷ []) h = tt
heads_of_All (f ∷ g ∷ gs) h = (h.0, heads_of_All (g ∷ gs) h.1)

join-cons_first : (c : ℕ) (fs : List Text) → fs ≢ [] → join (cons_first c fs) ≡ c ∷ join fs
join-cons_first c [] n = absurd (n refl)
join-cons_first c (f ∷ []) n = refl
join-cons_first c (f ∷ g ∷ gs) n = refl

cons_first-NoColon :
    (c : ℕ) (fs : List Text) → c ≢ b':' → All NoColon fs → All NoColon (cons_first c fs)
cons_first-NoColon c [] n h = ((n, tt), tt)
cons_first-NoColon c (f ∷ fs) n h = ((n, h.0), h.1)

cons_first-ne-nil : (c : ℕ) (fs : List Text) → cons_first c fs ≢ []
cons_first-ne-nil c [] e = cc
cons_first-ne-nil c (f ∷ fs) e = cc

join_nil : (fs : List Text) → fs ≢ [] → join ([] ∷ fs) ≡ b':' ∷ join fs
join_nil [] n = absurd (n refl)
join_nil (f ∷ fs) n = refl

fields-parts : (s : Text) → (fields s ≢ []) × (join (fields s) ≡ s) × All NoColon (fields s)
unfolding fields
fields-parts [] = ((λ e. cc), refl, (tt, tt))
fields-parts (c ∷ cs) =
    let (filled, joined, clear) = fields-parts cs in
    elim (Bool-cases (c == b':')) [
      | inl y ↦
          (let e : c ≡ b':' = ground (arith, y) in
            rw (y, e)
              (
                (λ q. cc),
                join_nil (fields cs) filled ∙ ap (λ (t : Text). b':' ∷ t) joined,
                (tt, clear),
              ))
      | inr n ↦ rw n (
        cons_first-ne-nil c (fields cs),
        join-cons_first c (fields cs) filled ∙ ap (λ (t : Text). c ∷ t) joined,
        cons_first-NoColon c (fields cs) (ground (arith, n)) clear,
      )
    ]

-- What the search for the first colon says.
Found : Text → Option (Text × Text) → Type 0
Found s none = NoColon s
Found s (some p) = NoColon p.0 × (colon p.0 p.1 ≡ s)

Found-later :
    (c : ℕ) (cs : Text) (o : Option (Text × Text))
    → c ≢ b':'
    → Found cs o
    → Found (c ∷ cs) (Option.map (λ (p : Text × Text). (c ∷ p.0, p.1)) o)
unfolding Found
Found-later c cs none n h = (n, h)
Found-later c cs (some p) n h = ((n, h.0), ap (λ (t : Text). c ∷ t) h.1)

find_colon-Found : (s : Text) → Found s (find_colon s)
unfolding find_colon Found
find_colon-Found [] = tt
find_colon-Found (c ∷ cs) = elim (Bool-cases (c == b':')) [
  | inl y ↦ rw y (tt, ground (arith, y))
  | inr n ↦ rw n (Found-later c cs (find_colon cs) (ground (arith, n)) (find_colon-Found cs))
]

first_fields-ne-nil : (left : ℕ) (s : Text) → first_fields left s ≢ []
unfolding first_fields
first_fields-ne-nil zero s = λ e. cc
first_fields-ne-nil (suc left) s = elim (Option-cases (find_colon s)) [
  | inl h ↦ rw (h, first_fields) (λ e. cc)
  | inr (p, h) ↦ rw (h, first_fields) (λ e. cc)
]

join_more : (f : Text) (fs : List Text) → fs ≢ [] → join (f ∷ fs) ≡ colon f (join fs)
join_more f [] n = absurd (n refl)
join_more f (g ∷ gs) n = refl

heads_more : (f : Text) (fs : List Text) → NoColon f → HeadsNoColon fs → HeadsNoColon (f ∷ fs)
heads_more f [] n h = tt
heads_more f (g ∷ gs) n h = (n, h)

last_more :
    (f : Text) (fs : List Text) (left : ℕ)
    → NoColon f
    → All NoColon fs ⊎ (pos (length fs) ≡ pos (suc left))
    → All NoColon (f ∷ fs) ⊎ (pos (length (f ∷ fs)) ≡ pos (suc (suc left)))
last_more f fs left n (inl h) = inl (n, h)
last_more f fs left n (inr e) = inr (ground (arith, e))

few_more :
    (f : Text) (fs : List Text) (left : ℕ)
    → (pos (suc left) ≤ℤ pos 0) ⊎ (pos (length fs) ≤ℤ pos (suc left))
    → (pos (suc (suc left)) ≤ℤ pos 0) ⊎ (pos (length (f ∷ fs)) ≤ℤ pos (suc (suc left)))
few_more f fs left (inl h) = absurd (omega (arith, h))
few_more f fs left (inr h) = inr (omega (arith, h))

first_fields-IsSplit : (left : ℕ) (s : Text) → IsSplit (pos (suc left)) s (first_fields left s)
unfolding first_fields
first_fields-IsSplit zero s = record {
  joined = refl;
  heads = tt;
  last = inr refl;
  few = inr (omega arith);
}
first_fields-IsSplit (suc left) s = elim (Option-cases (find_colon s)) [
  | inl h ↦
      (let clear : NoColon s = unfold Found in subst (Found s) h (find_colon-Found s) in
        rw (h, first_fields)
          (record { joined = refl; heads = tt; last = inl (clear, tt); few = inr (omega arith) }))
  | inr (p, h) ↦
      (let found : NoColon p.0 × (colon p.0 p.1 ≡ s) =
          unfold Found in subst (Found s) h (find_colon-Found s) in
        let more = first_fields-IsSplit left p.1 in
        let fs = first_fields left p.1 in
        rw (h, first_fields)
          (record {
            joined =
                join_more p.0 fs (first_fields-ne-nil left p.1)
                ∙ (ap (colon p.0) more.joined ∙ found.1);
            heads = heads_more p.0 fs found.0 more.heads;
            last = last_more p.0 fs left found.0 more.last;
            few = few_more p.0 fs left more.few;
          }))
]

fields-IsSplit : (limit : ℤ) (s : Text) → limit ≤ℤ pos 0 → IsSplit limit s (fields s)
fields-IsSplit limit s h =
    let (filled, joined, clear) = fields-parts s in
    record { joined = joined; heads = heads_of_All (fields s) clear; last = inl clear; few = inl h }

-- The fields of a line give it back when they are joined by colons. A limit above 0 is the most
-- fields that there are; only the last one may hold a colon, and it does only if the number of fields
-- has reached the limit. A limit that is not above 0 is none: every colon ends a field.
pub ctl_fields-IsSplit :
    (rest : Text) (limit : ℤ) → rest ≢ [] → IsSplit limit rest (ctl_fields rest limit)
unfolding ctl_fields
ctl_fields-IsSplit [] limit h = absurd (h refl)
ctl_fields-IsSplit (c ∷ cs) (negsuc n) h = fields-IsSplit (negsuc n) (c ∷ cs) (omega arith)
ctl_fields-IsSplit (c ∷ cs) (pos zero) h = fields-IsSplit (pos zero) (c ∷ cs) (omega arith)
ctl_fields-IsSplit (c ∷ cs) (pos (suc left)) h = first_fields-IsSplit left (c ∷ cs)
