-- ===== src/Control/Bans/Sets.antt =====
-- The sets of a ban list: in order, and what they hold after a change.
use ewb_server.Base.{
  ◌≡◌, refl, List, [], ◌∷◌, ◌++◌, true, false, ◌&&◌, ◌||◌, not, All, Text, text_beq, text_beq_iff,
  text_ltb, arith, inl, inr, Bool-cases, if◌then◌else◌,
}
use ewb_server.Control.Bans.{insert, erase, member}

pub text_ltb_asym : (s t : Text) → text_ltb s t ≡ true → text_ltb t s ≡ false
text_ltb_asym [] [] h = cc
text_ltb_asym [] (y ∷ ys) h = refl
text_ltb_asym (x ∷ xs) [] h = cc
text_ltb_asym (x ∷ xs) (y ∷ ys) h = ground (arith, text_ltb_asym xs ys)

text_ltb_trans : (s t u : Text) → text_ltb s t ≡ true → text_ltb t u ≡ true → text_ltb s u ≡ true
text_ltb_trans [] [] u h k = cc
text_ltb_trans [] (y ∷ ys) [] h k = cc
text_ltb_trans [] (y ∷ ys) (z ∷ zs) h k = refl
text_ltb_trans (x ∷ xs) [] u h k = cc
text_ltb_trans (x ∷ xs) (y ∷ ys) [] h k = cc
text_ltb_trans (x ∷ xs) (y ∷ ys) (z ∷ zs) h k = ground (arith, text_ltb_trans xs ys zs)

-- Neither before the other is being equal.
pub text_ltb_neither : (s t : Text) → (not (text_ltb s t) && not (text_ltb t s)) ≡ text_beq t s
text_ltb_neither [] [] = refl
text_ltb_neither [] (y ∷ ys) = refl
text_ltb_neither (x ∷ xs) [] = refl
text_ltb_neither (x ∷ xs) (y ∷ ys) = ground (arith, text_ltb_neither xs ys)

abbrev pub IsSorted : List Text → Type 0
IsSorted [] = Unit {0}
IsSorted (s ∷ ss) = All (λ t. text_ltb s t ≡ true) ss × IsSorted ss

pub member-insert :
    (t u : Text) (ss : List Text)
    → member u (insert t ss).0 ≡ (if text_beq t u then true else member u ss)
unfolding member insert
member-insert t u [] = ground (arith, text_ltb_neither u t)
member-insert t u (s ∷ ss) = ground (
  arith,
  member-insert t u ss,
  text_ltb_neither u t,
  text_ltb_neither u s,
  text_ltb_neither t s,
  text_beq_iff t u,
  text_beq_iff s u,
  text_beq_iff s t,
)

All-insert :
    (P : Text → Type 0) (t : Text) (ss : List Text) → P t → All P ss → All P (insert t ss).0
unfolding insert
All-insert P t [] p h = (p, tt)
All-insert P t (s ∷ ss) p h = ground (arith, All-insert P t ss p h.1)

All-before :
    (t s : Text) (ss : List Text)
    → text_ltb t s ≡ true
    → All (λ u. text_ltb s u ≡ true) ss
    → All (λ u. text_ltb t u ≡ true) ss
All-before t s [] h k = tt
All-before t s (u ∷ us) h k = (text_ltb_trans t s u h k.0, All-before t s us h k.1)

pub insert-IsSorted : (t : Text) (ss : List Text) → IsSorted ss → IsSorted (insert t ss).0
unfolding insert
insert-IsSorted t [] h = (tt, tt)
insert-IsSorted t (s ∷ ss) h = elim (Bool-cases (text_ltb t s)) [
  | inl y ↦ rw y ((y, All-before t s ss y h.0), h)
  | inr n ↦ rw n (elim (Bool-cases (text_ltb s t)) [
    | inl y ↦ rw y (All-insert (λ u. text_ltb s u ≡ true) t ss y h.0, insert-IsSorted t ss h.1)
    | inr m ↦ rw m h
  ])
]

-- A text behind all others goes to the end.
pub insert_last :
    (t : Text) (ss : List Text)
    → All (λ s. text_ltb s t ≡ true) ss
    → insert t ss ≡ (ss ++ (t ∷ []), true)
unfolding insert
insert_last t [] h = refl
insert_last t (s ∷ ss) h = rw (text_ltb_asym s t h.0, h.0, insert_last t ss h.1) refl

All-erase : (P : Text → Type 0) (t : Text) (ss : List Text) → All P ss → All P (erase t ss).0
unfolding erase
All-erase P t [] h = tt
All-erase P t (s ∷ ss) h = ground (arith, All-erase P t ss h.1)

pub erase-IsSorted : (t : Text) (ss : List Text) → IsSorted ss → IsSorted (erase t ss).0
unfolding erase
erase-IsSorted t [] h = tt
erase-IsSorted t (s ∷ ss) h = elim (Bool-cases (text_ltb t s || text_ltb s t)) [
  | inl y ↦ rw y (All-erase (λ u. text_ltb s u ≡ true) t ss h.0, erase-IsSorted t ss h.1)
  | inr n ↦ rw n h.1
]

-- What stands behind `s` in order is not `s`.
behind_absent :
    (s : Text) (ss : List Text) → All (λ u. text_ltb s u ≡ true) ss → member s ss ≡ false
unfolding member
behind_absent s [] h = refl
behind_absent s (u ∷ us) h = ground (arith, behind_absent s us h.1, h.0)

pub member-erase :
    (t u : Text) (ss : List Text)
    → IsSorted ss
    → member u (erase t ss).0 ≡ (if text_beq t u then false else member u ss)
unfolding member erase
member-erase t u [] h = ground arith
member-erase t u (s ∷ ss) h = ground (
  arith,
  member-erase t u ss h.1,
  behind_absent s ss h.0,
  text_ltb_neither u s,
  text_ltb_neither t s,
  text_beq_iff t u,
  text_beq_iff s u,
  text_beq_iff s t,
)
