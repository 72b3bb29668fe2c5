-- ===== src/Matchmaker/Registry/Apart.antt =====
-- Two rows of a registry have two addresses and two owners. What the scans of `add` find.
use ewb_server.Base.{
  ◌≡◌, List, [], ◌∷◌, ◌++◌, Bool, true, false, none, some, All, All-append, keep, arith, inl, inr,
  Bool-cases, text_beq_iff,
}
use ewb_server.Matchmaker.{Registration}
use ewb_server.Matchmaker.Registry.{same, owned, find_if, assign}

-- Neither the same address nor the same connection.
pub record IsApart (r e : Registration) : Type 0 where
  pub key : same r e ≡ false
  pub owner : owned r.conn e ≡ false

abbrev pub AllApart : List Registration → Type 0
AllApart [] = Unit {0}
AllApart (r ∷ rs) = All (IsApart r) rs × AllApart rs

pub same_comm : (r e : Registration) → same r e ≡ false → same e r ≡ false
same_comm r e h = ground (arith, text_beq_iff e.ip r.ip, text_beq_iff r.ip e.ip)

pub same_trans :
    (reg r e : Registration) → same reg r ≡ true → same r e ≡ false → same reg e ≡ false
same_trans reg r e h k =
    ground (arith, text_beq_iff r.ip reg.ip, text_beq_iff e.ip reg.ip, text_beq_iff e.ip r.ip)

pub IsApart-comm : (r e : Registration) → IsApart r e → IsApart e r
IsApart-comm r e h = record { key = same_comm r e h.key; owner = ground (arith, h.owner) }

pub All-imp :
    (P Q : Registration → Type 0) (es : List Registration)
    → ((e : Registration) → P e → Q e)
    → All P es
    → All Q es
All-imp P Q [] k h = tt
All-imp P Q (e ∷ es) k h = (k e h.0, All-imp P Q es k h.1)

pub All-assign :
    (P : Registration → Type 0) (p : Registration → Bool) (u : Registration)
    (es : List Registration)
    → P u
    → All P es
    → All P (assign p u es)
unfolding assign
All-assign P p u [] pu h = tt
All-assign P p u (e ∷ es) pu h = ground (arith, All-assign P p u es pu h.1)

pub All-keep_apart :
    (P : Registration → Type 0) (p : Registration → Bool) (es : List Registration)
    → All P es
    → All P (keep p es)
All-keep_apart P p [] h = tt
All-keep_apart P p (e ∷ es) h = ground (arith, All-keep_apart P p es h.1)

pub AllApart-keep :
    (p : Registration → Bool) (es : List Registration) → AllApart es → AllApart (keep p es)
AllApart-keep p [] h = tt
AllApart-keep p (e ∷ es) h =
    ground (arith, AllApart-keep p es h.1, All-keep_apart (IsApart e) p es h.0)

pub AllApart-append_one :
    (u : Registration) (es : List Registration)
    → AllApart es
    → All (λ e. IsApart e u) es
    → AllApart (es ++ (u ∷ []))
AllApart-append_one u [] h k = (tt, tt)
AllApart-append_one u (e ∷ es) h k =
    (All-append (IsApart e) es (u ∷ []) h.0 (k.0, tt), AllApart-append_one u es h.1 k.1)

-- A scan without a hit.
pub find_if-none :
    (p : Registration → Bool) (es : List Registration)
    → find_if p es ≡ none
    → All (λ e. p e ≡ false) es
unfolding find_if
find_if-none p [] h = tt
find_if-none p (e ∷ es) h = elim (Bool-cases (p e)) [
  | inl y ↦ absurd (ground (arith, y, h))
  | inr n ↦ (n, find_if-none p es (ground (arith, n, h)))
]

pub find_if-hit :
    (p : Registration → Bool) (es : List Registration) (x : Registration)
    → find_if p es ≡ some x
    → p x ≡ true
unfolding find_if
find_if-hit p [] x h = absurd (cc)
find_if-hit p (e ∷ es) x h = elim (Bool-cases (p e)) [
  | inl y ↦ ground (arith, y, h)
  | inr n ↦ find_if-hit p es x (ground (arith, n, h))
]
