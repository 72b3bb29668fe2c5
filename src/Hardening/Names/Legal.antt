-- ===== src/Hardening/Names/Legal.antt =====
-- The name that `next_free_username` makes is one that `validate_username` accepts.
use ewb_server.Base.{
  ℕ, zero, suc, ◌+◌, ◌-◌, ◌≤◌, ◌<◌, ◌^◌, ◌≡◌, ◌≢◌, inl, inr, refl, ap, ◌∙◌, List, [], ◌∷◌, ◌++◌,
  map, Bool, true, false, ◌||◌, ◌==◌, length, take, length-append, length-take, All, All-append,
  Text, arith, Bool-cases, some, print_ℕ, codes,
}
use ewb_server.Base.Decimal.RoundTrip.{IsDigit, print_ℕ-IsDigit, length-print_ℕ}
use ewb_server.Hardening.Names.{
  candidate, suffix_of, trim_right, taken_in, next_free_username, username_max, lower, ends_space,
}
use ewb_server.Hardening.Names.Verdict.{IsName, IsNameByte, ends_space_iff}
use ewb_server.Hardening.Names.Suffix.{search_free-IsFound}

length-trim_right-le : (s : Text) → length (trim_right s) ≤ length s
unfolding trim_right
length-trim_right-le [] = omega arith
length-trim_right-le (c ∷ cs) = ground (arith, length-trim_right-le cs)

All-trim_right {κ} : (P : ℕ → Type κ) (s : Text) → All P s → All P (trim_right s)
unfolding trim_right
All-trim_right P [] h = tt
All-trim_right P (c ∷ cs) h = ground (arith, All-trim_right P cs h.1)

All-take {κ} : (P : ℕ → Type κ) (n : ℕ) (s : Text) → All P s → All P (take n s)
All-take P zero s h = tt
All-take P (suc n) [] h = tt
All-take P (suc n) (c ∷ cs) h = (h.0, All-take P n cs h.1)

digits-IsNameByte : (ds : Text) → All IsDigit ds → All IsNameByte ds
digits-IsNameByte [] h = tt
digits-IsNameByte (c ∷ cs) h = (ground (arith, h.0), digits-IsNameByte cs h.1)

digits-ends_space : (ds : Text) (c : ℕ) → c ≢ 32 → All IsDigit ds → ends_space (c ∷ ds) ≡ false
unfolding ends_space
digits-ends_space [] c e h = ground arith
digits-ends_space (d ∷ ds) c e h = digits-ends_space ds d (ground (arith, h.0)) h.1

ends_space-append :
    (xs : Text) (c : ℕ) (cs : Text) → ends_space (xs ++ (c ∷ cs)) ≡ ends_space (c ∷ cs)
unfolding ends_space
ends_space-append [] c cs = refl
ends_space-append (x ∷ []) c cs = refl
ends_space-append (x ∷ y ∷ xs) c cs = ends_space-append (y ∷ xs) c cs

has_dash : Text → Bool
has_dash [] = false
has_dash (c ∷ cs) = (c == b'-') || has_dash cs

has_dash-append : (xs ds : Text) → has_dash (map lower (xs ++ (b'-' ∷ ds))) ≡ true
unfolding has_dash lower
has_dash-append [] ds = refl
has_dash-append (x ∷ xs) ds = ground (arith, has_dash-append xs ds)

no_dash : has_dash (codes "server") ≡ false
unfolding has_dash
no_dash = refl

append-ne-nil : (xs : Text) (c : ℕ) (cs : Text) → xs ++ (c ∷ cs) ≢ []
append-ne-nil [] c cs e = cc
append-ne-nil (x ∷ xs) c cs e = cc

-- A byte that is no space stays at the front.
trim_right-cons : (c : ℕ) (cs : Text) → c ≢ 32 → trim_right (c ∷ cs) ≡ c ∷ trim_right cs
unfolding trim_right
trim_right-cons c cs h = ground arith

take-trim_right-head :
    (k : ℕ) (s rest tail : Text)
    → 0 < k
    → s ≢ []
    → ((rest : Text) → s ≢ 32 ∷ rest)
    → trim_right (take k s) ++ tail ≢ 32 ∷ rest
take-trim_right-head zero s rest tail h n d e = absurd (omega arith)
take-trim_right-head (suc k) [] rest tail h n d e = n refl
take-trim_right-head (suc k) (c ∷ cs) rest tail h n d e = d cs (ap (λ (x : ℕ). x ∷ cs) same)
  where
    kept : trim_right (c ∷ take k cs) ≡ c ∷ trim_right (take k cs)
    kept = trim_right-cons c (take k cs) (λ p. d cs (ap (λ (x : ℕ). x ∷ cs) p))

    same : c ≡ 32
    same = cc (ap (λ (l : Text). l ++ tail) kept)

-- Eleven bytes of suffix at most, so nine of the name stay.
length-suffix_of : (n : ℕ) → n < 10 ^ 10 → length (suffix_of n) ≤ 11
unfolding suffix_of
length-suffix_of n h = omega (arith, length-print_ℕ 9 n h)

suffix_of-IsNameByte : (n : ℕ) → All IsNameByte (suffix_of n)
unfolding suffix_of
suffix_of-IsNameByte n = (ground arith, digits-IsNameByte (print_ℕ n) (print_ℕ-IsDigit n))

candidate-IsName :
    (wanted : Text) (n : ℕ) → n < 10 ^ 10 → IsName wanted → IsName (candidate wanted n)
unfolding candidate
candidate-IsName wanted n small w =
    let k = username_max - length (suffix_of n) in
    let base = trim_right (take k wanted) in
    let len = length-suffix_of n small in
    record {
      nonempty = append-ne-nil base b'-' (print_ℕ n);
      short = omega (
        arith,
        length-append base (suffix_of n),
        length-trim_right-le (take k wanted),
        length-take k wanted,
      );
      bytes =
          All-append IsNameByte base (suffix_of n)
            (All-trim_right IsNameByte (take k wanted) (All-take IsNameByte k wanted w.bytes))
            (suffix_of-IsNameByte n);
      no_leading = λ rest.
          take-trim_right-head k wanted rest (suffix_of n) (omega arith) w.nonempty w.no_leading;
      no_trailing = (ends_space_iff (base ++ suffix_of n)).0 (
          ends_space-append base b'-' (print_ℕ n)
          ∙ digits-ends_space (print_ℕ n) b'-' (omega arith) (print_ℕ-IsDigit n));
      not_reserved = λ e. cc (has_dash-append base (print_ℕ n), e, no_dash);
    }

-- While fewer than 2 ^ 32 - 2 names are in use, so that the counter cannot wrap, a legal name gets a
-- result: the name itself if it is free, else another. The search ends, the result is not in use,
-- and it is a legal name in turn.
pub next_free_username_lem :
    (wanted : Text) (taken : List Text)
    → IsName wanted
    → length taken + 2 < 2 ^ 32
    → (name : Text) × (next_free_username wanted taken ≡ some name)
      × (taken_in name taken ≡ false)
      × IsName name
      × (taken_in wanted taken ≡ false → name ≡ wanted)
unfolding next_free_username
next_free_username_lem wanted taken w h = elim (Bool-cases (taken_in wanted taken)) [
  | inr unused ↦ (wanted, rw unused, unused, w, λ _. refl)
  | inl used ↦
      (let (m, le, found, bound, unused) =
          search_free-IsFound (suc (length taken)) 2 wanted taken (omega arith) in
        (
          candidate wanted m,
          rw used found,
          unused,
          candidate-IsName wanted m (omega arith) w,
          λ e. cc,
        ))
]
