-- ===== src/Hardening/Names/Suffix.antt =====
-- The name that a second player of the same name gets.
use ewb_server.Base.{
  ℕ, zero, suc, ◌+◌, ◌≤◌, ◌<◌, ◌≡◌, ◌≢◌, inl, inr, refl, sym, ap, ◌∙◌, List, [], ◌∷◌, ◌++◌, true,
  false, ◌==◌, length, All, Text, arith, text_beq, text_beq_iff, Bool-cases, Option, some,
  if◌then◌else◌, print_ℕ,
}
use ewb_server.Base.Decimal.RoundTrip.{IsDigit, print_ℕ-IsDigit, print_ℕ-injective}
use ewb_server.Hardening.Names.{candidate, taken_in, search_free}

-- What stands behind the last dash.
after_dash : Text → Text → Text
after_dash kept [] = kept
after_dash kept (c ∷ cs) = after_dash (if c == b'-' then cs else kept) cs

after_dash-digits : (kept ds : Text) → All IsDigit ds → after_dash kept ds ≡ kept
unfolding after_dash
after_dash-digits kept [] h = refl
after_dash-digits kept (c ∷ cs) h =
    let plain : (c == b'-') ≡ false = ground (arith, h.0) in
    rw plain (after_dash-digits kept cs h.1)

after_dash-append : (kept xs ds : Text) → All IsDigit ds → after_dash kept (xs ++ (b'-' ∷ ds)) ≡ ds
unfolding after_dash
after_dash-append kept [] ds h = after_dash-digits ds ds h
after_dash-append kept (x ∷ xs) ds h =
    after_dash-append (if x == b'-' then xs ++ (b'-' ∷ ds) else kept) xs ds h

after_dash-candidate : (wanted : Text) (n : ℕ) → after_dash [] (candidate wanted n) ≡ print_ℕ n
unfolding candidate
after_dash-candidate wanted n = after_dash-append [] _ (print_ℕ n) (print_ℕ-IsDigit n)

-- The suffix tells the candidates apart, whatever is cut from the base.
candidate-injective : (wanted : Text) (m n : ℕ) → candidate wanted m ≡ candidate wanted n → m ≡ n
candidate-injective wanted m n e =
    print_ℕ-injective m n
      (sym (after_dash-candidate wanted m) ∙ ap (after_dash []) e ∙ after_dash-candidate wanted n)

-- The names in use but one.
without : Text → List Text → List Text
without name [] = []
without name (t ∷ ts) = if text_beq name t then without name ts else t ∷ without name ts

length-without-le : (name : Text) (ts : List Text) → length (without name ts) ≤ length ts
unfolding without
length-without-le name [] = omega arith
length-without-le name (t ∷ ts) = ground (arith, length-without-le name ts)

length-without-lt :
    (name : Text) (ts : List Text) → taken_in name ts ≡ true → length (without name ts) < length ts
unfolding without taken_in
length-without-lt name [] h = cc
length-without-lt name (t ∷ ts) h =
    ground (arith, length-without-le name ts, length-without-lt name ts)

taken_in-without :
    (name other : Text) (ts : List Text)
    → other ≢ name
    → taken_in other (without name ts) ≡ taken_in other ts
unfolding without taken_in
taken_in-without name other [] h = refl
taken_in-without name other (t ∷ ts) h =
    ground (arith, text_beq_iff name t, text_beq_iff other t, taken_in-without name other ts)

-- A name that no candidate is may be left out of the names in use.
search_free-without :
    (fuel n : ℕ) (wanted name : Text) (ts : List Text)
    → ((m : ℕ) → n ≤ m → candidate wanted m ≢ name)
    → search_free fuel n wanted (without name ts) ≡ search_free fuel n wanted ts
unfolding search_free
search_free-without zero n wanted name ts h = refl
search_free-without (suc fuel) n wanted name ts h = rw (
  taken_in-without name (candidate wanted n) ts (h n (omega arith)),
  search_free-without fuel (n + 1) wanted name ts (λ m le. h m (omega arith)),
)

-- The search stops before it has tried more names than are in use.
abbrev pub IsFound : ℕ → Text → List Text → Option Text → Type 0
IsFound n wanted ts r =
    (m : ℕ) × (n ≤ m)
    × (r ≡ some (candidate wanted m))
    × (m ≤ n + length ts)
    × (taken_in (candidate wanted m) ts ≡ false)

pub search_free-IsFound :
    (fuel n : ℕ) (wanted : Text) (ts : List Text)
    → length ts < fuel
    → IsFound n wanted ts (search_free fuel n wanted ts)
unfolding search_free
search_free-IsFound zero n wanted ts h = absurd (omega arith)
search_free-IsFound (suc fuel) n wanted ts h =
    elim (Bool-cases (taken_in (candidate wanted n) ts)) [
      | inr open_name ↦ (n, omega arith, rw open_name, omega arith, open_name)
      | inl used ↦
          (let c = candidate wanted n in
            let later : (m : ℕ) → n + 1 ≤ m → candidate wanted m ≢ c =
              λ m le e. omega (arith, candidate-injective wanted m n e) in
            let fewer = length-without-lt c ts used in
            let (m, le, found, bound, unused) =
              search_free-IsFound fuel (n + 1) wanted (without c ts) (omega arith) in
            (
              m,
              omega arith,
              rw used (sym (search_free-without fuel (n + 1) wanted c ts later) ∙ found),
              omega arith,
              sym (taken_in-without c (candidate wanted m) ts (later m le)) ∙ unused,
            ))
    ]
