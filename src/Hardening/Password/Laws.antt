-- ===== src/Hardening/Password/Laws.antt =====
-- The comparison is equality, and a password file's line ending does not matter.
use ewb_server.Base.{
  ℕ, ◌≡◌, ◌≢◌, ◌↔◌, refl, sym, ap, ◌∙◌, [], ◌∷◌, ◌++◌, true, ◌==◌, if◌then◌else◌, length, Text,
  bit_xor, bit_or-zero, bit_xor-zero, append_assoc, arith, All,
}
use ewb_server.Hardening.Password.{
  fold_diff, const_time_eq, first_line, drop_returns, password_from_file_text,
}

-- A difference that was found stays.
fold_diff_diff : (a b : Text) (d : ℕ) → fold_diff d a b ≡ 0 → d ≡ 0
unfolding fold_diff
fold_diff_diff [] [] d e = e
fold_diff_diff (x ∷ xs) [] d e = ((bit_or-zero d _).0 (fold_diff_diff xs [] _ e)).0
fold_diff_diff [] (y ∷ ys) d e = ((bit_or-zero d _).0 (fold_diff_diff [] ys _ e)).0
fold_diff_diff (x ∷ xs) (y ∷ ys) d e = ((bit_or-zero d _).0 (fold_diff_diff xs ys _ e)).0

fold_diff-eq : (a b : Text) (d : ℕ) → length a ≡ length b → fold_diff d a b ≡ 0 → a ≡ b
unfolding fold_diff
fold_diff-eq [] [] d h e = refl
fold_diff-eq (x ∷ xs) [] d h e = absurd (omega arith)
fold_diff-eq [] (y ∷ ys) d h e = absurd (omega arith)
fold_diff-eq (x ∷ xs) (y ∷ ys) d h e =
    let same : x ≡ y = (bit_xor-zero x y).0 ((bit_or-zero d _).0 (fold_diff_diff xs ys _ e)).1 in
    cc (same, fold_diff-eq xs ys _ (omega arith) e)

fold_diff_self : (a : Text) (d : ℕ) → d ≡ 0 → fold_diff d a a ≡ 0
unfolding fold_diff
fold_diff_self [] d h = h
fold_diff_self (x ∷ xs) d h =
    fold_diff_self xs _ ((bit_or-zero d (bit_xor x x)).1 (h, (bit_xor-zero x x).1 refl))

const_time_eq_sound : (a b : Text) → const_time_eq a b ≡ true → a ≡ b
unfolding const_time_eq
const_time_eq_sound a b e = fold_diff-eq a b _ same_size no_diff
  where
    sizes : ℕ
    sizes = if bit_xor (length a) (length b) == 0 then 0 else 1

    no_diff : fold_diff sizes a b ≡ 0
    no_diff = ground arith

    same_size : length a ≡ length b
    same_size = ground (arith, bit_xor-zero (length a) (length b), fold_diff_diff a b sizes no_diff)

const_time_eq_self : (a : Text) → const_time_eq a a ≡ true
unfolding const_time_eq
const_time_eq_self a =
    rw ((bit_xor-zero (length a) (length a)).1 refl) (rw (fold_diff_self a 0 refl))

-- The comparison that never leaves early answers true exactly if the two texts are equal.
pub const_time_eq_iff : (a b : Text) → (const_time_eq a b ≡ true) ↔ (a ≡ b)
const_time_eq_iff a b = (const_time_eq_sound a b, λ e. rw (← e) (const_time_eq_self a))

-- No line feed stands in the text.
abbrev pub IsLine : Text → Type 0
IsLine = All (λ c. c ≢ 10)

first_line-append : (s rest : Text) → IsLine s → first_line (s ++ (10 ∷ rest)) ≡ s
unfolding first_line
first_line-append [] rest h = refl
first_line-append (c ∷ cs) rest h = ground (arith, first_line-append cs rest h.1, h.0)

first_line_all : (s : Text) → IsLine s → first_line s ≡ s
unfolding first_line
first_line_all [] h = refl
first_line_all (c ∷ cs) h = ground (arith, first_line_all cs h.1, h.0)

drop_returns-append : (s : Text) → drop_returns (s ++ (13 ∷ [])) ≡ drop_returns s
unfolding drop_returns
drop_returns-append [] = refl
drop_returns-append (c ∷ cs) = rw (drop_returns-append cs)

IsLine-append : (s : Text) → IsLine s → IsLine (s ++ (13 ∷ []))
IsLine-append [] h = (omega arith, tt)
IsLine-append (c ∷ cs) h = (h.0, IsLine-append cs h.1)

-- A file that holds a password on its first line gives the same password with no line ending, with
-- a line feed and with a carriage return and a line feed, whatever lines follow.
pub password_from_file_text_endings :
    (pw rest : Text)
    → IsLine pw
    → (password_from_file_text (pw ++ (10 ∷ rest)) ≡ password_from_file_text pw)
      × (password_from_file_text (pw ++ (13 ∷ 10 ∷ rest)) ≡ password_from_file_text pw)
unfolding password_from_file_text
password_from_file_text_endings pw rest h = (
  ap drop_returns (first_line-append pw rest h ∙ same),
  ap drop_returns (ap first_line (sym (append_assoc pw (13 ∷ []) (10 ∷ rest))))
      ∙ ap drop_returns (first_line-append (pw ++ (13 ∷ [])) rest (IsLine-append pw h))
      ∙ drop_returns-append pw
      ∙ ap drop_returns same,
)
  where
    same : pw ≡ first_line pw
    same = sym (first_line_all pw h)
