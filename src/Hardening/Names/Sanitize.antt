-- ===== src/Hardening/Names/Sanitize.antt =====
-- What `sanitize_text` lets through.
use ewb_server.Base.{
  ℕ, zero, suc, ◌+◌, ◌-◌, ◌<◌, ◌≡◌, refl, sym, ap, ◌∙◌, [], ◌∷◌, Bool, ◌||◌, ltb, ◌==◌, take, keep,
  not, Text, arith,
}
use ewb_server.Hardening.Names.{sanitize_from, sanitize_text}

-- Neither an ASCII control character nor DEL.
abbrev pub is_text : ℕ → Bool
is_text c = not (ltb c 0x20 || (c == 0x7f))

take-cons : (n c : ℕ) (cs : Text) → 0 < n → take n (c ∷ cs) ≡ c ∷ take (n - 1) cs
take-cons zero c cs h = absurd (omega arith)
take-cons (suc n) c cs h = ap (λ (k : ℕ). c ∷ take k cs) (omega arith)

take_none : (n : ℕ) (cs : Text) → n ≡ 0 → take n cs ≡ []
take_none zero cs h = refl
take_none (suc n) cs h = absurd (omega arith)

take-nil : (n : ℕ) → take {A = ℕ} n [] ≡ []
take-nil zero = refl
take-nil (suc n) = refl

sanitize_from-keep : (m n : ℕ) (s : Text) → sanitize_from m n s ≡ take (m - n) (keep is_text s)
unfolding sanitize_from
sanitize_from-keep m n [] = sym (take-nil (m - n))
sanitize_from-keep m n (c ∷ cs) =
    let less : m - (n + 1) ≡ m - n - 1 = omega arith in
    ground (
      arith,
      sanitize_from-keep m n cs,
      sanitize_from-keep m (n + 1) cs,
      ap (λ (k : ℕ). take k (keep is_text cs)) less,
      take-cons (m - n) c (keep is_text cs),
      take_none (m - n) (keep is_text (c ∷ cs)),
    )

-- `sanitize_text` keeps the bytes that are neither control characters nor DEL, in order, and of
-- those the first `max_len`.
pub sanitize_text-keep : (s : Text) (m : ℕ) → sanitize_text s m ≡ take m (keep is_text s)
unfolding sanitize_text
sanitize_text-keep s m =
    sanitize_from-keep m 0 s ∙ ap (λ (k : ℕ). take k (keep is_text s)) (omega arith)
