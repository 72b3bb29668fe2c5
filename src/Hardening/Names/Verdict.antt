-- ===== src/Hardening/Names/Verdict.antt =====
-- Which names `validate_username` accepts.
use ewb_server.Base.{
  ℕ, ◌≤◌, ◌≡◌, ◌≢◌, ◌↔◌, inl, inr, refl, ap, [], ◌∷◌, ◌++◌, map, true, false, length, All, Text,
  arith, codes, text_beq_iff, Bool-cases,
}
use ewb_server.Hardening.Names.{
  ok, bad_byte, any_bad, lower, is_reserved, starts_space, ends_space, validate_username,
  username_reserved,
}

-- Printable ASCII, and none of `:`, `[` and `]`.
pub record IsNameByte (c : ℕ) : Type 0 where
  pub low : 0x20 ≤ c
  pub high : c ≤ 0x7e
  pub no_colon : c ≢ b':'
  pub no_open : c ≢ b'['
  pub no_close : c ≢ b']'

pub record IsName (name : Text) : Type 0 where
  pub nonempty : name ≢ []
  pub short : length name ≤ 20
  pub bytes : All IsNameByte name
  pub no_leading : (rest : Text) → name ≢ 32 ∷ rest
  pub no_trailing : (front : Text) → name ≢ front ++ (32 ∷ [])
  pub not_reserved : map lower name ≢ codes "server"

bad_byte_iff : (c : ℕ) → (bad_byte c ≡ false) ↔ IsNameByte c
unfolding bad_byte
bad_byte_iff c = ground arith

any_bad_iff : (s : Text) → (any_bad s ≡ false) ↔ All IsNameByte s
unfolding any_bad
any_bad_iff [] = (λ e. tt, λ e. refl)
any_bad_iff (c ∷ cs) = ground (arith, bad_byte_iff c, any_bad_iff cs)

space_head : (s : Text) → starts_space s ≡ true → (rest : Text) × (s ≡ 32 ∷ rest)
unfolding starts_space
space_head [] e = cc
space_head (c ∷ cs) e = (cs, ground arith)

starts_space-cons : (rest : Text) → starts_space (32 ∷ rest) ≡ true
unfolding starts_space
starts_space-cons rest = refl

starts_space_iff : (s : Text) → (starts_space s ≡ false) ↔ ((rest : Text) → s ≢ 32 ∷ rest)
starts_space_iff s = (
  λ e rest h. cc (ap starts_space h, starts_space-cons rest),
  λ none_leads. elim (Bool-cases (starts_space s)) [
    | inl e ↦ let (rest, h) = space_head s e in absurd (none_leads rest h)
    | inr e ↦ e
  ],
)

space_end : (s : Text) → ends_space s ≡ true → (front : Text) × (s ≡ front ++ (32 ∷ []))
unfolding ends_space
space_end [] e = cc
space_end (c ∷ []) e = ([], ground arith)
space_end (c ∷ d ∷ cs) e = let (front, h) = space_end (d ∷ cs) e in (c ∷ front, ap (◌∷◌ c) h)

ends_space-snoc : (front : Text) → ends_space (front ++ (32 ∷ [])) ≡ true
unfolding ends_space
ends_space-snoc [] = refl
ends_space-snoc (c ∷ []) = refl
ends_space-snoc (c ∷ d ∷ cs) = ends_space-snoc (d ∷ cs)

pub ends_space_iff : (s : Text) → (ends_space s ≡ false) ↔ ((front : Text) → s ≢ front ++ (32 ∷ []))
ends_space_iff s = (
  λ e front h. cc (ap ends_space h, ends_space-snoc front),
  λ none_ends. elim (Bool-cases (ends_space s)) [
    | inl e ↦ let (front, h) = space_end s e in absurd (none_ends front h)
    | inr e ↦ e
  ],
)

-- The conditions in the order of the code.
record IsPassed (name : Text) : Type 0 where
  nonempty : name ≢ []
  short : length name ≤ 20
  starts : starts_space name ≡ false
  ends : ends_space name ≡ false
  bytes : any_bad name ≡ false
  free : is_reserved name ≡ false

validate_username-IsPassed : (name : Text) → (validate_username name ≡ ok) ↔ IsPassed name
unfolding validate_username
validate_username-IsPassed [] = (λ e. cc, λ p. absurd (p.nonempty refl))
validate_username-IsPassed (c ∷ cs) =
    (λ e. ground arith, λ p. ground (arith, p.short, p.starts, p.ends, p.bytes, p.free))

is_reserved_iff : (name : Text) → (is_reserved name ≡ false) ↔ (map lower name ≢ codes "server")
unfolding is_reserved
is_reserved_iff name = ground (arith, text_beq_iff (map lower name) username_reserved)

-- A name is accepted exactly if it has 1 to 20 bytes, all of them printable ASCII and none of `:`,
-- `[` and `]`, it neither begins nor ends with a space, and it is not `server` in any letter case.
pub validate_username_iff : (name : Text) → (validate_username name ≡ ok) ↔ IsName name
validate_username_iff name = (
  λ e.
      (let p = (validate_username-IsPassed name).0 e in
        record {
          nonempty = p.nonempty;
          short = p.short;
          bytes = (any_bad_iff name).0 p.bytes;
          no_leading = (starts_space_iff name).0 p.starts;
          no_trailing = (ends_space_iff name).0 p.ends;
          not_reserved = (is_reserved_iff name).0 p.free;
        }),
  λ h. (validate_username-IsPassed name).1 (record {
    nonempty = h.nonempty;
    short = h.short;
    bytes = (any_bad_iff name).1 h.bytes;
    starts = (starts_space_iff name).1 h.no_leading;
    ends = (ends_space_iff name).1 h.no_trailing;
    free = (is_reserved_iff name).1 h.not_reserved;
  }),
)
