-- ===== src/Hardening/Names/Tests.antt =====
-- Names at concrete texts.
use ewb_server.Base.{◌≡◌, ◌↔◌, refl, [], ◌∷◌, false, List, Text, codes, arith, some}
use ewb_server.Hardening.Names.{
  validate_username, starts_space, ends_space, any_bad, is_reserved, ok, next_free_username,
  taken_in,
}
use ewb_server.Hardening.Names.Verdict.{IsName, validate_username_iff}
use ewb_server.Hardening.Names.Legal.{next_free_username_lem}

abbrev ann : Text
ann = codes "Ann"

ann-ok : validate_username ann ≡ ok
unfolding validate_username starts_space ends_space any_bad is_reserved
ann-ok = refl

validate_username_iff_example : (validate_username ann ≡ ok) ↔ IsName ann
validate_username_iff_example = validate_username_iff ann

abbrev in_use : List Text
in_use = ann ∷ codes "Ann-2" ∷ []

next_free_username_lem_example :
    (name : Text) × (next_free_username ann in_use ≡ some name)
    × (taken_in name in_use ≡ false)
    × IsName name
    × (taken_in ann in_use ≡ false → name ≡ ann)
next_free_username_lem_example =
    next_free_username_lem ann in_use ((validate_username_iff ann).0 ann-ok) (omega arith)
