-- ===== src/Hardening/Lru/Tests.antt =====
-- The table at concrete contents.
use ewb_server.Base.{ℕ, refl, [], ◌∷◌, Text, codes, arith, lookup}
use ewb_server.Hardening.Lru.{LruTable, put}
use ewb_server.Hardening.Lru.Invariant.{IsValid}
use ewb_server.Hardening.Lru.Recency.{IsPut, put-IsPut}

abbrev ann : Text
ann = codes "ann"

abbrev bob : Text
bob = codes "bob"

abbrev cid : Text
cid = codes "cid"

abbrev full : LruTable ℕ
full = record { cap = 2; order = (ann, 1) ∷ (bob, 2) ∷ [] }

full-IsValid : IsValid full
unfolding lookup
full-IsValid = record { room = omega arith; size = omega arith; distinct = (refl, (refl, tt)) }

put-IsPut_example : IsPut cid 3 full (put cid 3 full).0 (put cid 3 full).1
put-IsPut_example = put-IsPut cid 3 full full-IsValid
