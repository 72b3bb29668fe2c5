-- ===== src/Snapz/Tests.antt =====
-- Bytes and records at concrete values. The packer is the identity, which `inflate` undoes.
use ewb_server.Base.{ℕ, refl, pos, negsuc, List, [], ◌∷◌, arith}
use ewb_server.Region.{SnapRec}
use ewb_server.Snapz.{encode_snapz}
use ewb_server.Snapz.Frames.{IsFrame, encode_snapz-IsFrame}

abbrev same_bytes : List ℕ → List ℕ
same_bytes raw = raw

abbrev records : List SnapRec
records = record { x = pos 65536; y = pos 33; z = pos 65537; flag = pos 1; type = negsuc 0 } ∷ []

encode_snapz-IsFrame_example : IsFrame same_bytes (encode_snapz same_bytes records) records
encode_snapz-IsFrame_example =
    encode_snapz-IsFrame same_bytes same_bytes (λ raw h. (h, refl)) records
      (
        record {
          x = omega arith;
          y = omega arith;
          z = omega arith;
          flag = omega arith;
          type = omega arith;
        },
        tt,
      )
