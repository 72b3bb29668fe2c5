-- ===== src/Region/Tests.antt =====
-- Boxes and cells at concrete values.
use ewb_server.Base.{pos, All, arith}
use ewb_server.Region.Cells.{IsAllowed, emit_cell_records, emit_cell_records-IsAllowed}
use ewb_server.Region.Box.{IsCover, region_box, region_box-IsCover}

region_box-IsCover_example :
    IsCover
      (pos 100)
      (pos 224)
      (region_box (pos 100) (pos 70000) (pos 224)).x0
      (region_box (pos 100) (pos 70000) (pos 224)).x1
    × IsCover
        (pos 70000)
        (pos 224)
        (region_box (pos 100) (pos 70000) (pos 224)).z0
        (region_box (pos 100) (pos 70000) (pos 224)).z1
region_box-IsCover_example = region_box-IsCover (pos 100) (pos 70000) (pos 224)

emit_cell_records-IsAllowed_example :
    All (IsAllowed (pos 1) (pos 2) (pos 3)) (emit_cell_records (pos 1) (pos 2) (pos 3) 255 200)
emit_cell_records-IsAllowed_example =
    emit_cell_records-IsAllowed (pos 1) (pos 2) (pos 3) 255 200 (omega arith)
