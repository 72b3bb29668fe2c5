-- ===== src/ZoneGuard/Tests.antt =====
-- The theorems at concrete inputs.
use ewb_server.Base.{ℕ, ◌+◌, ◌≤◌, ◌≡◌, refl, ℤ, pos, [], ◌∷◌, List, All, codes, take, arith}
use ewb_server.ZoneGuard.{Denial, Call, run}
use ewb_server.ZoneGuard.Cells.{RevertCell, add_all, empty_set}
use ewb_server.ZoneGuard.Cells.Firsts.{IsCell, firsts, add_all-firsts}
use ewb_server.ZoneGuard.Counted.{told, waiting, run-told}

abbrev mine : Denial
mine = record {
  player = codes "ann";
  zone = codes "spawn";
  verb = codes "mine";
  x = pos 4;
  y = pos 5;
  z = pos 6;
}

abbrev calls : List Call
calls =
    Call.noted (pos 1) mine
    ∷ Call.noted (pos 2) mine
    ∷ Call.noted (pos 3) mine
    ∷ Call.flushed (pos 20)
    ∷ Call.noted (pos 21) mine
    ∷ []

run-told_example : told (run (pos 10) calls []).1 + waiting (run (pos 10) calls []).0 ≡ 4
run-told_example = run-told (pos 10) calls []

abbrev cell : ℤ → RevertCell
cell x = record { x = x; y = pos 5; z = pos 6 }

-- The first and the third are the same cell; the others are other places.
abbrev struck : List RevertCell
struck = cell (pos 1) ∷ cell (pos 9) ∷ cell (pos 1) ∷ cell (pos 2) ∷ []

cell-IsCell : (n : ℕ) → n ≤ 9 → IsCell (cell (pos n))
cell-IsCell n h = record {
  x = (omega arith, omega (arith, h));
  y = (omega arith, omega arith);
  z = (omega arith, omega arith);
}

struck-IsCell : All IsCell struck
struck-IsCell = (
  cell-IsCell 1 (omega arith),
  (cell-IsCell 9 (omega arith), (cell-IsCell 1 (omega arith), (cell-IsCell 2 (omega arith), tt))),
)

add_all-firsts_example : (add_all struck (empty_set 2)).cells ≡ take 2 (firsts [] struck)
add_all-firsts_example = add_all-firsts 2 struck struck-IsCell

struck-cells : take 2 (firsts [] struck) ≡ cell (pos 1) ∷ cell (pos 9) ∷ []
struck-cells = refl
