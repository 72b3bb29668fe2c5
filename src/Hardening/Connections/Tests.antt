-- ===== src/Hardening/Connections/Tests.antt =====
-- Connections from concrete addresses.
use ewb_server.Base.{List, [], ◌∷◌, codes, arith}
use ewb_server.Hardening.Connections.{Event, arrives, ends, new, run}
use ewb_server.Hardening.Connections.Counts.{IsCounted, run-IsCounted}

abbrev events : List Event
events =
    arrives (codes "a")
    ∷ arrives (codes "b")
    ∷ arrives (codes "a")
    ∷ ends (codes "a")
    ∷ ends (codes "c")
    ∷ []

run-IsCounted_example : IsCounted (run events (new 1, [])).0 (run events (new 1, [])).1
run-IsCounted_example = run-IsCounted 1 events (omega arith)
