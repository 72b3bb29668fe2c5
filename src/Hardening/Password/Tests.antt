-- ===== src/Hardening/Password/Tests.antt =====
-- Passwords at concrete texts.
use ewb_server.Base.{◌≡◌, ◌↔◌, true, Text, codes}
use ewb_server.Hardening.Password.{const_time_eq}
use ewb_server.Hardening.Password.Laws.{const_time_eq_iff}

abbrev pw : Text
pw = codes "hi u"

const_time_eq_iff_example : (const_time_eq pw (codes "hi") ≡ true) ↔ (pw ≡ codes "hi")
const_time_eq_iff_example = const_time_eq_iff pw (codes "hi")
