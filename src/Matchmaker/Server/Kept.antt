-- ===== src/Matchmaker/Server/Kept.antt =====
-- One line of a peer: the rows that can be listed before it can be listed after it, and a registry
-- in order stays in order.
use ewb_server.Base.{
  ℕ, ℤ, ◌≡◌, refl, List, [], ◌∷◌, ◌&&◌, ◌||◌, not, Option, none, some, All, All-append, length, leb,
  ◌==◌, Text, codes, text_beq, Result, ok, err, Ensures, holds, inl, inr, Bool-cases, if◌then◌else◌,
}
use ewb_server.Zones.{is_empty}
use ewb_server.Matchmaker.{Registration, max_registrations}
use ewb_server.Matchmaker.Names.Clean.{IsShown}
use ewb_server.Matchmaker.Trust.{trusted, Malformed}
use ewb_server.Matchmaker.Lines.{starts_with, parse_register, advertise_policy, parse_ping}
use ewb_server.Matchmaker.Lines.Accepted.{
  IsInet, IsRow, parse_register-IsRow, advertise_policy-IsRow,
}
use ewb_server.Matchmaker.Registry.{
  Added, same, owned, find_if, assign, count_if, stamped, take_over, add_new, add_mine, add_hit,
  add, is_foreign, touch, set_players,
}
use ewb_server.Matchmaker.Registry.Apart.{All-assign, All-keep_apart}
use ewb_server.Matchmaker.Registry.Adding.{IsRegistry, add-IsRegistry}
use ewb_server.Matchmaker.Registry.Sweeping.{
  All-update, IsUpdate-IsRegistry, touch-IsUpdate, set_players-IsUpdate,
}
use ewb_server.Matchmaker.Server.{
  Config, use_ip, claimed, do_register, first_reply, first_line, counted, later_reply, later_line,
}

module _ (reg : Registration) (conn : ℕ) (now : ℤ) (cap : ℕ) (P : Registration → Type 0)
    (new : (players : ℤ) → P (stamped reg conn now players)) where
  All-add_new : (es : List Registration) → All P es → All P (add_new reg conn now cap es).rows
  unfolding add_new
  All-add_new es h =
      elim (Bool-cases (
        not (cap == 0)
        && not (is_empty reg.peer)
        && leb cap (count_if (λ e. text_beq e.peer reg.peer) es))) [
          | inl y ↦ rw y h
          | inr n ↦ rw n (elim (Bool-cases (leb max_registrations (length es))) [
            | inl y ↦ rw y h
            | inr m ↦
                rw m
                  (All-append P es (stamped reg conn now reg.players ∷ []) h (new reg.players, tt))
          ])
        ]

  All-add_mine :
      (mine : Option Registration) (es : List Registration)
      → All P es
      → All P (add_mine mine reg conn now cap es).rows
  unfolding add_mine
  All-add_mine none es h = All-add_new es h
  All-add_mine (some x) es h = All-assign P (owned conn) _ es (new x.players) h

  All-add_hit :
      (hit : Option Registration) (es : List Registration)
      → All P es
      → All P (add_hit hit reg conn now cap es).rows
  unfolding add_hit take_over
  All-add_hit none es h = All-add_mine (find_if (owned conn) es) es h
  All-add_hit (some x) es h = elim (Bool-cases (is_foreign x conn reg.peer)) [
    | inl y ↦ rw y h
    | inr n ↦ rw n (
        All-keep_apart P (λ e. not (owned conn e && not (same reg e)))
          (assign (same reg) (stamped reg conn now x.players) es)
          (All-assign P (same reg) (stamped reg conn now x.players) es (new x.players) h))
  ]

  All-add : (es : List Registration) → All P es → All P (add reg conn now cap es).rows
  unfolding add
  All-add es h = All-add_hit (find_if (same reg) es) es h

pub IsRow-update :
    (e f : Registration) → f.name ≡ e.name → f.ip ≡ e.ip → f.port ≡ e.port → IsRow e → IsRow f
IsRow-update e f n i p v = record {
  name = rw n v.name;
  named = rw n v.named;
  ip = rw i v.ip;
  port = rw p v.port;
}

-- What every event leaves: rows that can be listed, and, if they were in order, an ordered registry.
abbrev pub Kept : List Registration → List Registration → Type 0
Kept es fs = (All IsRow es → All IsRow fs) × (IsRegistry es → IsRegistry fs)

pub Kept-refl : (es : List Registration) → Kept es es
Kept-refl es = (λ h. h, λ v. v)

pub Kept-trans : (es fs gs : List Registration) → Kept es fs → Kept fs gs → Kept es gs
Kept-trans es fs gs a b = (λ h. b.0 (a.0 h), λ v. b.1 (a.1 v))

module _ (cfg : Config) (law : IsInet cfg.inet) (own : All IsShown cfg.advertise_ip) where
  use_ip-IsShown : (ip : Text) → All IsShown ip → All IsShown (use_ip cfg ip)
  unfolding use_ip
  use_ip-IsShown ip h = elim (Bool-cases (is_empty cfg.advertise_ip)) [
    | inl y ↦ rw y h
    | inr n ↦ rw n own
  ]

  claimed-IsRow :
      (ip : Text) (r : Registration) → All IsShown ip → IsRow r → IsRow (claimed cfg ip r)
  unfolding claimed
  claimed-IsRow ip r h v =
      let known = trusted cfg.inet ip cfg.nets in
      IsRow-update (advertise_policy r ip (use_ip cfg ip) known).0
        (record (advertise_policy r ip (use_ip cfg ip) known).0 { peer = ip }) refl refl refl
        (advertise_policy-IsRow r ip (use_ip cfg ip) known (use_ip-IsShown ip h) v)

  -- The rows after a registration, or those from before for a line that is none.
  abbrev rows_after : List Registration → Option Added → List Registration
  rows_after rows none = rows
  rows_after rows (some a) = a.rows

  registered-Kept :
      (id : ℕ) (ip : Text) (now : ℤ) (m : Result Malformed Registration) (rows : List Registration)
      → All IsShown ip
      → Ensures IsRow m
      → Kept rows (rows_after rows (do_register cfg id ip now m rows))
  unfolding do_register
  registered-Kept id ip now (err e) rows h v = Kept-refl rows
  registered-Kept id ip now (ok r) rows h (holds v) =
      let cap : ℕ = if trusted cfg.inet ip cfg.nets then 0 else 8 in
      let row = claimed-IsRow ip r h v in
      (
        All-add (claimed cfg ip r) id now cap IsRow
            (λ players.
              IsRow-update (claimed cfg ip r) (stamped (claimed cfg ip r) id now players) refl refl
                refl row)
            rows,
        add-IsRegistry (claimed cfg ip r) id now cap rows,
      )

  module _ (id : ℕ) (ip : Text) (now : ℤ) (line : Text) (rows : List Registration)
      (peer : All IsShown ip) where
    parsed : Result Malformed Registration
    parsed = parse_register cfg.inet line (use_ip cfg ip)

    parsed-Kept :
        (es : List Registration) → Kept es (rows_after es (do_register cfg id ip now parsed es))
    unfolding parsed
    parsed-Kept es =
        registered-Kept id ip now (parse_register cfg.inet line (use_ip cfg ip)) es peer
          (parse_register-IsRow cfg.inet law line (use_ip cfg ip) (use_ip-IsShown ip peer))

    first_reply-rows : (o : Option Added) → (first_reply rows o).rows ≡ rows_after rows o
    unfolding first_reply
    first_reply-rows none = refl
    first_reply-rows (some a) = refl

    later_reply-rows :
        (es : List Registration) (o : Option Added) → (later_reply es o).rows ≡ rows_after es o
    unfolding later_reply
    later_reply-rows es none = refl
    later_reply-rows es (some a) = refl

    pub first_line-Kept : Kept rows (first_line cfg id ip now line rows).rows
    unfolding first_line parsed
    first_line-Kept =
        elim (Bool-cases (text_beq line (codes "LIST") || text_beq line (codes "LISTP"))) [
          | inl y ↦ rw y (Kept-refl rows)
          | inr n ↦ rw n (elim (Bool-cases (starts_with (codes "HOST:") line)) [
            | inl y ↦ rw y (Kept-refl rows)
            | inr m ↦ rw m (elim (Bool-cases (starts_with (codes "REGISTER:") line)) [
              | inl y ↦
                  rw (y, first_reply-rows (do_register cfg id ip now parsed rows))
                    (parsed-Kept rows)
              | inr k ↦ rw k (Kept-refl rows)
            ])
          ])
        ]

    touch-Kept : Kept rows (touch id now rows)
    touch-Kept = (
      All-update IsRow IsRow-update rows (touch id now rows) (touch-IsUpdate id now rows),
      IsUpdate-IsRegistry rows (touch id now rows) (touch-IsUpdate id now rows),
    )

    counted-Kept : (m : Result Malformed ℤ) (es : List Registration) → Kept es (counted id m es)
    unfolding counted
    counted-Kept (err e) es = Kept-refl es
    counted-Kept (ok n) es = (
      All-update IsRow IsRow-update es (set_players id n es) (set_players-IsUpdate id n es),
      IsUpdate-IsRegistry es (set_players id n es) (set_players-IsUpdate id n es),
    )

    pub later_line-Kept : Kept rows (later_line cfg id ip now line rows).rows
    unfolding later_line parsed
    later_line-Kept =
        let heard = touch id now rows in
        elim (Bool-cases (text_beq line (codes "PING") || starts_with (codes "PING:") line)) [
          | inl y ↦ rw y (
              Kept-trans rows heard (counted id (parse_ping line) heard) touch-Kept
                (counted-Kept (parse_ping line) heard))
          | inr n ↦ rw n (elim (Bool-cases (starts_with (codes "REGISTER:") line)) [
            | inl y ↦
                rw (y, later_reply-rows heard (do_register cfg id ip now parsed heard))
                  (Kept-trans rows heard (rows_after heard (do_register cfg id ip now parsed heard))
                    touch-Kept (parsed-Kept heard))
            | inr k ↦ rw k touch-Kept
          ])
        ]
