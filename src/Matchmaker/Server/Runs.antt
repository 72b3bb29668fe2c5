-- ===== src/Matchmaker/Server/Runs.antt =====
-- Whatever the peers send, in any order and at any times, and whatever the registry's file held.
use ewb_server.Base.{
  ℤ, pos, refl, List, [], ◌∷◌, ◌++◌, All, All-append, keep, length, leb, Text, Result, ok, err,
  Ensures, holds, inl, inr, Bool-cases,
}
use ewb_server.Zones.Set.{lines}
use ewb_server.Matchmaker.{Registration, max_registrations}
use ewb_server.Matchmaker.Names.Clean.{IsShown}
use ewb_server.Matchmaker.Trust.{Malformed}
use ewb_server.Matchmaker.Lines.{parse_persisted_line}
use ewb_server.Matchmaker.Lines.Accepted.{IsInet, IsRow, parse_persisted_line-IsRow}
use ewb_server.Matchmaker.Listing.{format_list}
use ewb_server.Matchmaker.Listing.Rows.{IsListing, format_list-IsListing}
use ewb_server.Matchmaker.Registry.{orphan, settle, refresh, answers, load_stale}
use ewb_server.Matchmaker.Registry.Apart.{All-keep_apart}
use ewb_server.Matchmaker.Registry.Adding.{IsRegistry}
use ewb_server.Matchmaker.Registry.Sweeping.{
  All-update, All-refresh, IsUpdate-IsRegistry, orphan-IsUpdate, calls-IsRegistry,
}
use ewb_server.Matchmaker.Registry.Restart.{reloaded}
use ewb_server.Matchmaker.Server.{
  Config, with_row, parse_lines, reload, Event, opens, says, closes, settles, step, run,
}
use ewb_server.Matchmaker.Server.Kept.{
  IsRow-update, Kept, Kept-refl, Kept-trans, first_line-Kept, later_line-Kept,
}

-- The peer's address is what `inet_ntop` gave for its socket.
abbrev pub IsFromPeer : Event → Type 0
IsFromPeer (opens id ip now line) = All IsShown ip
IsFromPeer (says id ip now line) = All IsShown ip
IsFromPeer (closes id) = Unit {0}
IsFromPeer (settles now alive stale) = Unit {0}

module _ (cfg : Config) (law : IsInet cfg.inet) (own : All IsShown cfg.advertise_ip) where
  step-Kept : (e : Event) (rows : List Registration) → IsFromPeer e → Kept rows (step cfg e rows)
  unfolding step settle
  step-Kept (opens id ip now line) rows h = first_line-Kept cfg law own id ip now line rows h
  step-Kept (says id ip now line) rows h = later_line-Kept cfg law own id ip now line rows h
  step-Kept (closes id) rows h = (
    All-update IsRow IsRow-update rows (orphan id rows).0 (orphan-IsUpdate id rows),
    IsUpdate-IsRegistry rows (orphan id rows).0 (orphan-IsUpdate id rows),
  )
  step-Kept (settles now alive stale) rows h =
      let fresh = refresh now (keep (answers alive) stale) rows in
      (
        λ all.
            All-keep_apart IsRow _ fresh
              (All-refresh now (keep (answers alive) stale) rows IsRow IsRow-update all),
        λ v. (calls-IsRegistry 0 now (pos 0) alive stale rows v).4,
      )

  run-Kept :
      (es : List Event) (rows : List Registration) → All IsFromPeer es → Kept rows (run cfg es rows)
  unfolding run
  run-Kept [] rows h = Kept-refl rows
  run-Kept (e ∷ es) rows h =
      Kept-trans rows (step cfg e rows) (run cfg es (step cfg e rows)) (step-Kept e rows h.0)
        (run-Kept es (step cfg e rows) h.1)

  with_row-IsRow :
      (m : Result Malformed Registration) (rs : List Registration)
      → Ensures IsRow m
      → All IsRow rs
      → All IsRow (with_row m rs)
  unfolding with_row
  with_row-IsRow (err e) rs h k = k
  with_row-IsRow (ok r) rs (holds v) k = (v, k)

  parse_lines-IsRow : (ls : List Text) → All IsRow (parse_lines cfg.inet ls)
  unfolding parse_lines
  parse_lines-IsRow [] = tt
  parse_lines-IsRow (l ∷ ls) =
      with_row-IsRow (parse_persisted_line cfg.inet l) (parse_lines cfg.inet ls)
        (parse_persisted_line-IsRow cfg.inet law l) (parse_lines-IsRow ls)

  load_stale-IsRow :
      (rs : List Registration) (now : ℤ) (es : List Registration)
      → All IsRow rs
      → All IsRow es
      → All IsRow (load_stale rs now es)
  unfolding load_stale
  load_stale-IsRow [] now es h k = k
  load_stale-IsRow (r ∷ rs) now es h k = elim (Bool-cases (leb max_registrations (length es))) [
    | inl y ↦ rw y k
    | inr n ↦ rw n (
        load_stale-IsRow rs now (es ++ (reloaded now r ∷ [])) h.1 (
          All-append IsRow es (reloaded now r ∷ []) k
            (IsRow-update r (reloaded now r) refl refl refl h.0, tt)))
  ]

  -- Whatever the registry's file holds, and whatever lines any peers send after it was loaded, the
  -- reply to LIST is one row for each registration, most players first and then by name, and END:
  -- cut at its line ends and colons it has no field and no line but these. No peer can forge a row.
  pub run-IsListing :
      (file : Text) (start : ℤ) (es : List Event)
      → All IsFromPeer es
      → IsListing cfg.form
          (run cfg es (reload cfg file start))
          (format_list (run cfg es (reload cfg file start)) cfg.form)
  unfolding reload
  run-IsListing file start es h =
      let loaded = load_stale (parse_lines cfg.inet (lines file)) start [] in
      format_list-IsListing (run cfg es loaded) cfg.form (
        (run-Kept es loaded h).0 (
          load_stale-IsRow (parse_lines cfg.inet (lines file)) start []
            (parse_lines-IsRow (lines file)) tt))

  -- From a registry in order, and so from an empty one, the lines of any peers and any sweeps lead
  -- to a registry in order: no two rows of one address, no connection with two rows, 512 at most.
  pub run-IsRegistry :
      (es : List Event) (rows : List Registration)
      → All IsFromPeer es
      → IsRegistry rows
      → IsRegistry (run cfg es rows)
  run-IsRegistry es rows h = (run-Kept es rows h).1
