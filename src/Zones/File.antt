-- ===== src/Zones/File.antt =====
-- The zone file: what is written loads back, and a file that does not load changes nothing.
use ewb_server.Base.{
  ℕ, suc, ◌≡◌, refl, ap, sym, ◌∙◌, subst, append_assoc, append-nil, List, [], ◌∷◌, ◌++◌, none, some,
  length-append, All, Text, arith, Result, ok, err, ◌⊎◌, inl, inr,
}
use ewb_server.Zones.{Zone, zone_serialize_line}
use ewb_server.Zones.Line.{IsZone, zone_parse_line-serialize}
use ewb_server.Zones.Contents.{IsZoneSet, IsDistinct-middle, add_fresh}
use ewb_server.Zones.Reading.{IsLoaded, IsStopped, Outcome, load_lines-Outcome}
use ewb_server.Zones.Set.{
  ZoneSet, lines, drop_end, drop_front, load_line, load_lines, finish, load, zone_lines, serialize,
  heading_1, heading_2,
}
use ewb_server.Zones.Visible.{
  lines-put_line, visible_line, drop_end_visible, drop_front_visible,
  zone_serialize_line-AllVisible, line_skipped,
}

finish_lem :
    (ls : List Text) (out : ZoneSet) (r : Result (Text × ℕ) ZoneSet)
    → Outcome ls 0 [] r
    → (((finish out r).1 ≡ none) × IsLoaded ls [] (finish out r).0)
      ⊎ ((e : Text × ℕ) × ((finish out r).1 ≡ some e)
          × ((finish out r).0 ≡ out)
          × IsStopped ls 0 [] e)
unfolding finish
finish_lem ls out (ok zones) h = inl (refl, h)
finish_lem ls out (err e) h = inr (e, refl, refl, h)

-- Either the file loads: each of its lines, but for blank ones and comments, is a zone, and the set is
-- these zones in order, and valid: legal zones, no name twice, 256 zones at most. Or it does not, and
-- the set that was in force stays as it was: the error then holds the number of the first bad line,
-- counted from 1, all lines before it being good, and what is wrong with it: it is no zone, its name
-- is in use, or the set is full.
pub load_lem :
    (text : Text) (out : ZoneSet)
    → (((load text out).1 ≡ none) × IsLoaded (lines text) [] (load text out).0)
      ⊎ ((e : Text × ℕ) × ((load text out).1 ≡ some e)
          × ((load text out).0 ≡ out)
          × IsStopped (lines text) 0 [] e)
unfolding load
load_lem text out =
    finish_lem (lines text) out (load_lines 0 (lines text) []) (
      load_lines-Outcome 0 (lines text) []
        (record { legal = tt; distinct = tt; few = omega arith }))

load_lines-heading :
    (n : ℕ) (ls : List Text)
    → load_lines n (heading_1 ∷ heading_2 ∷ ls) [] ≡ load_lines (suc (suc n)) ls []
unfolding load_lines drop_end drop_front
load_lines-heading n ls = refl

load_line-serialize :
    (r : Zone) (rs built : ZoneSet)
    → IsZoneSet (built ++ (r ∷ rs))
    → IsZone r
    → load_line (zone_serialize_line r) built ≡ ok (built ++ (r ∷ []))
unfolding load_line
load_line-serialize r rs built v legal = rw (zone_parse_line-serialize r legal) (
    add_fresh r built (IsDistinct-middle built r rs v.distinct)
      (omega (arith, length-append built (r ∷ rs), v.few)))

load_lines-zone_lines :
    (n : ℕ) (built zones : ZoneSet)
    → IsZoneSet (built ++ zones)
    → All IsZone zones
    → load_lines n (lines (zone_lines zones)) built ≡ ok (built ++ zones)
unfolding load_lines zone_lines lines
load_lines-zone_lines n built [] v h = ap ok (sym (append-nil built))
load_lines-zone_lines n built (r ∷ rs) v h =
    let line = zone_serialize_line r in
    let vis = zone_serialize_line-AllVisible r h.0 in
    let e : (built ++ (r ∷ [])) ++ rs ≡ built ++ (r ∷ rs) = append_assoc built (r ∷ []) rs in
    rw
      (
        lines-put_line line (zone_lines rs) (visible_line line vis),
        drop_end_visible line vis,
        drop_front_visible line vis,
        line_skipped r h.0,
        load_line-serialize r rs built v h.0,
      )
      (load_lines-zone_lines (suc n) (built ++ (r ∷ [])) rs (subst IsZoneSet (sym e) v) h.1
        ∙ ap ok e)

-- A valid set that is written to a file and loaded from it is the same set, zone by zone and in
-- order.
pub load-serialize :
    (zones out : ZoneSet) → IsZoneSet zones → load (serialize zones) out ≡ (zones, none)
unfolding load serialize finish
load-serialize zones out v = rw (load_lines-zone_lines 2 [] zones v v.legal)
