-- ===== src/Zones/Accepted.antt =====
-- What a line that is accepted holds.
use ewb_server.Base.{
  ℕ, ◌≡◌, refl, ℤ, pos, leb_ℤ, ltb_ℤ, min_ℤ, max_ℤ, ◌≤ℤ◌, List, [], Bool, true, false, ◌&&◌, ◌||◌,
  not, ltb, ◌==◌, Text, length, arith, ok, Ensures, holds, Ensures-ok, Ensures-guard, Ensures-bind,
  any_result, get_or,
}
use ewb_server.Zones.{
  Zone, zone_name_valid, zone_xz_in_range, zone_y_in_range, fields, coordinate, flag_of, level_of,
  level_number, store_zone, build_zone, parse_fields, zone_parse_line, zone_xz_max, zone_y_max,
}
use ewb_server.Zones.Line.{IsSide, IsZone}

sorted-IsSide :
    (top : ℕ) (a b : ℤ)
    → (leb_ℤ (pos 0) (min_ℤ a b) && leb_ℤ (min_ℤ a b) (pos top)) ≡ true
    → (leb_ℤ (pos 0) (max_ℤ a b) && leb_ℤ (max_ℤ a b) (pos top)) ≡ true
    → IsSide top (min_ℤ a b) (max_ℤ a b)
sorted-IsSide top a b h k = record {
  low = ground arith;
  ordered = ground arith;
  high = ground arith;
}

record IsLevel (has : Bool) (n : ℤ) : Type 0 where
  low : pos 0 ≤ℤ n
  high : n ≤ℤ pos 2
  no_level : has ≡ false → n ≡ pos 0

level_of-Ensures : (nine : Bool) (lv : Text) → Ensures (λ p. IsLevel p.0 p.1) (level_of nine lv)
unfolding level_of
level_of-Ensures false lv =
    holds (record { low = omega arith; high = omega arith; no_level = λ e. refl })
level_of-Ensures true lv = Ensures-bind (any_result (level_number lv)) λ n _.
    Ensures-guard (not (ltb_ℤ n (pos 0) || ltb_ℤ (pos 2) n)) _ λ g.
      holds {a = (true, n)}
        (record { low = ground (arith, g); high = ground (arith, g); no_level = λ e. cc })

and_true : {a b : Bool} → (a && b) ≡ true → (a ≡ true) × (b ≡ true)
and_true {a = true} h = (refl, h)
and_true {a = false} h = cc

store_zone-Ensures :
    (name : Text) (a b c d e f : ℤ) (flag : Text) (nine : Bool) (lv : Text)
    → zone_name_valid name ≡ true
    → Ensures IsZone (
        store_zone name
          (min_ℤ a d)
          (min_ℤ b e)
          (min_ℤ c f)
          (max_ℤ a d)
          (max_ℤ b e)
          (max_ℤ c f)
          flag
          nine
          lv)
unfolding store_zone
store_zone-Ensures name a b c d e f flag nine lv n =
    Ensures-guard
      (zone_xz_in_range (min_ℤ a d)
        && zone_xz_in_range (max_ℤ a d)
        && zone_xz_in_range (min_ℤ c f)
        && zone_xz_in_range (max_ℤ c f))
      _
      λ xz. Ensures-guard (zone_y_in_range (min_ℤ b e) && zone_y_in_range (max_ℤ b e)) _ λ y.
        Ensures-bind (any_result (flag_of flag)) λ on _.
          Ensures-bind (level_of-Ensures nine lv) λ p l.
            let (xyz, zh) = and_true xz in
            let (xs, zl) = and_true xyz in
            let (xl, xh) = and_true xs in
            let (yl, yh) = and_true y in
            holds (record {
              name = n;
              x = sorted-IsSide zone_xz_max a d xl xh;
              y = sorted-IsSide zone_y_max b e yl yh;
              z = sorted-IsSide zone_xz_max c f zl zh;
              level_low = l.low;
              level_high = l.high;
              no_level = l.no_level;
            })

parse_fields-Ensures : (f : List Text) → Ensures IsZone (parse_fields f)
unfolding parse_fields build_zone
parse_fields-Ensures f = Ensures-guard (not (ltb (length f) 8 || ltb 9 (length f))) _ λ _.
    Ensures-guard (zone_name_valid (get_or f 0 [])) _ λ n.
      Ensures-bind (any_result (coordinate (get_or f 1 []))) λ a _.
        Ensures-bind (any_result (coordinate (get_or f 2 []))) λ b _.
          Ensures-bind (any_result (coordinate (get_or f 3 []))) λ c _.
            Ensures-bind (any_result (coordinate (get_or f 4 []))) λ d _.
              Ensures-bind (any_result (coordinate (get_or f 5 []))) λ e _.
                Ensures-bind (any_result (coordinate (get_or f 6 []))) λ g _.
                  store_zone-Ensures (get_or f 0 []) a b c d e g (get_or f 7 []) (length f == 9)
                    (get_or f 8 []) n

-- A line that is accepted gives a legal zone.
pub zone_parse_line-IsZone : (line : Text) (r : Zone) → zone_parse_line line ≡ ok r → IsZone r
unfolding zone_parse_line
zone_parse_line-IsZone line r h = Ensures-ok (parse_fields-Ensures (fields line)) h
