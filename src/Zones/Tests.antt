-- ===== src/Zones/Tests.antt =====
-- Zones at concrete boxes.
use ewb_server.Base.{
  ℕ, pos, negsuc, ◌≡◌, ◌⊎◌, refl, [], ◌∷◌, true, false, none, some, Text, codes, arith,
}
use ewb_server.Zones.{Zone, all_name_bytes, zone_name_valid, contains, overlaps}
use ewb_server.Zones.Line.{IsZone}
use ewb_server.Zones.Set.{
  ZoneSet, find, blocking, has_bypass_levels, any_overlaps, intersects, lines, load, serialize,
}
use ewb_server.Zones.Queries.{intersects-blocking}
use ewb_server.Zones.Contents.{IsZoneSet}
use ewb_server.Zones.Reading.{IsLoaded, IsStopped}
use ewb_server.Zones.File.{load_lem, load-serialize}

abbrev spawn : Zone
spawn = record {
  name = codes "spawn";
  x0 = pos 65500;
  y0 = pos 0;
  z0 = pos 65500;
  x1 = pos 65572;
  y1 = pos 255;
  z1 = pos 65572;
  enforced = true;
  has_level = false;
  level = pos 0;
}

abbrev museum : Zone
museum = record {
  name = codes "museum";
  x0 = pos 10;
  y0 = pos 30;
  z0 = pos 10;
  x1 = pos 20;
  y1 = pos 90;
  z1 = pos 20;
  enforced = true;
  has_level = true;
  level = pos 1;
}

spawn-IsZone : IsZone spawn
unfolding zone_name_valid all_name_bytes
spawn-IsZone = record {
  name = refl;
  x = record { low = omega arith; ordered = omega arith; high = omega arith };
  y = record { low = omega arith; ordered = omega arith; high = omega arith };
  z = record { low = omega arith; ordered = omega arith; high = omega arith };
  level_low = omega arith;
  level_high = omega arith;
  no_level = λ e. refl;
}

museum-IsZone : IsZone museum
unfolding zone_name_valid all_name_bytes
museum-IsZone = record {
  name = refl;
  x = record { low = omega arith; ordered = omega arith; high = omega arith };
  y = record { low = omega arith; ordered = omega arith; high = omega arith };
  z = record { low = omega arith; ordered = omega arith; high = omega arith };
  level_low = omega arith;
  level_high = omega arith;
  no_level = λ e. cc;
}

abbrev zones : ZoneSet
zones = spawn ∷ museum ∷ []

zones-IsZoneSet : IsZoneSet zones
unfolding find
zones-IsZoneSet = record {
  legal = (spawn-IsZone, (museum-IsZone, tt));
  distinct = (refl, (refl, tt));
  few = omega arith;
}

load-serialize_example : load (serialize zones) (museum ∷ []) ≡ (zones, none)
load-serialize_example = load-serialize zones (museum ∷ []) zones-IsZoneSet

load_lem_example :
    (((load (codes "spawn:1:2") zones).1 ≡ none)
      × IsLoaded (lines (codes "spawn:1:2")) [] (load (codes "spawn:1:2") zones).0)
    ⊎ ((e : Text × ℕ) × ((load (codes "spawn:1:2") zones).1 ≡ some e)
        × ((load (codes "spawn:1:2") zones).0 ≡ zones)
        × IsStopped (lines (codes "spawn:1:2")) 0 [] e)
load_lem_example = load_lem (codes "spawn:1:2") zones

clear : intersects (pos 500) (pos 9) (pos 300) (pos 400) (pos 7) (pos 400) zones ≡ false
unfolding intersects any_overlaps overlaps
clear = refl

intersects-blocking_example : blocking (pos 450) (pos 8) (pos 350) (negsuc 0) zones ≡ none
intersects-blocking_example =
    intersects-blocking (pos 500) (pos 9) (pos 300) (pos 400) (pos 7) (pos 400) (pos 450) (pos 8)
      (pos 350) (negsuc 0) zones
      (record {
        x_low = omega arith;
        x_high = omega arith;
        y_low = omega arith;
        y_high = omega arith;
        z_low = omega arith;
        z_high = omega arith;
      })
      clear

no_levels : has_bypass_levels (spawn ∷ []) ≡ false
unfolding has_bypass_levels
no_levels = refl

free_at_1 : blocking (pos 15) (pos 40) (pos 15) (pos 1) zones ≡ none
unfolding blocking contains
free_at_1 = refl
