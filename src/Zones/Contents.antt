-- ===== src/Zones/Contents.antt =====
-- What `add` and `remove` do to the names of a zone set.
use ewb_server.Base.{
  ◌≤◌, ◌<◌, ◌≡◌, ◌≢◌, refl, [], ◌∷◌, ◌++◌, Bool, true, false, not, Option, none, some, leb,
  if◌then◌else◌, length, length-append, All, All-append, Text, text_beq, text_beq_iff, arith, ok,
  inl, inr, Bool-cases, Ensures, holds, Ensures-guard,
}
use ewb_server.Zones.{Zone, zone_max}
use ewb_server.Zones.Line.{IsZone}
use ewb_server.Zones.Set.{ZoneSet, find, add, remove, is_some}

-- No two zones have one name.
abbrev pub IsDistinct : ZoneSet → Type 0
IsDistinct [] = Unit {0}
IsDistinct (r ∷ rs) = (find r.name rs ≡ none) × IsDistinct rs

pub record IsZoneSet (zones : ZoneSet) : Type 0 where
  pub legal : All IsZone zones
  pub distinct : IsDistinct zones
  pub few : length zones ≤ zone_max

pub find-append :
    (name : Text) (m n : ZoneSet)
    → find name (m ++ n) ≡ none
    → (find name m ≡ none) × (find name n ≡ none)
unfolding find
find-append name [] n h = (refl, h)
find-append name (r ∷ m) n h = ground (arith, find-append name m n)

pub find-snoc :
    (name : Text) (m : ZoneSet) (q : Zone)
    → find name m ≡ none
    → find name (m ++ (q ∷ [])) ≡ (if text_beq q.name name then some q else none)
unfolding find
find-snoc name [] q h = refl
find-snoc name (r ∷ m) q h = ground (arith, find-snoc name m q)

pub IsDistinct-middle :
    (m : ZoneSet) (r : Zone) (n : ZoneSet) → IsDistinct (m ++ (r ∷ n)) → find r.name m ≡ none
unfolding find
IsDistinct-middle [] r n d = refl
IsDistinct-middle (q ∷ m) r n d = ground (
  arith,
  IsDistinct-middle m r n d.1,
  find-append q.name m (r ∷ n) d.0,
  text_beq_iff r.name q.name,
  text_beq_iff q.name r.name,
)

IsDistinct-snoc :
    (m : ZoneSet) (r : Zone) → find r.name m ≡ none → IsDistinct m → IsDistinct (m ++ (r ∷ []))
unfolding find
IsDistinct-snoc [] r h d = (refl, tt)
IsDistinct-snoc (q ∷ m) r h d = (
  ground (arith, find-snoc q.name m r, text_beq_iff r.name q.name, text_beq_iff q.name r.name, d.0),
  IsDistinct-snoc m r (ground (arith, h)) d.1,
)

-- What a successful `add` leaves.
pub record IsAdded (r : Zone) (zones zones' : ZoneSet) : Type 0 where
  pub fresh : find r.name zones ≡ none
  pub last : zones' ≡ zones ++ (r ∷ [])
  pub valid : IsZoneSet zones'

not_some : (o : Option Zone) → not (is_some o) ≡ true → o ≡ none
not_some none h = refl
not_some (some r) h = cc

pub add-Ensures :
    (r : Zone) (zones : ZoneSet)
    → IsZone r
    → IsZoneSet zones
    → Ensures (IsAdded r zones) (add r zones)
unfolding add
add-Ensures r zones legal v = Ensures-guard (not (is_some (find r.name zones))) _ λ g.
    let free = not_some (find r.name zones) g in
    Ensures-guard (not (leb zone_max (length zones))) _ λ room. holds (record {
      fresh = free;
      last = refl;
      valid = record {
        legal = All-append IsZone zones (r ∷ []) v.legal (legal, tt);
        distinct = IsDistinct-snoc zones r free v.distinct;
        few = ground (arith, length-append zones (r ∷ []), room);
      };
    })

-- A zone with a name that is not in use is added while there is room.
pub add_fresh :
    (r : Zone) (zones : ZoneSet)
    → find r.name zones ≡ none
    → length zones < zone_max
    → add r zones ≡ ok (zones ++ (r ∷ []))
unfolding add
add_fresh r zones h room = let e : leb zone_max (length zones) ≡ false = ground arith in rw (h, e)

find-remove_none : (q name : Text) (m : ZoneSet) → find q m ≡ none → find q (remove name m).0 ≡ none
unfolding find remove
find-remove_none q name [] h = refl
find-remove_none q name (r ∷ m) h = ground (arith, find-remove_none q name m)

IsDistinct-remove : (name : Text) (m : ZoneSet) → IsDistinct m → IsDistinct (remove name m).0
unfolding remove
IsDistinct-remove name [] d = tt
IsDistinct-remove name (r ∷ m) d = elim (Bool-cases (text_beq r.name name)) [
  | inl e ↦ rw e d.1
  | inr e ↦ rw e (find-remove_none r.name name m d.0, IsDistinct-remove name m d.1)
]

All-remove {κ} : (P : Zone → Type κ) (name : Text) (m : ZoneSet) → All P m → All P (remove name m).0
unfolding remove
All-remove P name [] h = tt
All-remove P name (r ∷ m) h = elim (Bool-cases (text_beq r.name name)) [
  | inl e ↦ rw e h.1
  | inr e ↦ rw e (h.0, All-remove P name m h.1)
]

length-remove-le : (name : Text) (m : ZoneSet) → length (remove name m).0 ≤ length m
unfolding remove
length-remove-le name [] = omega arith
length-remove-le name (r ∷ m) = ground (arith, length-remove-le name m)

find-remove :
    (q name : Text) (m : ZoneSet)
    → IsDistinct m
    → find q (remove name m).0 ≡ (if text_beq name q then none else find q m)
unfolding find remove
find-remove q name [] d = ground arith
find-remove q name (r ∷ m) d = ground (
  arith,
  find-remove q name m d.1,
  text_beq_iff r.name name,
  text_beq_iff r.name q,
  text_beq_iff name q,
  d.0,
)

-- What `remove` leaves.
pub record IsRemoved (name : Text) (zones zones' : ZoneSet) (removed : Bool) : Type 0 where
  pub found : removed ≡ is_some (find name zones)
  pub gone : find name zones' ≡ none
  pub others : (q : Text) → q ≢ name → find q zones' ≡ find q zones
  pub valid : IsZoneSet zones'

remove_found : (name : Text) (m : ZoneSet) → (remove name m).1 ≡ is_some (find name m)
unfolding remove find
remove_found name [] = refl
remove_found name (r ∷ m) = ground (arith, remove_found name m)

-- In a valid set, `remove` takes the zone of that name out and no other, tells whether there was
-- one, and leaves a valid set.
pub remove-IsRemoved :
    (name : Text) (zones : ZoneSet)
    → IsZoneSet zones
    → IsRemoved name zones (remove name zones).0 (remove name zones).1
remove-IsRemoved name zones v = record {
  found = remove_found name zones;
  gone = ground (arith, find-remove name name zones v.distinct, text_beq_iff name name);
  others = λ q n. ground (arith, find-remove q name zones v.distinct, text_beq_iff name q);
  valid = record {
    legal = All-remove IsZone name zones v.legal;
    distinct = IsDistinct-remove name zones v.distinct;
    few = omega (arith, length-remove-le name zones, v.few);
  };
}
