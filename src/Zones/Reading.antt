-- ===== src/Zones/Reading.antt =====
-- zones.h, `ZoneSet::load`: what the lines of a file give, and where reading them stops.
use ewb_server.Base.{
  ℕ, suc, ◌+◌, ◌≤◌, ◌≡◌, ◌≢◌, refl, ap, sym, subst, ◌∙◌, append_assoc, append-nil, List, [], ◌∷◌,
  ◌++◌, map, none, true, false, length, Text, codes, arith, Result, ok, err, ◌>>=◌, ◌⊎◌, inl, inr,
  Bool-cases, Option-cases, if◌then◌else◌, leb, Ensures-ok,
}
use ewb_server.Zones.{Zone, zone_parse_line, zone_max}
use ewb_server.Zones.Accepted.{zone_parse_line-IsZone}
use ewb_server.Zones.Contents.{IsZoneSet, add-Ensures}
use ewb_server.Zones.Set.{
  ZoneSet, find, add, drop_end, drop_front, is_skipped, at_line, load_line, load_lines,
}

-- The line without the blanks at its ends.
abbrev pub trimmed : Text → Text
trimmed line = drop_front (drop_end line)

-- The lines that are not blank and not a comment, trimmed.
abbrev pub rules : List Text → List Text
rules [] = []
rules (line ∷ rest) =
    let more = rules rest in if is_skipped (trimmed line) then more else trimmed line ∷ more

-- Why a zone cannot join the set.
abbrev pub IsRefused : Zone → ZoneSet → Text → Type 0
IsRefused r zones why =
    ((find r.name zones ≢ none) × (why ≡ codes "duplicate name"))
    ⊎ ((find r.name zones ≡ none) × (zone_max ≤ length zones) × (why ≡ codes "zone cap reached"))

-- Why a rule is bad: it is no zone, or one that cannot join the zones before it.
abbrev pub IsBad : Text → ZoneSet → Text → Type 0
IsBad rule zones why =
    (zone_parse_line rule ≡ err why)
    ⊎ ((r : Zone) × (zone_parse_line rule ≡ ok r) × IsRefused r zones why)

-- Each rule of the lines is a zone, and these are the zones, behind the ones that were there.
pub record IsLoaded (ls : List Text) (built zones : ZoneSet) : Type 0 where
  pub new : ZoneSet
  pub all : zones ≡ built ++ new
  pub parsed : map zone_parse_line (rules ls) ≡ map ok new
  pub valid : IsZoneSet zones

-- The lines before line `n` are good, and that line is bad.
pub record IsStopped (ls : List Text) (start : ℕ) (built : ZoneSet) (e : Text × ℕ) : Type 0 where
  pub before : List Text
  pub bad : Text
  pub rest : List Text
  pub zones : ZoneSet
  pub at : ls ≡ before ++ (bad ∷ rest)
  pub line : e.1 ≡ start + (length before + 1)
  pub good : IsLoaded before built zones
  pub rule : is_skipped (trimmed bad) ≡ false
  pub reason : IsBad (trimmed bad) zones e.0

abbrev pub Outcome : List Text → ℕ → ZoneSet → Result (Text × ℕ) ZoneSet → Type 0
Outcome ls n built (ok zones) = IsLoaded ls built zones
Outcome ls n built (err e) = IsStopped ls n built e

add_outcome :
    (r : Zone) (built : ZoneSet)
    → ((zones : ZoneSet) × (add r built ≡ ok zones) × (zones ≡ built ++ (r ∷ [])))
      ⊎ ((why : Text) × (add r built ≡ err why) × IsRefused r built why)
unfolding add
add_outcome r built = elim (Option-cases (find r.name built)) [
  | inl free ↦ elim (Bool-cases (leb zone_max (length built))) [
    | inl full ↦ rw (free, full) (inr (_, refl, inr (refl, ground (arith, full), refl)))
    | inr room ↦ rw (free, room) (inl (_, refl, refl))
  ]
  | inr (q, used) ↦ rw used (inr (_, refl, inl ((λ e. cc), refl)))
]

-- The zones before a line and the rule of the line, or what the rules behind it give.
IsLoaded-skip :
    (line : Text) (ls : List Text) (built zones : ZoneSet)
    → is_skipped (trimmed line) ≡ true
    → IsLoaded ls built zones
    → IsLoaded (line ∷ ls) built zones
IsLoaded-skip line ls built zones s k = record {
  new = k.new;
  all = k.all;
  parsed = rw s k.parsed;
  valid = k.valid;
}

IsLoaded-more :
    (line : Text) (r : Zone) (ls : List Text) (built zones : ZoneSet)
    → is_skipped (trimmed line) ≡ false
    → zone_parse_line (trimmed line) ≡ ok r
    → IsLoaded ls (built ++ (r ∷ [])) zones
    → IsLoaded (line ∷ ls) built zones
IsLoaded-more line r ls built zones s e k = record {
  new = r ∷ k.new;
  all = k.all ∙ append_assoc built (r ∷ []) k.new;
  parsed = rw (s, e) (ap (λ (rs : List (Result Text Zone)). ok r ∷ rs) k.parsed);
  valid = k.valid;
}

Outcome-skip :
    (line : Text) (ls : List Text) (n : ℕ) (built : ZoneSet) (o : Result (Text × ℕ) ZoneSet)
    → is_skipped (trimmed line) ≡ true
    → Outcome ls (suc n) built o
    → Outcome (line ∷ ls) n built o
Outcome-skip line ls n built (ok zones) s k = IsLoaded-skip line ls built zones s k
Outcome-skip line ls n built (err e) s k = record {
  before = line ∷ k.before;
  bad = k.bad;
  rest = k.rest;
  zones = k.zones;
  at = ap (λ (t : List Text). line ∷ t) k.at;
  line = omega (arith, k.line);
  good = IsLoaded-skip line k.before built k.zones s k.good;
  rule = k.rule;
  reason = k.reason;
}

Outcome-more :
    (line : Text) (r : Zone) (ls : List Text) (n : ℕ) (built : ZoneSet)
    (o : Result (Text × ℕ) ZoneSet)
    → is_skipped (trimmed line) ≡ false
    → zone_parse_line (trimmed line) ≡ ok r
    → Outcome ls (suc n) (built ++ (r ∷ [])) o
    → Outcome (line ∷ ls) n built o
Outcome-more line r ls n built (ok zones) s p k = IsLoaded-more line r ls built zones s p k
Outcome-more line r ls n built (err e) s p k = record {
  before = line ∷ k.before;
  bad = k.bad;
  rest = k.rest;
  zones = k.zones;
  at = ap (λ (t : List Text). line ∷ t) k.at;
  line = omega (arith, k.line);
  good = IsLoaded-more line r k.before built k.zones s p k.good;
  rule = k.rule;
  reason = k.reason;
}

nothing_yet : (built : ZoneSet) → IsZoneSet built → IsLoaded [] built built
nothing_yet built v = record { new = []; all = sym (append-nil built); parsed = refl; valid = v }

IsStopped-here :
    (line : Text) (ls : List Text) (n : ℕ) (built : ZoneSet) (why : Text)
    → IsZoneSet built
    → is_skipped (trimmed line) ≡ false
    → IsBad (trimmed line) built why
    → IsStopped (line ∷ ls) n built (why, suc n)
IsStopped-here line ls n built why v s bad = record {
  before = [];
  bad = line;
  rest = ls;
  zones = built;
  at = refl;
  line = omega arith;
  good = nothing_yet built v;
  rule = s;
  reason = bad;
}

result_of : (m : Result Text Zone) → ((r : Zone) × (m ≡ ok r)) ⊎ ((why : Text) × (m ≡ err why))
result_of (ok r) = inl (r, refl)
result_of (err why) = inr (why, refl)

load_line-parsed :
    (text : Text) (built : ZoneSet) (r : Zone)
    → zone_parse_line text ≡ ok r
    → load_line text built ≡ add r built
unfolding load_line
load_line-parsed text built r h = rw h refl

load_line-bad :
    (text : Text) (built : ZoneSet) (why : Text)
    → zone_parse_line text ≡ err why
    → load_line text built ≡ err why
unfolding load_line
load_line-bad text built why h = rw h refl

-- One step of the loop at a rule.
load_lines-rule :
    (n : ℕ) (line : Text) (rest : List Text) (built : ZoneSet) (r : Result Text ZoneSet)
    → is_skipped (trimmed line) ≡ false
    → load_line (trimmed line) built ≡ r
    → load_lines n (line ∷ rest) built
      ≡ (at_line (suc n) r >>= λ (more : ZoneSet). load_lines (suc n) rest more)
unfolding load_lines
load_lines-rule n line rest built r s h = rw (s, h) refl

load_lines-skip :
    (n : ℕ) (line : Text) (rest : List Text) (built : ZoneSet)
    → is_skipped (trimmed line) ≡ true
    → load_lines n (line ∷ rest) built ≡ load_lines (suc n) rest built
unfolding load_lines
load_lines-skip n line rest built s = rw s refl

load_lines-stops :
    (n : ℕ) (line : Text) (rest : List Text) (built : ZoneSet) (why : Text)
    → is_skipped (trimmed line) ≡ false
    → load_line (trimmed line) built ≡ err why
    → load_lines n (line ∷ rest) built ≡ err (why, suc n)
unfolding at_line
load_lines-stops n line rest built why s h = load_lines-rule n line rest built (err why) s h

load_lines-goes :
    (n : ℕ) (line : Text) (rest : List Text) (built more : ZoneSet)
    → is_skipped (trimmed line) ≡ false
    → load_line (trimmed line) built ≡ ok more
    → load_lines n (line ∷ rest) built ≡ load_lines (suc n) rest more
unfolding at_line
load_lines-goes n line rest built more s h = load_lines-rule n line rest built (ok more) s h

pub load_lines-Outcome :
    (n : ℕ) (ls : List Text) (built : ZoneSet)
    → IsZoneSet built
    → Outcome ls n built (load_lines n ls built)
load_lines-Outcome n [] built v = unfold load_lines in nothing_yet built v
load_lines-Outcome n (line ∷ rest) built v = elim (Bool-cases (is_skipped (trimmed line))) [
  | inl s ↦
      rw (load_lines-skip n line rest built s)
        (Outcome-skip line rest n built _ s (load_lines-Outcome (suc n) rest built v))
  | inr s ↦ elim (result_of (zone_parse_line (trimmed line))) [
    | inr (why, p) ↦
        rw (load_lines-stops n line rest built why s (load_line-bad (trimmed line) built why p))
          (IsStopped-here line rest n built why v s (inl p))
    | inl (r, p) ↦ elim (add_outcome r built) [
      | inr (why, a, refused) ↦
          rw
            (load_lines-stops n line rest built why s
              (load_line-parsed (trimmed line) built r p ∙ a))
            (IsStopped-here line rest n built why v s (inr (r, p, refused)))
      | inl (more, a, last) ↦
          (let legal = zone_parse_line-IsZone (trimmed line) r p in
            let w = (Ensures-ok (add-Ensures r built legal v) a).valid in
            let a' : add r built ≡ ok (built ++ (r ∷ [])) = a ∙ ap ok last in
            rw
              (load_lines-goes n line rest built _ s
                (load_line-parsed (trimmed line) built r p ∙ a'))
              (Outcome-more line r rest n built _ s p
                (load_lines-Outcome (suc n) rest (built ++ (r ∷ [])) (subst IsZoneSet last w))))
    ]
  ]
]
