-- ===== src/Zones.antt =====
-- zones.h: protected boxes of the world, their file and the tests that the edits ask.
-- `int64_t` coordinates are integers: only values inside the world's range are ever stored.
pub mod Set
pub mod Line
pub mod Accepted
pub mod Queries
pub mod Contents
pub mod Visible
pub mod Reading
pub mod File
mod Tests
use ewb_server.Base.{
  ℕ, suc, ◌+◌, ℤ, pos, leb_ℤ, ltb_ℤ, min_ℤ, max_ℤ, List, [], ◌∷◌, ◌++◌, Bool, true, false, ◌&&◌,
  ◌||◌, not, Option, none, some, ltb, leb, ◌==◌, if◌then◌else◌, length, get_or, Text, codes,
  text_beq, print_ℤ, parse_i64, Result, ok, err, ◌>>=◌, ◌>>◌, guard, of_option,
}

abbrev pub zone_xz_max : ℕ
zone_xz_max = 0xff_ffff

abbrev pub zone_y_max : ℕ
zone_y_max = 255

abbrev pub zone_max : ℕ
zone_max = 256

abbrev pub zone_name_max_len : ℕ
zone_name_max_len = 32

unfoldable pub name_byte : ℕ → Bool
name_byte c =
    (leb b'A' c && leb c b'Z')
    || (leb b'a' c && leb c b'z')
    || (leb b'0' c && leb c b'9')
    || (c == b'_')
    || (c == b'-')

unfoldable pub all_name_bytes : Text → Bool
unfolding name_byte
all_name_bytes [] = true
all_name_bytes (c ∷ cs) = name_byte c && all_name_bytes cs

abbrev pub is_empty : Text → Bool
is_empty [] = true
is_empty (c ∷ cs) = false

unfoldable pub zone_name_valid : Text → Bool
zone_name_valid name =
    if is_empty name || ltb zone_name_max_len (length name) then false else all_name_bytes name

abbrev pub zone_xz_in_range : ℤ → Bool
zone_xz_in_range v = leb_ℤ (pos 0) v && leb_ℤ v (pos zone_xz_max)

abbrev pub zone_y_in_range : ℤ → Bool
zone_y_in_range v = leb_ℤ (pos 0) v && leb_ℤ v (pos zone_y_max)

pub record Zone : Type 0 where
  pub name : Text
  pub x0 : ℤ
  pub y0 : ℤ
  pub z0 : ℤ
  pub x1 : ℤ
  pub y1 : ℤ
  pub z1 : ℤ
  pub enforced : Bool
  pub has_level : Bool
  pub level : ℤ

unfoldable pub contains : Zone → ℤ → ℤ → ℤ → Bool
contains r x y z =
    leb_ℤ r.x0 x && leb_ℤ x r.x1 && leb_ℤ r.y0 y && leb_ℤ y r.y1 && leb_ℤ r.z0 z && leb_ℤ z r.z1

unfoldable pub bypassed_by : Zone → ℤ → Bool
bypassed_by r level = r.has_level && leb_ℤ (pos 0) level && leb_ℤ r.level level

unfoldable pub overlaps : Zone → ℤ → ℤ → ℤ → ℤ → ℤ → ℤ → Bool
overlaps r bx0 by0 bz0 bx1 by1 bz1 =
    leb_ℤ r.x0 bx1
    && leb_ℤ bx0 r.x1
    && leb_ℤ r.y0 by1
    && leb_ℤ by0 r.y1
    && leb_ℤ r.z0 bz1
    && leb_ℤ bz0 r.z1

abbrev pub cons_first : ℕ → List Text → List Text
cons_first c [] = (c ∷ []) ∷ []
cons_first c (f ∷ fs) = (c ∷ f) ∷ fs

-- The loop that cuts a line at every `:`; there is one field more than there are colons.
unfoldable pub fields : Text → List Text
fields [] = [] ∷ []
fields (c ∷ cs) = let rest = fields cs in if c == b':' then [] ∷ rest else cons_first c rest

unfoldable pub coordinate : Text → Result Text ℤ
coordinate s =
    if is_empty s
    then err (codes "empty coordinate")
    else of_option (codes "non-numeric coordinate") (parse_i64 s)

unfoldable pub flag_of : Text → Result Text Bool
flag_of flag =
    if text_beq flag (codes "all")
    then ok true
    else if text_beq flag (codes "off")
    then ok false
    else err (codes "unknown flag")

level_number : Text → Result Text ℤ
level_number lv =
    if is_empty lv
    then err (codes "empty level")
    else of_option (codes "non-numeric level") (parse_i64 lv)

unfoldable pub level_of : Bool → Text → Result Text (Bool × ℤ)
unfolding level_number
level_of false lv = ok (false, pos 0)
level_of true lv = do
  n ← level_number lv
  guard (not (ltb_ℤ n (pos 0) || ltb_ℤ (pos 2) n)) (codes "level out of range (0..2)")
  ok (true, n)

-- The checks and the stores once the corners are in order.
unfoldable pub store_zone : Text → ℤ → ℤ → ℤ → ℤ → ℤ → ℤ → Text → Bool → Text → Result Text Zone
unfolding flag_of level_of
store_zone name x0 y0 z0 x1 y1 z1 flag nine lv = do
  guard (zone_xz_in_range x0 && zone_xz_in_range x1 && zone_xz_in_range z0 && zone_xz_in_range z1)
      (codes "x/z coordinate out of range")
  guard (zone_y_in_range y0 && zone_y_in_range y1) (codes "y coordinate out of range")
  on ← flag_of flag
  (has, n) ← level_of nine lv
  ok (record {
    name = name;
    x0 = x0;
    y0 = y0;
    z0 = z0;
    x1 = x1;
    y1 = y1;
    z1 = z1;
    enforced = on;
    has_level = has;
    level = n;
  })

unfoldable pub build_zone : Text → ℤ → ℤ → ℤ → ℤ → ℤ → ℤ → Text → Bool → Text → Result Text Zone
unfolding store_zone
build_zone name a b c d e f flag nine lv =
    store_zone name (min_ℤ a d) (min_ℤ b e) (min_ℤ c f) (max_ℤ a d) (max_ℤ b e) (max_ℤ c f) flag
      nine lv

unfoldable pub parse_fields : List Text → Result Text Zone
unfolding coordinate
parse_fields f = do
  guard (not (ltb (length f) 8 || ltb 9 (length f))) (codes "expected 8 or 9 fields")
  guard (zone_name_valid (get_or f 0 [])) (codes "invalid name")
  x ← coordinate (get_or f 1 [])
  y ← coordinate (get_or f 2 [])
  z ← coordinate (get_or f 3 [])
  x' ← coordinate (get_or f 4 [])
  y' ← coordinate (get_or f 5 [])
  z' ← coordinate (get_or f 6 [])
  build_zone (get_or f 0 []) x y z x' y' z' (get_or f 7 []) (length f == 9) (get_or f 8 [])

unfoldable pub zone_parse_line : Text → Result Text Zone
unfolding parse_fields fields
zone_parse_line line = parse_fields (fields line)

-- `s + ":" + t`.
abbrev pub colon : Text → Text → Text
colon s t = s ++ (b':' ∷ t)

unfoldable pub flag_text : Zone → Text
flag_text r = if r.enforced then codes "all" else codes "off"

unfoldable pub tail_text : Zone → Text
unfolding flag_text
tail_text r = if r.has_level then colon (flag_text r) (print_ℤ r.level) else flag_text r

unfoldable pub zone_serialize_line : Zone → Text
unfolding tail_text
zone_serialize_line r = colon r.name (
    colon (print_ℤ r.x0) (
      colon (print_ℤ r.y0) (
        colon (print_ℤ r.z0)
          (colon (print_ℤ r.x1) (colon (print_ℤ r.y1) (colon (print_ℤ r.z1) (tail_text r)))))))
