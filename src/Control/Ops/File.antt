-- ===== src/Control/Ops/File.antt =====
-- The calls of the op levels and their file.
use ewb_server.Base.{
  ℤ, ◌≡◌, ◌≢◌, refl, sym, ◌∙◌, List, [], ◌∷◌, true, false, ◌&&◌, ◌||◌, not, Option, none, some, All,
  Text, text_beq, text_beq_iff, arith, inl, inr, Bool-cases, if◌then◌else◌,
}
use ewb_server.Zones.{is_empty}
use ewb_server.Zones.Set.{lines, is_skipped}
use ewb_server.Control.Ops.{
  OpsFile, ctl_level_valid, level_of, put, set, erase, atoi, drop_blanks, last_colon, set_parts,
  load_line, load_lines, load,
}

abbrev pub IsDistinct : OpsFile → Type 0
IsDistinct [] = Unit {0}
IsDistinct ((n, l) ∷ es) = All (λ (e : Text × ℤ). text_beq n e.0 ≡ false) es × IsDistinct es

abbrev pub IsLevel : Text × ℤ → Type 0
IsLevel e = (e.0 ≢ []) × (ctl_level_valid e.1 ≡ true)

-- One level for each name, and every level is 0, 1 or 2.
pub record IsOps (es : OpsFile) : Type 0 where
  pub distinct : IsDistinct es
  pub levels : All IsLevel es

All-put :
    (P : Text × ℤ → Type 0) (name : Text) (lvl : ℤ) (es : OpsFile)
    → ((n : Text) → text_beq n name ≡ true → P (n, lvl))
    → All P es
    → All P (put name lvl es)
unfolding put
All-put P name lvl [] k h = (k name ((text_beq_iff name name).1 refl), tt)
All-put P name lvl ((n, l) ∷ es) k h = elim (Bool-cases (text_beq n name)) [
  | inl y ↦ rw y (k n y, h.1)
  | inr m ↦ rw m (h.0, All-put P name lvl es k h.1)
]

put-IsDistinct :
    (name : Text) (lvl : ℤ) (es : OpsFile) → IsDistinct es → IsDistinct (put name lvl es)
unfolding put
put-IsDistinct name lvl [] h = (tt, tt)
put-IsDistinct name lvl ((n, l) ∷ es) h = elim (Bool-cases (text_beq n name)) [
  | inl y ↦ rw y h
  | inr m ↦ rw m (
    All-put (λ (e : Text × ℤ). text_beq n e.0 ≡ false) name lvl es
        (λ k y. ground (arith, y, m, text_beq_iff k name, text_beq_iff n name, text_beq_iff n k))
        h.0,
    put-IsDistinct name lvl es h.1,
  )
]

filled : (s : Text) → is_empty s ≡ false → s ≢ []
filled [] h = cc
filled (c ∷ cs) h = λ e. cc

put-IsOps :
    (name : Text) (lvl : ℤ) (es : OpsFile)
    → IsLevel (name, lvl)
    → IsOps es
    → IsOps (put name lvl es)
put-IsOps name lvl es h v = record {
  distinct = put-IsDistinct name lvl es v.distinct;
  levels =
      All-put IsLevel name lvl es (λ n y. (λ e. h.0 (sym ((text_beq_iff n name).0 y) ∙ e), h.1))
        v.levels;
}

pub set-IsOps : (name : Text) (lvl : ℤ) (es : OpsFile) → IsOps es → IsOps (set name lvl es).0
unfolding set
set-IsOps name lvl es v = elim (Bool-cases (is_empty name || not (ctl_level_valid lvl))) [
  | inl y ↦ rw y v
  | inr n ↦ rw n (put-IsOps name lvl es (filled name (ground (arith, n)), ground (arith, n)) v)
]

level_of-put :
    (name who : Text) (lvl default : ℤ) (es : OpsFile)
    → level_of who default (put name lvl es)
      ≡ (if text_beq name who then lvl else level_of who default es)
unfolding level_of put
level_of-put name who lvl default [] = refl
level_of-put name who lvl default ((n, l) ∷ es) = ground (
  arith,
  level_of-put name who lvl default es,
  text_beq_iff n name,
  text_beq_iff n who,
  text_beq_iff name who,
)

level_of_absent :
    (n who : Text) (default : ℤ) (es : OpsFile)
    → All (λ (e : Text × ℤ). text_beq n e.0 ≡ false) es
    → n ≡ who
    → level_of who default es ≡ default
unfolding level_of
level_of_absent n who default [] h k = refl
level_of_absent n who default ((m, l) ∷ es) h k =
    ground
      (arith, level_of_absent n who default es h.1 k, h.0, text_beq_iff m who, text_beq_iff n m)

level_of-erase :
    (name who : Text) (default : ℤ) (es : OpsFile)
    → IsDistinct es
    → level_of who default (erase name es).0
      ≡ (if text_beq name who then default else level_of who default es)
unfolding level_of erase
level_of-erase name who default [] h = ground arith
level_of-erase name who default ((n, l) ∷ es) h = ground (
  arith,
  level_of-erase name who default es h.1,
  level_of_absent n who default es h.0,
  text_beq_iff n name,
  text_beq_iff n who,
  text_beq_iff name who,
)

All-erase :
    (P : Text × ℤ → Type 0) (name : Text) (es : OpsFile) → All P es → All P (erase name es).0
unfolding erase
All-erase P name [] h = tt
All-erase P name ((n, l) ∷ es) h = ground (arith, All-erase P name es h.1)

erase-IsDistinct : (name : Text) (es : OpsFile) → IsDistinct es → IsDistinct (erase name es).0
unfolding erase
erase-IsDistinct name [] h = tt
erase-IsDistinct name ((n, l) ∷ es) h = elim (Bool-cases (text_beq n name)) [
  | inl y ↦ rw y h.1
  | inr m ↦ rw m (
    All-erase (λ (e : Text × ℤ). text_beq n e.0 ≡ false) name es h.0,
    erase-IsDistinct name es h.1,
  )
]

pub erase-IsOps : (name : Text) (es : OpsFile) → IsOps es → IsOps (erase name es).0
erase-IsOps name es v = record {
  distinct = erase-IsDistinct name es v.distinct;
  levels = All-erase IsLevel name es v.levels;
}

-- Setting a level is refused for an empty name and for a level that is not 0, 1 or 2, and else gives
-- the name that level and no other name another; taking the entry out brings the default back.
pub level_of-changed :
    (name who : Text) (lvl default : ℤ) (es : OpsFile)
    → IsOps es
    → ((set name lvl es).1 ≡ not (is_empty name) && ctl_level_valid lvl)
      × (level_of who default (set name lvl es).0
          ≡ (if text_beq name who && (set name lvl es).1 then lvl else level_of who default es))
      × (level_of who default (erase name es).0
          ≡ (if text_beq name who then default else level_of who default es))
unfolding set
level_of-changed name who lvl default es v = (
  ground arith,
  ground (arith, level_of-put name who lvl default es),
  level_of-erase name who default es v.distinct,
)

set_parts-IsOps : (o : Option (Text × Text)) (es : OpsFile) → IsOps es → IsOps (set_parts o es)
unfolding set_parts
set_parts-IsOps none es v = v
set_parts-IsOps (some (name, level)) es v = set-IsOps name (atoi level) es v

load_lines-IsOps : (ls : List Text) (es : OpsFile) → IsOps es → IsOps (load_lines ls es)
unfolding load_lines
load_lines-IsOps [] es v = v
load_lines-IsOps (l ∷ ls) es v = load_lines-IsOps ls (load_line l es) (
    unfold load_line in
    elim (Bool-cases (is_skipped (drop_blanks l))) [
      | inl y ↦ rw y v
      | inr n ↦ rw n (set_parts-IsOps (last_colon (drop_blanks l)) es v)
    ])

-- Whatever a file holds, it gives one level for each name, and every level is 0, 1 or 2.
pub load-IsOps : (text : Text) → IsOps (load text)
unfolding load
load-IsOps text = load_lines-IsOps (lines text) [] (record { distinct = tt; levels = tt })
