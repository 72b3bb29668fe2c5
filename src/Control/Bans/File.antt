-- ===== src/Control/Bans/File.antt =====
-- The ban list's calls and its file.
use ewb_server.Base.{
  ◌≡◌, ◌≢◌, refl, sym, ◌∙◌, subst, List, [], ◌∷◌, ◌++◌, append-nil, append_assoc, true, false, ◌&&◌,
  not, All, Text, text_beq, text_ltb, arith, inl, inr, Bool-cases, if◌then◌else◌,
}
use ewb_server.Zones.{is_empty}
use ewb_server.Zones.Set.{lines, drop_end, drop_front, is_skipped, put_line}
use ewb_server.Zones.Visible.{lines-put_line}
use ewb_server.Control.Bans.{
  BanList, clear, ctl_looks_like_ip, add, remove, ip_banned, name_banned, load_line, load_lines,
  load, heading, token_lines, serialize,
}
use ewb_server.Control.Bans.Sets.{
  IsSorted, member-insert, insert-IsSorted, insert_last, erase-IsSorted, member-erase,
}

-- A ban list whose sets are in order and hold what belongs to them.
pub record IsBanList (b : BanList) : Type 0 where
  pub names : IsSorted b.names
  pub ips : IsSorted b.ips

-- What `b'` holds when `token` was added to `b`.
pub record IsAdded (token : Text) (b b' : BanList) : Type 0 where
  pub valid : IsBanList b'
  pub name :
      (n : Text)
      → name_banned n b' ≡ (
          if text_beq token n && not (ctl_looks_like_ip token) && not (is_empty token)
          then true
          else name_banned n b)
  pub ip :
      (i : Text)
      → ip_banned i b'
        ≡ (if text_beq token i && ctl_looks_like_ip token then true else ip_banned i b)

-- A ban is in force at once for the name that it gives, or, if it has only digits, dots and colons,
-- for the address, and for no other; an empty one changes nothing. The sets stay in order.
pub add-IsAdded : (token : Text) (b : BanList) → IsBanList b → IsAdded token b (add token b).0
unfolding add name_banned ip_banned
add-IsAdded token b v = elim (Bool-cases (is_empty token)) [
  | inl y ↦ rw y (record {
    valid = v;
    name = λ who. ground arith;
    ip = λ i. ground (arith, empty_no_ip token y);
  })
  | inr n ↦ rw n (elim (Bool-cases (ctl_looks_like_ip token)) [
    | inl y ↦ rw y (record {
      valid = record { names = v.names; ips = insert-IsSorted token b.ips v.ips };
      name = λ who. ground arith;
      ip = λ i. member-insert token i b.ips ∙ ground arith;
    })
    | inr m ↦ rw m (record {
      valid = record { names = insert-IsSorted token b.names v.names; ips = v.ips };
      name = λ who. member-insert token who b.names ∙ ground arith;
      ip = λ i. ground arith;
    })
  ])
]
  where
    empty_no_ip : (s : Text) → is_empty s ≡ true → ctl_looks_like_ip s ≡ false
    empty_no_ip [] h = unfold ctl_looks_like_ip in refl
    empty_no_ip (c ∷ cs) h = cc

-- Lifting a ban takes the text out of both sets and changes nothing else.
pub remove-banned :
    (token name ip : Text) (b : BanList)
    → IsBanList b
    → IsBanList (remove token b).0
      × (name_banned name (remove token b).0
          ≡ (if text_beq token name then false else name_banned name b))
      × (ip_banned ip (remove token b).0 ≡ (if text_beq token ip then false else ip_banned ip b))
unfolding remove name_banned ip_banned
remove-banned token name ip b v = (
  record { names = erase-IsSorted token b.names v.names; ips = erase-IsSorted token b.ips v.ips },
  member-erase token name b.names v.names,
  member-erase token ip b.ips v.ips,
)

-- A line of the file that the loader takes as it is.
pub record IsToken (s : Text) : Type 0 where
  pub one_line : All (λ c. c ≢ 10) s
  pub trimmed : drop_front (drop_end s) ≡ s
  pub kept : is_skipped s ≡ false

abbrev pub IsIp : Text → Type 0
IsIp s = IsToken s × (ctl_looks_like_ip s ≡ true)

abbrev pub IsName : Text → Type 0
IsName s = IsToken s × (ctl_looks_like_ip s ≡ false)

before_last :
    (pre ss : List Text) (s : Text)
    → IsSorted (pre ++ (s ∷ ss))
    → All (λ u. text_ltb u s ≡ true) pre
before_last [] ss s h = tt
before_last (u ∷ us) ss s h = (at_middle us h.0, before_last us ss s h.1)
  where
    at_middle :
        (vs : List Text) → All (λ t. text_ltb u t ≡ true) (vs ++ (s ∷ ss)) → text_ltb u s ≡ true
    at_middle [] k = k.0
    at_middle (w ∷ ws) k = at_middle ws k.1

filled : (s : Text) → is_skipped s ≡ false → is_empty s ≡ false
filled [] h = cc
filled (c ∷ cs) h = refl

load_ip :
    (s : Text) (ns pre : List Text)
    → IsIp s
    → All (λ u. text_ltb u s ≡ true) pre
    → load_line s (record { names = ns; ips = pre }) ≡ record { names = ns; ips = pre ++ (s ∷ []) }
unfolding load_line add
load_ip s ns pre h k =
    rw ((h.0).trimmed, (h.0).kept, filled s (h.0).kept, h.1, insert_last s pre k) refl

load_name :
    (s : Text) (is pre : List Text)
    → IsName s
    → All (λ u. text_ltb u s ≡ true) pre
    → load_line s (record { names = pre; ips = is }) ≡ record { names = pre ++ (s ∷ []); ips = is }
unfolding load_line add
load_name s is pre h k =
    rw ((h.0).trimmed, (h.0).kept, filled s (h.0).kept, h.1, insert_last s pre k) refl

load_more :
    (l : Text) (ls : List Text) (b : BanList)
    → load_lines (l ∷ ls) b ≡ load_lines ls (load_line l b)
unfolding load_lines
load_more l ls b = refl

load_ips :
    (ss pre ns : List Text) (rest : Text)
    → IsSorted (pre ++ ss)
    → All IsIp ss
    → load_lines (lines (token_lines ss rest)) (record { names = ns; ips = pre })
      ≡ load_lines (lines rest) (record { names = ns; ips = pre ++ ss })
unfolding token_lines
load_ips [] pre ns rest h k = rw (append-nil pre) refl
load_ips (s ∷ ss) pre ns rest h k =
    let e : (pre ++ (s ∷ [])) ++ ss ≡ pre ++ (s ∷ ss) = append_assoc pre (s ∷ []) ss in
    rw
      (
        lines-put_line s (token_lines ss rest) ((k.0).0).one_line,
        load_more s (lines (token_lines ss rest)) (record { names = ns; ips = pre }),
        load_ip s ns pre k.0 (before_last pre ss s h),
      )
      (load_ips ss (pre ++ (s ∷ [])) ns rest (subst IsSorted (sym e) h) k.1 ∙ rw e refl)

load_names :
    (ss pre is : List Text)
    → IsSorted (pre ++ ss)
    → All IsName ss
    → load_lines (lines (token_lines ss [])) (record { names = pre; ips = is })
      ≡ record { names = pre ++ ss; ips = is }
unfolding token_lines
load_names [] pre is h k = unfold load_lines lines in rw (append-nil pre) refl
load_names (s ∷ ss) pre is h k =
    let e : (pre ++ (s ∷ [])) ++ ss ≡ pre ++ (s ∷ ss) = append_assoc pre (s ∷ []) ss in
    rw
      (
        lines-put_line s (token_lines ss []) ((k.0).0).one_line,
        load_more s (lines (token_lines ss [])) (record { names = pre; ips = is }),
        load_name s is pre k.0 (before_last pre ss s h),
      )
      (load_names ss (pre ++ (s ∷ [])) is (subst IsSorted (sym e) h) k.1 ∙ rw e refl)

load-heading : (rest : Text) → load (put_line heading rest) ≡ load_lines (lines rest) clear
unfolding load lines load_lines load_line
load-heading rest = unfold drop_end drop_front in refl

-- A ban list whose sets are in order, each text in the set that its form decides, is the same after
-- it was written and loaded, if the loader takes each text as it is: none begins with `#`, none has
-- a blank at an end.
pub load-serialize_bans :
    (b : BanList) → IsBanList b → All IsIp b.ips → All IsName b.names → load (serialize b) ≡ b
unfolding serialize
load-serialize_bans b v i n =
    load-heading (token_lines b.ips (token_lines b.names []))
    ∙ (load_ips b.ips [] [] (token_lines b.names []) v.ips i
        ∙ load_names b.names [] b.ips v.names n)
