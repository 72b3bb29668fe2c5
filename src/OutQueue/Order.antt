-- ===== src/OutQueue/Order.antt =====
-- What reaches the client, and in which order: nothing that is taken is lost, doubled or reordered.
use ewb_server.Base.{
  ℕ, zero, suc, ◌+◌, ◌-◌, ◌≤◌, ◌<◌, ◌≡◌, refl, sym, ap, ◌∙◌, subst, inl, inr, List, [], ◌∷◌, ◌++◌,
  map, append_assoc, Option, none, some, length, Text, All, arith, drop, drop-nil, take,
  take-drop_append, ◌==◌, if◌then◌else◌, Bool-cases, true, false,
}
use ewb_server.Region.{SnapRec, CachedFrame, CachedRegion}
use ewb_server.OutQueue.{
  RegionJob, items_of, total, remaining, Frame, OutItem, bytes, shared_bytes, frame, cached_frame,
  Slot, string, shared, job, cached, OutQueue,
}
use ewb_server.OutQueue.Writer.{
  Low, take_lo, take_from, take_item, next_frame, empty_answer, advance, frame_at, min_ℕ,
  after_frame, after_cached,
}
use ewb_server.OutQueue.Accounting.{IsValid, IsSlot}
use mathlib.Core.List.{map-append}

-- One thing that a client receives.
pub data Atom : Type 0 where
  blob line : Text → Atom
  record_of : SnapRec → Atom
  no_terrain : Atom

abbrev pub records_atoms : List SnapRec → ℕ → List Atom
records_atoms [] n = no_terrain ∷ []
records_atoms (r ∷ rs) n = map record_of (drop n (r ∷ rs))

abbrev pub line_of : CachedFrame → Atom
line_of f = line f.line

abbrev pub slot_atoms : Slot → List Atom
slot_atoms (string b) = blob b ∷ []
slot_atoms (shared b) = blob b ∷ []
slot_atoms (job j) = records_atoms (items_of j.recs) j.cursor
slot_atoms (cached r n) = map line_of (drop n r.frames)

abbrev pub slots_atoms : List Slot → List Atom
slots_atoms [] = []
slots_atoms (s ∷ slots) = slot_atoms s ++ slots_atoms slots

abbrev pub frame_atoms : Frame → List Atom
frame_atoms it =
    if it.count == 0
    then no_terrain ∷ []
    else map record_of (take it.count (drop it.off (items_of it.recs)))

abbrev pub item_atoms : OutItem → List Atom
item_atoms (bytes b) = blob b ∷ []
item_atoms (shared_bytes b) = blob b ∷ []
item_atoms (frame it) = frame_atoms it
item_atoms (cached_frame l n a b) = line l ∷ []

-- All that is still to be sent, `hi` first.
abbrev pub stream : OutQueue → List Atom
stream q = map blob q.hi ++ slots_atoms q.lo

frame_at-drop :
    (fs : List CachedFrame) (n : ℕ)
    → n < length fs
    → map line_of (drop n fs) ≡ line (frame_at fs n).line ∷ map line_of (drop (n + 1) fs)
unfolding frame_at
frame_at-drop [] n h = absurd (omega arith)
frame_at-drop (f ∷ fs) zero h = refl
frame_at-drop (f ∷ fs) (suc n) h =
    let e : suc n + 1 ≡ suc (n + 1) = omega arith in rw e (frame_at-drop fs n (omega arith))

drop_all {ℓ} : {A : Type ℓ} (n : ℕ) (xs : List A) → length xs ≤ n → drop n xs ≡ []
drop_all n [] h = drop-nil n
drop_all zero (x ∷ xs) h = absurd (omega arith)
drop_all (suc n) (x ∷ xs) h = drop_all n xs (omega arith)

-- The records of a job that is not empty.
records_atoms-drop :
    (rs : List SnapRec) (n : ℕ) → 0 < length rs → records_atoms rs n ≡ map record_of (drop n rs)
records_atoms-drop [] n h = absurd (omega arith)
records_atoms-drop (r ∷ rs) n h = refl

-- A frame is the part of its job's records from the cursor on, and the rest is what follows it.
next_frame-atoms :
    (j : RegionJob)
    → 0 < j.frame_records
    → j.cursor < total j
    → slot_atoms (job j)
      ≡ frame_atoms (next_frame j) ++ map record_of (drop (advance j).cursor (items_of j.recs))
unfolding next_frame advance
next_frame-atoms j w h =
    let n = min_ℕ (remaining j) j.frame_records in
    let some_left : (n == 0) ≡ false = ground arith in
    rw some_left (
      records_atoms-drop (items_of j.recs) j.cursor (omega arith)
      ∙ ap (map record_of) (sym (take-drop_append j.cursor n (items_of j.recs)))
      ∙ map-append record_of _ _)

next_frame_last :
    (j : RegionJob)
    → (next_frame j).last ≡ true
    → map record_of (drop (advance j).cursor (items_of j.recs)) ≡ []
unfolding next_frame advance
next_frame_last j e = ap (map record_of) (drop_all _ (items_of j.recs) (ground arith))

next_frame_more :
    (j : RegionJob)
    → (next_frame j).last ≡ false
    → map record_of (drop (advance j).cursor (items_of j.recs)) ≡ slot_atoms (job (advance j))
unfolding next_frame advance
next_frame_more j e = sym (records_atoms-drop (items_of j.recs) (advance j).cursor (ground arith))

after_frame-atoms :
    (j : RegionJob) (slots : List Slot) (held jobs : ℕ)
    → slots_atoms (after_frame j slots held jobs).slots
      ≡ map record_of (drop (advance j).cursor (items_of j.recs)) ++ slots_atoms slots
unfolding after_frame
after_frame-atoms j slots held jobs = elim (Bool-cases (next_frame j).last) [
  | inl e ↦ rw (e, next_frame_last j e)
  | inr e ↦ rw (e, next_frame_more j e)
]

after_cached-atoms :
    (r : CachedRegion) (n : ℕ) (slots : List Slot) (held jobs : ℕ)
    → n < length r.frames
    → slots_atoms (after_cached r n slots held jobs).slots
      ≡ map line_of (drop (n + 1) r.frames) ++ slots_atoms slots
unfolding after_cached
after_cached-atoms r n slots held jobs h = elim (Bool-cases ((n + 1) == length r.frames)) [
  | inl e ↦ rw (e, drop_all (n + 1) r.frames (ground arith))
  | inr e ↦ rw e
]

-- What an item carries, or nothing.
abbrev pub option_atoms : Option OutItem → List Atom
option_atoms none = []
option_atoms (some item) = item_atoms item

take_lo-job :
    (j : RegionJob) (slots : List Slot) (held jobs : ℕ)
    → j.cursor < total j
    → take_lo (job j ∷ slots) held jobs
      ≡ (some (frame (next_frame j)), after_frame j slots held jobs)
unfolding take_lo
take_lo-job j slots held jobs h =
    let a : (total j == 0) ≡ false = ground arith in
    let b : (remaining j == 0) ≡ false = ground arith in rw (a, b)

take_lo-empty :
    (j : RegionJob) (slots : List Slot) (held jobs : ℕ)
    → total j ≡ 0
    → take_lo (job j ∷ slots) held jobs
      ≡ (some (frame (empty_answer j)), record { slots = slots; held = held; jobs = jobs - 1 })
unfolding take_lo
take_lo-empty j slots held jobs h = rw h

records_atoms-nil :
    (rs : List SnapRec) (n : ℕ) → length rs ≡ 0 → records_atoms rs n ≡ no_terrain ∷ []
records_atoms-nil [] n e = refl
records_atoms-nil (r ∷ rs) n e = absurd (omega arith)

-- One item of the low queue: what it carries and what is left are what was there.
abbrev IsSplit : List Slot → Option OutItem × Low → Type 0
IsSplit slots t = slots_atoms slots ≡ option_atoms t.0 ++ slots_atoms t.1.slots

take_lo-IsSplit :
    (slots : List Slot) (held jobs : ℕ) → All IsSlot slots → IsSplit slots (take_lo slots held jobs)
unfolding take_lo
take_lo-IsSplit [] held jobs v = refl
take_lo-IsSplit (string b ∷ slots) held jobs v = refl
take_lo-IsSplit (shared b ∷ slots) held jobs v = refl
take_lo-IsSplit (cached r n ∷ slots) held jobs v =
    rw (frame_at-drop r.frames n v.0, after_cached-atoms r n slots held jobs v.0)
take_lo-IsSplit (job j ∷ slots) held jobs ((w, inl e), v) =
    subst (IsSplit (job j ∷ slots)) (sym (take_lo-empty j slots held jobs e)) (
      ap (λ (l : List Atom). l ++ slots_atoms slots)
        (records_atoms-nil (items_of j.recs) j.cursor e))
take_lo-IsSplit (job j ∷ slots) held jobs ((w, inr h), v) =
    subst (IsSplit (job j ∷ slots)) (sym (take_lo-job j slots held jobs h)) (
      ap (λ (l : List Atom). l ++ slots_atoms slots) (next_frame-atoms j w h)
      ∙ append_assoc (frame_atoms (next_frame j)) _ (slots_atoms slots)
      ∙ ap (◌++◌ (frame_atoms (next_frame j))) (sym (after_frame-atoms j slots held jobs)))

take_from-stream :
    (hi : List Text) (q : OutQueue)
    → q.hi ≡ hi
    → IsValid q
    → stream q ≡ option_atoms (take_from hi q).0 ++ stream (take_from hi q).1
unfolding take_from
take_from-stream [] q e v = rw e (take_lo-IsSplit q.lo q.lo_bytes q.region_jobs v.slots)
take_from-stream (l ∷ hi) q e v = rw e

take_lo-none :
    (slots : List Slot) (held jobs : ℕ)
    → All IsSlot slots
    → (take_lo slots held jobs).0 ≡ none
    → slots ≡ []
unfolding take_lo
take_lo-none [] held jobs v e = refl
take_lo-none (string b ∷ slots) held jobs v e = cc
take_lo-none (shared b ∷ slots) held jobs v e = cc
take_lo-none (cached r n ∷ slots) held jobs v e = cc
take_lo-none (job j ∷ slots) held jobs ((w, inl h), v) e =
    cc (ap (λ (t : Option OutItem × Low). t.0) (take_lo-empty j slots held jobs h))
take_lo-none (job j ∷ slots) held jobs ((w, inr h), v) e =
    cc (ap (λ (t : Option OutItem × Low). t.0) (take_lo-job j slots held jobs h))

take_from-none :
    (hi : List Text) (q : OutQueue)
    → q.hi ≡ hi
    → IsValid q
    → (take_from hi q).0 ≡ none
    → stream q ≡ []
unfolding take_from
take_from-none [] q e v h = rw (e, take_lo-none q.lo _ _ v.slots h)
take_from-none (l ∷ hi) q e v h = cc

-- What `take` hands out is the next part of what the client is still to receive, `hi` before `lo`;
-- the rest of it stays queued, unchanged and in order. It hands out nothing only if nothing is left.
pub take_item-stream :
    (q : OutQueue)
    → IsValid q
    → (stream q ≡ option_atoms (take_item q).0 ++ stream (take_item q).1)
      × ((take_item q).0 ≡ none → stream q ≡ [])
unfolding take_item
take_item-stream q v = (take_from-stream q.hi q refl v, take_from-none q.hi q refl v)
