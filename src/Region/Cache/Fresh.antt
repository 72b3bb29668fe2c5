-- ===== src/Region/Cache/Fresh.antt =====
-- A reply that `find` hands out is fresh, and looking one up keeps the cache valid.
use ewb_server.Base.{
  suc, ◌≡◌, refl, subst, sym, ◌∙◌, inl, inr, List, ◌∷◌, ◌++◌, Bool, true, false, Option, none, some,
  arith, Bool-cases,
}
use ewb_server.Region.{RegionCacheKey, CachedRegion}
use ewb_server.Region.Gens.{ColumnGens, unchanged_since}
use ewb_server.Region.Cache.{
  box_of, RegionCache, enabled, entry_at, key_beq, without, erased, find_entry, find,
}
use ewb_server.Region.Gens.Changes.{Change, changed, IsGens, IsIn, unchanged_since-changed}
use ewb_server.Region.Cache.Entries.{
  total-without, entry_at-without, entry_at-without_other, IsDistinct-without,
}
use ewb_server.Region.Cache.Bounds.{IsCache, erased-IsCache}

-- What a lookup gives: the stored reply of the box if nothing in the box changed since its scan, else
-- nothing; a reply that is found stale is gone.
pub record IsFound (k : RegionCacheKey) (gens : ColumnGens) (c c' : RegionCache)
    (reply : Option CachedRegion) : Type 0 where
  pub valid : IsCache c'
  pub fresh :
      (e : CachedRegion)
      → reply ≡ some e
      → (entry_at k c.order ≡ some e) × (unchanged_since (box_of k) e.stamp gens ≡ true)
  pub given :
      (e : CachedRegion)
      → enabled c ≡ true
      → entry_at k c.order ≡ some e
      → unchanged_since (box_of k) e.stamp gens ≡ true
      → (reply ≡ some e) × (c'.order ≡ (k, e) ∷ without k c.order)
  pub others : (j : RegionCacheKey) → key_beq k j ≡ false → entry_at j c'.order ≡ entry_at j c.order
  pub dropped :
      (e : CachedRegion)
      → enabled c ≡ true
      → entry_at k c.order ≡ some e
      → unchanged_since (box_of k) e.stamp gens ≡ false
      → (reply ≡ none) × (entry_at k c'.order ≡ none)

find_entry-IsFound :
    (k : RegionCacheKey) (gens : ColumnGens) (o : Option CachedRegion) (c : RegionCache)
    → entry_at k c.order ≡ o
    → IsCache c
    → IsFound k gens c (find_entry k gens o c).0 (find_entry k gens o c).1
unfolding find_entry erased entry_at
find_entry-IsFound k gens none c h v = record {
  valid = record { sum = v.sum; bound = v.bound; distinct = v.distinct };
  fresh = λ e p. cc;
  given = λ e on p q. cc;
  others = λ j h. refl;
  dropped = λ e on p q. cc;
}
find_entry-IsFound k gens (some f) c h v =
    elim (Bool-cases (unchanged_since (box_of k) f.stamp gens)) [
      | inl same ↦ rw same (record {
        valid = record {
          sum = omega (arith, total-without k f c.order h, v.sum);
          bound = v.bound;
          distinct =
              (entry_at-without k c.order v.distinct, IsDistinct-without k c.order v.distinct);
        };
        fresh = λ e p. (h ∙ p, subst (λ (o : Option CachedRegion). stamp_ok o ≡ true) p same);
        given = λ e on p q. (sym h ∙ p, cc (sym h ∙ p));
        others = λ j n. rw n (entry_at-without_other j k c.order n);
        dropped = λ e on p q. cc (sym h ∙ p, q, same);
      })
      | inr stale ↦ rw stale (record {
        valid = stale_valid;
        fresh = λ e p. cc;
        given = λ e on p q. cc (sym h ∙ p, q, stale);
        others = λ j n. entry_at-without_other j k c.order n;
        dropped = λ e on p q. (refl, entry_at-without k c.order v.distinct);
      })
    ]
  where
    stamp_ok : Option CachedRegion → Bool
    stamp_ok none = true
    stamp_ok (some e) = unchanged_since (box_of k) e.stamp gens

    stale_valid : IsCache (erased k f (record c { st = record c.st { stale = suc c.st.stale } }))
    stale_valid =
        let w = erased-IsCache k f c h v in
        record { sum = w.sum; bound = w.bound; distinct = w.distinct }

-- While the cache is on, `find` hands out the reply that is stored for the box exactly if nothing in
-- the box has changed since its scan, and makes it the newest; a stored reply that is out of date is
-- dropped. The entries of other boxes stay, and the cache stays valid.
pub find-IsFound :
    (k : RegionCacheKey) (gens : ColumnGens) (c : RegionCache)
    → IsCache c
    → IsFound k gens c (find k gens c).0 (find k gens c).1
unfolding find
find-IsFound k gens c v = elim (Bool-cases (enabled c)) [
  | inl on ↦ rw on (find_entry-IsFound k gens (entry_at k c.order) c refl v)
  | inr off ↦ rw off (record {
    valid = v;
    fresh = λ e p. cc;
    given = λ e on p q. cc (on, off);
    others = λ j n. refl;
    dropped = λ e on p q. cc (on, off);
  })
]

-- Once anything in its box has changed after its scan, a stored reply is not handed out, whatever
-- else changed before or after that.
pub find-changed :
    (k : RegionCacheKey) (e : CachedRegion) (gens : ColumnGens) (c : RegionCache)
    (early later : List Change) (write : Change)
    → IsCache c
    → entry_at k c.order ≡ some e
    → IsGens gens
    → e.stamp ≡ gens.now
    → IsIn (box_of k) write
    → (find k (changed (early ++ (write ∷ later)) gens) c).1 ≡ none
unfolding find
find-changed k e gens c early later write v stored g scanned inside =
    let since = changed (early ++ (write ∷ later)) gens in
    let found = find-IsFound k since c v in
    let stale : unchanged_since (box_of k) e.stamp since ≡ false =
      rw scanned (unchanged_since-changed (box_of k) gens early later write g inside) in
    elim (Bool-cases (enabled c)) [
      | inl on ↦ (found.dropped e on stored stale).0
      | inr off ↦ rw off refl
    ]
