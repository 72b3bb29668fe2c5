-- ===== src/Region/Cache/Bounds.antt =====
-- The cache counts its bytes, stays within its bound and keeps one reply for a box.
use ewb_server.Base.{
  ℕ, ◌-◌, ◌/◌, ◌≤◌, ◌≡◌, refl, ap, inl, inr, Option, none, some, ltb, leb, arith, Bool-cases,
}
use ewb_server.Region.{RegionCacheKey, CachedRegion}
use ewb_server.Region.Cache.{
  RegionCache, enabled, entry_at, erased, evict_to, set_max_bytes, store, insert_over, insert,
}
use ewb_server.Region.Cache.Entries.{
  total, IsDistinct, total-without, entry_at-without, evict_list-sum, evict_list-fits,
  entry_at-evict_list, IsDistinct-without, IsDistinct-evict_list,
}

pub record IsCache (c : RegionCache) : Type 0 where
  pub sum : total c.order ≡ c.bytes
  pub bound : c.bytes ≤ c.max_bytes
  pub distinct : IsDistinct c.order

-- The same without the bound, as inside a call.
record IsSummed (c : RegionCache) : Type 0 where
  sum : total c.order ≡ c.bytes
  distinct : IsDistinct c.order

evicted :
    (limit : ℕ) (c : RegionCache)
    → IsSummed c
    → IsSummed (evict_to limit c) × ((evict_to limit c).bytes ≤ limit)
unfolding evict_to
evicted limit c v =
    let p = evict_list-sum limit c.bytes c.order (omega (arith, v.sum)) in
    (
      record {
        sum = omega (arith, p, v.sum);
        distinct = IsDistinct-evict_list limit c.bytes c.order v.distinct;
      },
      elim (evict_list-fits limit c.bytes c.order) [
        | inl fits ↦ fits
        | inr empty ↦ omega (arith, p, v.sum, ap total empty)
      ],
    )

pub set_max_bytes-IsCache : (n : ℕ) (c : RegionCache) → IsCache c → IsCache (set_max_bytes n c)
unfolding set_max_bytes evict_to
set_max_bytes-IsCache n c v =
    let (w, fits) =
      evicted n (record c { max_bytes = n }) (record { sum = v.sum; distinct = v.distinct }) in
    record { sum = w.sum; bound = fits; distinct = w.distinct }

pub erased-IsCache :
    (k : RegionCacheKey) (e : CachedRegion) (c : RegionCache)
    → entry_at k c.order ≡ some e
    → IsCache c
    → IsCache (erased k e c)
unfolding erased
erased-IsCache k e c h v = record {
  sum = omega (arith, total-without k e c.order h, v.sum);
  bound = omega (arith, v.bound);
  distinct = IsDistinct-without k c.order v.distinct;
}

store-IsCache :
    (k : RegionCacheKey) (e : CachedRegion) (c : RegionCache)
    → entry_at k c.order ≡ none
    → e.bytes ≤ c.max_bytes
    → IsCache c
    → IsCache (store k e c).0
unfolding store evict_to
store-IsCache k e c h small v =
    let limit = c.max_bytes - e.bytes in
    let (w, fits) = evicted limit c (record { sum = v.sum; distinct = v.distinct }) in
    record {
      sum = omega (arith, w.sum);
      bound = omega (arith, fits, small);
      distinct = (entry_at-evict_list limit c.bytes k c.order h, w.distinct);
    }

insert_over-IsCache :
    (k : RegionCacheKey) (e : CachedRegion) (o : Option CachedRegion) (c : RegionCache)
    → entry_at k c.order ≡ o
    → e.bytes ≤ c.max_bytes
    → IsCache c
    → IsCache (insert_over k e o c).0
unfolding insert_over erased
insert_over-IsCache k e none c h small v = store-IsCache k e c h small v
insert_over-IsCache k e (some old) c h small v = elim (Bool-cases (leb e.stamp old.stamp)) [
  | inl older ↦ rw older v
  | inr newer ↦ rw newer (
      store-IsCache k e (erased k old c) (entry_at-without k c.order v.distinct) small
        (erased-IsCache k old c h v))
]

-- `insert` keeps the cache valid: its byte count is the sum of its replies, within the bound, and no
-- box has two replies. Whatever the reply, room is made for it before it goes in.
pub insert-IsCache :
    (k : RegionCacheKey) (reply : Option CachedRegion) (c : RegionCache)
    → IsCache c
    → IsCache (insert k reply c).0
unfolding insert
insert-IsCache k none c v = v
insert-IsCache k (some e) c v = elim (Bool-cases (enabled c)) [
  | inr off ↦ rw off v
  | inl on ↦ elim (Bool-cases (ltb (c.max_bytes / 4) e.bytes)) [
    | inl big ↦ rw (on, big) (record { sum = v.sum; bound = v.bound; distinct = v.distinct })
    | inr small ↦
        rw (on, small)
          (insert_over-IsCache k e (entry_at k c.order) c refl (ground (arith, small)) v)
  ]
]
