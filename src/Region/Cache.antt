-- ===== src/Region/Cache.antt =====
-- region_cache.h, `RegionCache`: replies by box, the most recently used first. `map_` and `order_` are
-- one list of entries, so a key stands in both or in neither.
pub mod Entries
pub mod Bounds
pub mod Fresh
mod Tests
use ewb_server.Base.{
  ℕ, suc, ◌+◌, ◌-◌, ◌/◌, ℤ, eqb_ℤ, List, [], ◌∷◌, ◌++◌, Bool, true, false, ◌&&◌, not, Option, none,
  some, ltb, leb, if◌then◌else◌, length,
}
use ewb_server.Region.{RegionCacheKey, CachedRegion, CachedFrame}
use ewb_server.Region.Box.{RegionBox}
use ewb_server.Region.Gens.{ColumnGens, unchanged_since}

abbrev pub key_of : RegionBox → Bool → RegionCacheKey
key_of b empty_frame = record {
  x0 = b.x0;
  x1 = b.x1;
  z0 = b.z0;
  z1 = b.z1;
  empty_frame = empty_frame;
}

abbrev pub box_of : RegionCacheKey → RegionBox
box_of k = record { x0 = k.x0; x1 = k.x1; z0 = k.z0; z1 = k.z1 }

abbrev pub same_flag : Bool → Bool → Bool
same_flag true b = b
same_flag false b = not b

unfoldable pub key_beq : RegionCacheKey → RegionCacheKey → Bool
key_beq a b =
    eqb_ℤ a.x0 b.x0
    && eqb_ℤ a.x1 b.x1
    && eqb_ℤ a.z0 b.z0
    && eqb_ℤ a.z1 b.z1
    && same_flag a.empty_frame b.empty_frame

pub record Stats : Type 0 where
  pub hits : ℕ
  pub misses : ℕ
  pub stale : ℕ
  pub inserts : ℕ
  pub evictions : ℕ
  pub oversize : ℕ

abbrev pub Entries : Type 0
Entries = List (RegionCacheKey × CachedRegion)

pub record RegionCache : Type 0 where
  pub max_bytes : ℕ
  pub bytes : ℕ
  pub order : Entries
  pub st : Stats

unfoldable pub new : ℕ → RegionCache
new max_bytes = record {
  max_bytes = max_bytes;
  bytes = 0;
  order = [];
  st = record { hits = 0; misses = 0; stale = 0; inserts = 0; evictions = 0; oversize = 0 };
}

abbrev pub enabled : RegionCache → Bool
enabled c = ltb 0 c.max_bytes

unfoldable pub entry_at : RegionCacheKey → Entries → Option CachedRegion
entry_at k [] = none
entry_at k ((j, e) ∷ es) = if key_beq j k then some e else entry_at k es

unfoldable pub without : RegionCacheKey → Entries → Entries
without k [] = []
without k ((j, e) ∷ es) = if key_beq j k then es else (j, e) ∷ without k es

-- `erase`, for an entry that is there.
unfoldable pub erased : RegionCacheKey → CachedRegion → RegionCache → RegionCache
unfolding without
erased k e c = record c { bytes = c.bytes - e.bytes; order = without k c.order }

-- The loop that drops from the back while the bytes are above the limit: the entries and bytes that
-- stay, and how many went.
unfoldable pub evict_list : ℕ → ℕ → Entries → Entries × ℕ × ℕ
evict_list limit bytes [] = ([], bytes, 0)
evict_list limit bytes ((k, e) ∷ es) =
    let (rest, left, n) = evict_list limit bytes es in
    if ltb limit left then (rest, left - e.bytes, suc n) else ((k, e) ∷ rest, left, n)

unfoldable pub evict_to : ℕ → RegionCache → RegionCache
unfolding evict_list
evict_to limit c =
    let (rest, left, n) = evict_list limit c.bytes c.order in
    record c { order = rest; bytes = left; st = record c.st { evictions = c.st.evictions + n } }

unfoldable pub set_max_bytes : ℕ → RegionCache → RegionCache
unfolding evict_to
set_max_bytes n c = evict_to n (record c { max_bytes = n })

unfoldable pub find_entry :
    RegionCacheKey
    → ColumnGens
    → Option CachedRegion
    → RegionCache
    → RegionCache × Option CachedRegion
unfolding erased
find_entry k gens none c = (record c { st = record c.st { misses = suc c.st.misses } }, none)
find_entry k gens (some e) c =
    if not (unchanged_since (box_of k) e.stamp gens)
    then (erased k e (record c { st = record c.st { stale = suc c.st.stale } }), none)
    else (
      record c { order = (k, e) ∷ without k c.order; st = record c.st { hits = suc c.st.hits } },
      some e,
    )

unfoldable pub find : RegionCacheKey → ColumnGens → RegionCache → RegionCache × Option CachedRegion
unfolding find_entry entry_at
find k gens c = if enabled c then find_entry k gens (entry_at k c.order) c else (c, none)

unfoldable pub store : RegionCacheKey → CachedRegion → RegionCache → RegionCache × Bool
unfolding evict_to
store k e c =
    let c' = evict_to (c.max_bytes - e.bytes) c in
    (
      record c' {
        order = (k, e) ∷ c'.order;
        bytes = c'.bytes + e.bytes;
        st = record c'.st { inserts = suc c'.st.inserts };
      },
      true,
    )

unfoldable pub insert_over :
    RegionCacheKey → CachedRegion → Option CachedRegion → RegionCache → RegionCache × Bool
unfolding store erased
insert_over k e none c = store k e c
insert_over k e (some old) c =
    if leb e.stamp old.stamp then (c, false) else store k e (erased k old c)

-- The pointer may be null.
unfoldable pub insert : RegionCacheKey → Option CachedRegion → RegionCache → RegionCache × Bool
unfolding insert_over entry_at
insert k none c = (c, false)
insert k (some e) c =
    if not (enabled c)
    then (c, false)
    else if ltb (c.max_bytes / 4) e.bytes
    then (record c { st = record c.st { oversize = suc c.st.oversize } }, false)
    else insert_over k e (entry_at k c.order) c

unfoldable pub clear : RegionCache → RegionCache
clear c = record c { order = []; bytes = 0 }
