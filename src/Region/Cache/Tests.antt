-- ===== src/Region/Cache/Tests.antt =====
-- A cache at concrete replies.
use ewb_server.Base.{pos, [], ◌∷◌, ◌≡◌, ◌++◌, none, some, true, false, arith, refl}
use ewb_server.Region.{RegionCacheKey, CachedRegion}
use ewb_server.Region.Gens.{new}
use ewb_server.Region.Cache.{RegionCache, box_of, key_beq, entry_at, find, insert}
use ewb_server.Region.Cache.Bounds.{IsCache, insert-IsCache}
use ewb_server.Region.Cache.Fresh.{IsFound, find-IsFound, find-changed}
use ewb_server.Region.Box.{contains}
use ewb_server.Region.Gens.Changes.{cell, changed, IsGens}

abbrev spawn : RegionCacheKey
spawn = record { x0 = pos 0; x1 = pos 15; z0 = pos 0; z1 = pos 15; empty_frame = false }

abbrev reply : CachedRegion
reply = record { frames = []; bytes = 20; records = 3; stamp = 0 }

abbrev newer : CachedRegion
newer = record { frames = []; bytes = 25; records = 4; stamp = 2 }

abbrev cache : RegionCache
cache = record {
  max_bytes = 100;
  bytes = 20;
  order = (spawn, reply) ∷ [];
  st = record { hits = 0; misses = 1; stale = 0; inserts = 1; evictions = 0; oversize = 0 };
}

cache-IsCache : IsCache cache
unfolding entry_at key_beq
cache-IsCache = record { sum = refl; bound = omega arith; distinct = (refl, tt) }

insert-IsCache_example : IsCache (insert spawn (some newer) cache).0
insert-IsCache_example = insert-IsCache spawn (some newer) cache cache-IsCache

find-IsFound_example : IsFound spawn new cache (find spawn new cache).0 (find spawn new cache).1
find-IsFound_example = find-IsFound spawn new cache cache-IsCache

stored : entry_at spawn cache.order ≡ some reply
unfolding entry_at key_beq
stored = refl

new-IsGens : IsGens new
unfolding new
new-IsGens = record { stamps = λ s. omega arith; reloads = omega arith }

inside : contains (box_of spawn) (pos 7) (pos 9) ≡ true
unfolding contains
inside = refl

find-changed_example : (find spawn (changed ([] ++ (cell (pos 7) (pos 9) ∷ [])) new) cache).1 ≡ none
unfolding new
find-changed_example =
    find-changed spawn reply new cache [] [] (cell (pos 7) (pos 9)) cache-IsCache stored new-IsGens
      refl inside
