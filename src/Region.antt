-- ===== src/Region.antt =====
-- region_query.h and snapz_codec.h: the records of a `REGION` reply. An `int` coordinate is a signed
-- integer.
pub mod Cells
pub mod Box
pub mod Gens
pub mod Cache
mod Tests
use ewb_server.Base.{ℕ, ℤ, Text, Bool, List}

pub record SnapRec : Type 0 where
  pub x : ℤ
  pub y : ℤ
  pub z : ℤ
  pub flag : ℤ
  pub type : ℤ

abbrev pub snapz_frame_records : ℕ
snapz_frame_records = 3000

pub record RegionCacheKey : Type 0 where
  pub x0 : ℤ
  pub x1 : ℤ
  pub z0 : ℤ
  pub z1 : ℤ
  pub empty_frame : Bool

pub record RegionCacheTag : Type 0 where
  pub key : RegionCacheKey
  pub stamp : ℕ

pub record CachedFrame : Type 0 where
  pub line : Text
  pub records : ℕ

pub record CachedRegion : Type 0 where
  pub frames : List CachedFrame
  pub bytes : ℕ
  pub records : ℕ
  pub stamp : ℕ
