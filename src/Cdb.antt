-- ===== src/Cdb.antt =====
-- lasagna/cdb.h and lasagna/cdb: constant databases, of which the file is mapped into the memory.
pub mod Hash
pub mod Find
pub mod Seq
pub mod Arrays
pub mod Key
pub mod Probe
pub mod Hits
pub mod Make
pub mod Finish
pub mod Added
pub mod Walk
pub mod Stream
pub mod Table
pub mod Reach
mod Tests
use perp.Common.{
  ℕ, ◌+◌, ◌-◌, ◌%◌, ◌/◌, ◌||◌, Option, none, some, [], Bytes, ltb, leb, if◌then◌else◌, length, take,
  drop, min,
}
use perp.Upak.{u32, u32_mod, upak32_unpack}

-- `struct cdb`, with the file as it is mapped
pub record Cdb : Type 0 where
  pub map : Bytes
  pub hbase : ℕ
  pub key : Bytes
  pub klen : ℕ
  pub h : ℕ
  pub tbase : ℕ
  pub tslots : ℕ
  pub s0 : ℕ
  pub s_n : ℕ
  pub rpos : ℕ
  pub dlen : ℕ

abbrev pub cdb_ntab : ℕ → ℕ
cdb_ntab hash = hash % 256

abbrev pub cdb_slot : ℕ → ℕ → ℕ
cdb_slot hash tslots = (hash / 256) % tslots

-- `none` stands for -1 with EPROTO
unfoldable pub cdb_read : Cdb → ℕ → ℕ → Option Bytes
cdb_read c len offset =
    if leb (length c.map) offset || ltb (length c.map - offset) len
    then none
    else some (take len (drop offset c.map))

-- the object that `buf_zero` leaves, with the map
abbrev pub zeroed : Bytes → Cdb
zeroed file = record {
  map = file;
  hbase = 0;
  key = [];
  klen = 0;
  h = 0;
  tbase = 0;
  tslots = 0;
  s0 = 0;
  s_n = 0;
  rpos = 0;
  dlen = 0;
}

-- `cdb_init`, where `mmap` succeeds
unfoldable pub cdb_init : Bytes → Option Cdb
unfolding cdb_read
cdb_init file = elim (cdb_read (zeroed file) 4 0) [
  | none ↦ none
  | some buf ↦ some (record (zeroed file) { hbase = upak32_unpack buf })
]

abbrev pub cdb_kpos : Cdb → ℕ
cdb_kpos c = u32 (c.rpos + 8)

abbrev pub cdb_dpos : Cdb → ℕ
cdb_dpos c = u32 (c.rpos + 8 + c.klen)

unfoldable pub cdb_get : Cdb → ℕ → Option Bytes
unfolding cdb_read
cdb_get c len = cdb_read c (min len c.dlen) (cdb_dpos c)

-- how far the record that was found is from its first slot
unfoldable pub cdb_distance : Cdb → ℕ
cdb_distance c = if leb c.s0 c.s_n then c.s_n - c.s0 else u32 (c.tslots + u32_mod - c.s0 + c.s_n)
