-- ===== src/Cdb/Tests.antt =====
-- Runs over a small database.
use perp.Cdb.Finish.{tbuf_load}
use perp.Cdb.Reach.{IsReached, load_all, load_all-IsReached}
use perp.Common.{
  All, ℕ, ◌≡◌, refl, true, Option, none, some, List, [], ◌∷◌, ◌++◌, Bytes, length, arith, codes,
  replicate,
}
use perp.Cdb.{Cdb, cdb_init}
use perp.Cdb.Hash.{cdb_hashpart}
use perp.Cdb.Find.{
  Found, found, not_found, io_error, unfinished, sought, cdb_find, cdb_findnext, cdb_key_match,
}
use perp.Cdb.Key.{Agrees, Decides, cdb_key_match_lem}
use perp.Cdb.Probe.{search, search_all, left, cdb_find_lem, cdb_findnext_lem}
use perp.Cdb.Hits.{IsHit, find-IsHit}
use perp.Cdb.Seq.{cdb_seqinit}
use perp.Cdb.Make.{Cdbmk, cdbmk_init, cdbmk_add_all}
use perp.Cdb.Finish.{cdbmk_finish}
use perp.Cdb.Walk.{walk}
use perp.Cdb.Stream.{seq_reads_added}

abbrev records : List (Bytes × Bytes)
records = (codes "a", codes "1") ∷ (codes "b", []) ∷ (codes "a", codes "22") ∷ []

abbrev made : Option Cdbmk → Cdbmk
made none = cdbmk_init
made (some m) = m

abbrev file_of : Option Bytes → Bytes
file_of none = []
file_of (some file) = file

abbrev object : Option Cdb → Option Cdb → Cdb
object (some c) other = c
object none (some c) = c
object none none = record {
  map = [];
  hbase = 0;
  key = [];
  klen = 0;
  h = 0;
  tbase = 0;
  tslots = 0;
  s0 = 0;
  s_n = 0;
  rpos = 0;
  dlen = 0;
}

abbrev file : Bytes
file = file_of (cdbmk_finish (made (cdbmk_add_all cdbmk_init records)))

abbrev db : Cdb
db = object (cdb_init file) none

-- the first of the two records with the key
abbrev hit : Found → Cdb
hit (found c) = c
hit not_found = object none none
hit io_error = object none none
hit unfinished = object none none

file_size : length file ≡ 2126
unfolding cdbmk_finish perp.Cdb.Make.cdbmk_add perp.Cdb.Hash.cdb_hashpart perp.Upak.upak32_unpack
    perp.Upak.upak32_pack
file_size = refl

seq_reads_added_example : walk 3 (cdb_seqinit db) ≡ some records
unfolding cdbmk_finish perp.Cdb.Make.cdbmk_add perp.Cdb.Hash.cdb_hashpart perp.Upak.upak32_unpack
    perp.Upak.upak32_pack cdb_init
seq_reads_added_example =
    seq_reads_added records
      ((omega arith, omega arith), ((omega arith, omega arith), ((omega arith, omega arith), tt)))
      refl refl (omega (arith, file_size)) (omega (arith, file_size)) refl

find-IsHit_example : IsHit db.map (codes "a") 1 (hit (cdb_find db (codes "a") 1))
unfolding cdbmk_finish perp.Cdb.Make.cdbmk_add perp.Cdb.Hash.cdb_hashpart perp.Upak.upak32_unpack
    perp.Upak.upak32_pack cdb_init cdb_find
find-IsHit_example = find-IsHit db (codes "a") 1 (omega (arith, file_size)) refl

second : (hit (cdb_findnext (hit (cdb_find db (codes "a") 1)))).dlen ≡ 2
unfolding cdbmk_finish perp.Cdb.Make.cdbmk_add perp.Cdb.Hash.cdb_hashpart perp.Upak.upak32_unpack
    perp.Upak.upak32_pack cdb_init cdb_find cdb_findnext
second = refl

cdb_find_lem_example :
    cdb_find db (codes "b") 1
    ≡ elim (sought db (codes "b") 1) [ none ↦ io_error | some c1 ↦ search_all c1 ]
cdb_find_lem_example = cdb_find_lem db (codes "b") 1

cdb_findnext_lem_example :
    let c = hit (cdb_find db (codes "a") 1) in cdb_findnext c ≡ search c (left c)
unfolding cdbmk_finish perp.Cdb.Make.cdbmk_add perp.Cdb.Hash.cdb_hashpart perp.Upak.upak32_unpack
    perp.Upak.upak32_pack cdb_init cdb_find
cdb_findnext_lem_example =
    cdb_findnext_lem (hit (cdb_find db (codes "a") 1)) (omega arith) (omega arith) (omega arith)

-- a subtable of two slots, the second of which is taken
abbrev subtable : Bytes
subtable = replicate 8 0 ++ (7 ∷ 0 ∷ 0 ∷ 0 ∷ 9 ∷ 0 ∷ 0 ∷ 0 ∷ [])

abbrev entries : List (ℕ × ℕ)
entries = (257, 2048) ∷ (513, 2060) ∷ []

load_all-IsReached_example :
    All (IsReached (file_of (load_all 0 4 entries (replicate 32 0))) 0 4) entries
unfolding tbuf_load perp.Upak.upak32_unpack perp.Upak.upak32_pack
load_all-IsReached_example =
    load_all-IsReached 0 4 entries (replicate 32 0) (omega arith) (omega arith) (omega arith)
      ((omega arith, omega arith, ground arith), ((omega arith, omega arith, ground arith), tt))
      refl

-- a key of 160 bytes, the first 80 all the same, and the last 80 too
abbrev long_key : Bytes
long_key = replicate 80 b'a' ++ replicate 80 b'b'

-- a file that holds a key of 160 equal bytes
abbrev long_file : Cdb
long_file = record (object none none) { map = replicate 160 b'a' }

cdb_key_match_lem_example :
    Decides (Agrees long_file.map long_key 160 0) (cdb_key_match long_file long_key 160 0)
cdb_key_match_lem_example = cdb_key_match_lem long_file long_key 160 0 (omega arith) (omega arith)

-- it is taken for the other key
taken_for_other : cdb_key_match long_file long_key 160 0 ≡ some true
unfolding cdb_key_match
taken_for_other = refl
