-- ===== src/Cdb/Seq.antt =====
-- lasagna/cdb/cdb_seq.c: the records one after the other.
use perp.Common.{ℕ, ◌+◌, not, none, some, ltb, if◌then◌else◌, drop}
use perp.Upak.{upak32_unpack, u32}
use perp.Cdb.{Cdb, cdb_read}

-- 1, with the record at the cursor; 0, behind the last one; -1
pub data Step : Type 0 where
  at_record : Cdb → Step
  at_end read_error : Step

unfoldable pub seq_at : Cdb → ℕ → Step
unfolding cdb_read
seq_at c rpos = if not (ltb rpos c.hbase) then at_end else elim (cdb_read c 8 rpos) [
  | none ↦ read_error
  | some nbuf ↦
      at_record
        (record c { rpos = rpos; klen = upak32_unpack nbuf; dlen = upak32_unpack (drop 4 nbuf) })
]

unfoldable pub cdb_seqinit : Cdb → Step
unfolding seq_at
cdb_seqinit c = seq_at c 2048

unfoldable pub cdb_seqnext : Cdb → Step
unfolding seq_at
cdb_seqnext c = seq_at c (u32 (c.rpos + u32 (c.klen + c.dlen + 8)))
