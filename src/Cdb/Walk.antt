-- ===== src/Cdb/Walk.antt =====
-- lasagna/cdb/cdb_seq.c and cdbmk_add.c: the records that were added are read back in order.
use perp.Common.{
  ℕ, zero, suc, ◌+◌, ◌≡◌, ◌<◌, refl, sym, ◌∙◌, ap, Option, none, some, List, [], ◌∷◌, ◌++◌,
  append_assoc, Bytes, drop, length, length-append, lt→ltb, take-append, drop-append_length, All,
  arith,
}
use perp.Upak.{u32_mod, upak32_pack, upak32_unpack}
use perp.Upak.RoundTrip.{upak32_unpack-pack}
use perp.Cdb.{Cdb, cdb_read, cdb_kpos, cdb_dpos, cdb_get}
use perp.Cdb.Seq.{Step, at_record, at_end, read_error, seq_at, cdb_seqnext}
use perp.Cdb.Added.{entry, layout, length-entry, IsShort}

-- what a loop over `cdb_seqinit` and `cdb_seqnext` reads, with the key and the data of each record
abbrev pub walk : ℕ → Step → Option (List (Bytes × Bytes))
walk f at_end = some []
walk f read_error = none
walk zero (at_record c) = none
walk (suc f) (at_record c) =
    let rest = walk f (cdb_seqnext c) in
    elim (cdb_read c c.klen (cdb_kpos c)) [
      | none ↦ none
      | some key ↦ elim (cdb_get c c.dlen) [
        | none ↦ none
        | some content ↦ elim rest [ none ↦ none | some records ↦ some ((key, content) ∷ records) ]
      ]
    ]

read_part :
    (c : Cdb) (pre part post : Bytes)
    → c.map ≡ pre ++ (part ++ post)
    → 0 < length post
    → cdb_read c (length part) (length pre) ≡ some part
unfolding cdb_read
read_part c pre part post same more =
    let len = ap length same ∙ length-append pre (part ++ post) in
    ground (
      arith,
      len,
      more,
      length-append part post,
      ap (drop (length pre)) same ∙ drop-append_length pre (part ++ post),
      take-append part post,
    )

-- the two lengths of a record
abbrev sizes : Bytes × Bytes → Bytes
sizes r = upak32_pack (length r.0) ++ upak32_pack (length r.1)

-- the object at a record
abbrev at_entry : Cdb → ℕ → Bytes × Bytes → Cdb
at_entry c rpos r = record c { rpos = rpos; klen = length r.0; dlen = length r.1 }

length-sizes : (r : Bytes × Bytes) → length (sizes r) ≡ 8
unfolding upak32_pack
length-sizes r = refl

pub second_size :
    (a b : ℕ) → b < u32_mod → upak32_unpack (drop 4 (upak32_pack a ++ upak32_pack b)) ≡ b
unfolding upak32_pack upak32_unpack
second_size a b h = omega arith

seq_at_lem :
    (c : Cdb) (pre post : Bytes) (r : Bytes × Bytes)
    → c.map ≡ pre ++ (sizes r ++ post)
    → 0 < length post
    → IsShort r
    → length pre < c.hbase
    → seq_at c (length pre) ≡ at_record (at_entry c (length pre) r)
unfolding seq_at
seq_at_lem c pre post r same more (ks, ds) before =
    let nbuf : cdb_read c 8 (length pre) ≡ some (sizes r) =
      ap (λ n. cdb_read c n (length pre)) (sym (length-sizes r))
      ∙ read_part c pre (sizes r) post same more in
    let klen : upak32_unpack (sizes r) ≡ length r.0 =
      upak32_unpack-pack (length r.0) (upak32_pack (length r.1)) ks in
    let dlen : upak32_unpack (drop 4 (sizes r)) ≡ length r.1 =
      second_size (length r.0) (length r.1) ds in
    rw (lt→ltb (length pre) c.hbase before, nbuf, seq_at, klen, dlen) refl

open_entry :
    (pre p q key content records tables : Bytes)
    → pre ++ (((p ++ (q ++ (key ++ content))) ++ records) ++ tables)
      ≡ pre ++ ((p ++ q) ++ (key ++ (content ++ (records ++ tables))))
open_entry pre p q key content records tables = simp append_assoc refl

key_at : (pre s key more : Bytes) → pre ++ (s ++ (key ++ more)) ≡ (pre ++ s) ++ (key ++ more)
key_at pre s key more = simp append_assoc refl

content_at :
    (pre s key content more : Bytes)
    → pre ++ (s ++ (key ++ (content ++ more))) ≡ (pre ++ (s ++ key)) ++ (content ++ more)
content_at pre s key content more = simp append_assoc refl

rest_at :
    (pre p q key content records tables : Bytes)
    → pre ++ (((p ++ (q ++ (key ++ content))) ++ records) ++ tables)
      ≡ (pre ++ (p ++ (q ++ (key ++ content)))) ++ (records ++ tables)
rest_at pre p q key content records tables = simp append_assoc refl

length_of :
    (pre s key content more : Bytes)
    → length (pre ++ (s ++ (key ++ (content ++ more))))
      ≡ length pre + length s + length key + length content + length more
length_of pre s key content more = omega (
  arith,
  length-append pre (s ++ (key ++ (content ++ more))),
  length-append s (key ++ (content ++ more)),
  length-append key (content ++ more),
  length-append content more,
)

cdb_get_lem :
    (c : Cdb) (pre content post : Bytes)
    → c.map ≡ pre ++ (content ++ post)
    → 0 < length post
    → c.dlen ≡ length content
    → cdb_dpos c ≡ length pre
    → cdb_get c (length content) ≡ some content
unfolding cdb_get
cdb_get_lem c pre content post same more dlen dpos =
    ap (λ n. cdb_read c n (cdb_dpos c)) (omega (arith, dlen))
    ∙ (ap (cdb_read c (length content)) dpos ∙ read_part c pre content post same more)

pub walk_lem :
    (records : List (Bytes × Bytes)) (c : Cdb) (pre tables : Bytes)
    → c.map ≡ pre ++ (layout records ++ tables)
    → 0 < length tables
    → All IsShort records
    → c.hbase ≡ length pre + length (layout records)
    → length c.map < u32_mod
    → walk (length records) (seq_at c (length pre)) ≡ some records
unfolding seq_at cdb_seqnext
walk_lem [] c pre tables same more short end small = ground (arith, end)
walk_lem (r ∷ records) c pre tables same more ((ks, ds), short) end small =
    let (key, content) = r in
    let p = upak32_pack (length key) in
    let q = upak32_pack (length content) in
    let more_bytes = layout records ++ tables in
    let n = length pre in
    let c1 = at_entry c n r in
    let map_is : c.map ≡ pre ++ (sizes r ++ (key ++ (content ++ more_bytes))) =
      same ∙ open_entry pre p q key content (layout records) tables in
    let total : length c.map ≡ n + 8 + length key + length content + length more_bytes =
      ap length map_is
      ∙ (length_of pre (sizes r) key content more_bytes ∙ omega (arith, length-sizes r)) in
    let some_more : 0 < length more_bytes =
      omega (arith, length-append (layout records) tables, more) in
    let behind = length-append content more_bytes in
    let grown = length-append (entry r) (layout records) in
    let step : seq_at c n ≡ at_record c1 =
      seq_at_lem c pre (key ++ (content ++ more_bytes)) r map_is
        (omega (arith, behind, length-append key (content ++ more_bytes), some_more)) (ks, ds)
        (omega (arith, end, grown, length-entry r)) in
    let key_read : cdb_read c1 (length key) (cdb_kpos c1) ≡ some key =
      ap (cdb_read c1 (length key))
        (omega (arith, total, small, length-append pre (sizes r), length-sizes r))
      ∙ read_part c1 (pre ++ sizes r) key (content ++ more_bytes)
          (map_is ∙ key_at pre (sizes r) key (content ++ more_bytes))
          (omega (arith, behind, some_more)) in
    let content_read : cdb_get c1 (length content) ≡ some content =
      cdb_get_lem c1 (pre ++ (sizes r ++ key)) content more_bytes
        (map_is ∙ content_at pre (sizes r) key content more_bytes) some_more refl
        (omega (
          arith,
          total,
          small,
          length-append pre (sizes r ++ key),
          length-append (sizes r) key,
          length-sizes r,
        )) in
    let next : cdb_seqnext c1 ≡ seq_at c1 (length (pre ++ entry r)) =
      ap (seq_at c1) (omega (arith, total, small, length-append pre (entry r), length-entry r)) in
    let rest : walk (length records) (seq_at c1 (length (pre ++ entry r))) ≡ some records =
      walk_lem records c1 (pre ++ entry r) tables
        (same ∙ rest_at pre p q key content (layout records) tables) more short
        (end ∙ omega (arith, grown, length-append pre (entry r))) small in
    rw (step, key_read, walk, content_read, next, rest) refl
