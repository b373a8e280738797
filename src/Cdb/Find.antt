-- ===== src/Cdb/Find.antt =====
-- lasagna/cdb/cdb_find.c, with lasagna/buf/buf_cmp.c: the search for a key.
use perp.Common.{
  ℕ, zero, suc, ◌+◌, ◌-◌, ◌*◌, min, Bool, true, false, not, Option, none, some, Bytes, ltb, ◌==◌,
  if◌then◌else◌, drop, take,
}
use perp.Upak.{at, upak32_unpack, u32}
use perp.Cstr.{Comparison, below, same, above, is_same}
use perp.Cdb.{Cdb, cdb_ntab, cdb_slot, cdb_read}
use perp.Cdb.Hash.{cdb_hash}

unfoldable pub buf_cmp : Bytes → Bytes → ℕ → Comparison
buf_cmp p1 p2 zero = same
buf_cmp p1 p2 (suc n) =
    let rest = buf_cmp (drop 1 p1) (drop 1 p2) n in
    if at p1 0 == at p2 0 then rest else if ltb (at p1 0) (at p2 0) then below else above

-- The loop, which compares up to 80 bytes a round, each time with the first ones of the key;
-- `none` stands for -1. Each round takes a byte at least off `klen`, so that `klen` is fuel enough.
unfoldable pub key_match_from : ℕ → Cdb → Bytes → ℕ → ℕ → Option Bool
unfolding cdb_read buf_cmp
key_match_from zero c key klen kpos = some true
key_match_from (suc f) c key klen kpos =
    let n = min 80 klen in
    let rest = key_match_from f c key (klen - n) (u32 (kpos + n)) in
    if klen == 0 then some true else elim (cdb_read c n kpos) [
      | none ↦ none
      | some kbuf ↦ if is_same (buf_cmp key kbuf n) then rest else some false
    ]

unfoldable pub cdb_key_match : Cdb → Bytes → ℕ → ℕ → Option Bool
unfolding key_match_from
cdb_key_match c key klen kpos = key_match_from klen c key klen kpos

-- what a slot comes to: the loop returns, or goes on
pub data Visit : Type 0 where
  visit_error visit_empty visit_other : Visit
  visit_match : Cdb → Visit

-- a slot whose hash is the one that is looked for
unfoldable pub visit_record : Cdb → ℕ → ℕ → Visit
unfolding cdb_key_match
visit_record c target rpos = elim (cdb_read c 8 rpos) [
  | none ↦ visit_error
  | some nbuf ↦
      if upak32_unpack nbuf == c.klen
      then elim (cdb_key_match c c.key c.klen (u32 (rpos + 8))) [
        | none ↦ visit_error
        | some true ↦
            visit_match (record c { s_n = target; rpos = rpos; dlen = upak32_unpack (drop 4 nbuf) })
        | some false ↦ visit_other
      ]
      else visit_other
]

unfoldable pub visit : Cdb → ℕ → Visit
unfolding visit_record
visit c target = elim (cdb_read c 8 (u32 (c.tbase + u32 (target * 8)))) [
  | none ↦ visit_error
  | some nbuf ↦
      let rpos = upak32_unpack (drop 4 nbuf) in
      if rpos == 0
      then visit_empty
      else if upak32_unpack nbuf == c.h
      then visit_record c target rpos
      else visit_other
]

-- What a search returns: 1, with the cursors set; 0; -1. `unfinished` says that the fuel of the
-- model is used up.
pub data Found : Type 0 where
  found : Cdb → Found
  not_found io_error unfinished : Found

abbrev pub wrap : ℕ → ℕ → ℕ
wrap tslots target = if u32 (target + 1) == tslots then 0 else u32 (target + 1)

unfoldable pub cdb_hash_probe : ℕ → Cdb → ℕ → Found
unfolding visit
cdb_hash_probe zero c target = unfinished
cdb_hash_probe (suc f) c target =
    let next = wrap c.tslots target in
    let rest = cdb_hash_probe f c next in
    if not (ltb target c.tslots) then not_found else elim (visit c target) [
      | visit_error ↦ io_error
      | visit_empty ↦ not_found
      | visit_match c' ↦ found c'
      | visit_other ↦ if next == c.s0 then not_found else rest
    ]

-- The state that a search leaves, where it is not the one of `found`, is that of `sought`.
abbrev pub sought : Cdb → Bytes → ℕ → Option Cdb
sought c key klen =
    let hash = cdb_hash (take klen key) in
    let c1 = record c { key = key; klen = klen; h = hash } in
    elim (cdb_read c1 8 (cdb_ntab hash * 8)) [
      | none ↦ none
      | some nbuf ↦
          some (record c1 { tbase = upak32_unpack nbuf; tslots = upak32_unpack (drop 4 nbuf) })
    ]

-- A search visits each slot of the table once at most, so that their number is fuel enough.
unfoldable pub cdb_find : Cdb → Bytes → ℕ → Found
unfolding cdb_hash_probe
cdb_find c key klen = elim (sought c key klen) [
  | none ↦ io_error
  | some c1 ↦
      let target = cdb_slot c1.h c1.tslots in
      if c1.tslots == 0
      then not_found
      else cdb_hash_probe c1.tslots (record c1 { s0 = target }) target
]

unfoldable pub cdb_findnext : Cdb → Found
unfolding cdb_hash_probe
cdb_findnext c =
    let target = wrap c.tslots c.s_n in
    if target == c.s0 then not_found else cdb_hash_probe c.tslots c target
