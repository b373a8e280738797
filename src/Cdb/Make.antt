-- ===== src/Cdb/Make.antt =====
-- lasagna/cdbmk.h, lasagna/cdb/cdbmk_init.c, cdbmk_add.c and cdbmk__update.c, with
-- lasagna/ufunc/ufunc_u32add.c: the records of a new database.
use perp.Common.{
  ℕ, ◌+◌, Option, none, some, List, [], ◌∷◌, ◌++◌, Bytes, ltb, leb, if◌then◌else◌, length, get_or,
  set, replicate,
}
use perp.Upak.{upak32_pack, u32}
use perp.Cdb.{cdb_ntab}
use perp.Cdb.Hash.{cdb_hash}

-- The blocks of a list, the last one first, of pairs of a hash and an offset.
abbrev pub Blocks : Type 0
Blocks = List (List (ℕ × ℕ))

-- `struct cdbmk`, with what was put into its queue, from offset 2048 of the file on
pub record Cdbmk : Type 0 where
  pub fp : ℕ
  pub input_list : List Blocks
  pub subtab_count : List ℕ
  pub output : Bytes

-- `none` stands for -1 with ERANGE
unfoldable pub ufunc_u32add : ℕ → ℕ → Option ℕ
ufunc_u32add u add = if ltb (u32 (u + add)) add then none else some (u32 (u + add))

abbrev pub cdbmk_init : Cdbmk
cdbmk_init = record {
  fp = 2048;
  input_list = replicate 4 [];
  subtab_count = replicate 256 0;
  output = [];
}

abbrev pub cdbmk_nlist : ℕ → ℕ
cdbmk_nlist ntab =
    if ltb ntab 128 then if ltb ntab 64 then 0 else 1 else if ltb ntab 192 then 2 else 3

-- a record into the last block, or into a new one where there is none with room
unfoldable pub block_add : ℕ × ℕ → Blocks → Blocks
block_add r [] = (r ∷ []) ∷ []
block_add r (block ∷ blocks) =
    if leb 500 (length block) then (r ∷ []) ∷ block ∷ blocks else (block ++ (r ∷ [])) ∷ blocks

-- where `malloc` succeeds
unfoldable pub cdbmk_update : Cdbmk → ℕ → ℕ → ℕ → Cdbmk
unfolding block_add
cdbmk_update m hash rpos fp_up =
    let ntab = cdb_ntab hash in
    let nlist = cdbmk_nlist ntab in
    record m {
      input_list = set m.input_list nlist (block_add (hash, rpos) (get_or m.input_list nlist []));
      fp = fp_up;
      subtab_count = set m.subtab_count ntab (u32 (get_or m.subtab_count ntab 0 + 1));
    }

-- where the queue takes the record
unfoldable pub cdbmk_add : Cdbmk → Bytes → Bytes → Option Cdbmk
unfolding cdbmk_update ufunc_u32add
cdbmk_add m key content =
    let klen = length key in
    let dlen = length content in
    let put = record m {
      output = m.output ++ (upak32_pack klen ++ (upak32_pack dlen ++ (key ++ content)));
    } in
    elim (ufunc_u32add m.fp 8) [
      | none ↦ none
      | some fp1 ↦ elim (ufunc_u32add fp1 klen) [
        | none ↦ none
        | some fp2 ↦ elim (ufunc_u32add fp2 dlen) [
          | none ↦ none
          | some fp_up ↦ some (cdbmk_update put (cdb_hash key) m.fp fp_up)
        ]
      ]
    ]

-- the records one after the other
abbrev pub cdbmk_add_all : Cdbmk → List (Bytes × Bytes) → Option Cdbmk
cdbmk_add_all m [] = some m
cdbmk_add_all m ((key, content) ∷ records) = elim (cdbmk_add m key content) [
  | none ↦ none
  | some m' ↦ cdbmk_add_all m' records
]
