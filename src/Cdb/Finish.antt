-- ===== src/Cdb/Finish.antt =====
-- lasagna/cdb/cdbmk_finish.c: the hash tables and the pointers to them.
use perp.Common.{
  store, ℕ, zero, suc, ◌+◌, ◌-◌, ◌*◌, not, Option, none, some, List, [], ◌∷◌, ◌++◌, Bytes, ltb,
  ◌==◌, if◌then◌else◌, drop, get_or, set, replicate,
}
use perp.Upak.{u32_mod, upak32_pack, upak32_unpack, u32}
use perp.Cdb.{cdb_ntab, cdb_slot}
use perp.Cdb.Find.{wrap}
use perp.Cdb.Make.{Blocks, Cdbmk, ufunc_u32add, cdbmk_nlist}

-- The loop of `tbuf_load`, in the subtable at an offset of the buffer. A subtable with an empty slot
-- is searched within as many rounds as it has slots; in one without, the loop does not end.
unfoldable pub load_from : ℕ → Bytes → ℕ → ℕ → ℕ → ℕ → ℕ → Option Bytes
load_from zero tbuf base tslots target hash rpos = none
load_from (suc f) tbuf base tslots target hash rpos =
    let slot = base + target * 8 in
    let rest = load_from f tbuf base tslots (wrap tslots target) hash rpos in
    if upak32_unpack (drop (slot + 4) tbuf) == 0
    then some (store tbuf slot (upak32_pack hash ++ upak32_pack rpos))
    else rest

-- `none` where it returns -1 or does not return
unfoldable pub tbuf_load : Bytes → ℕ → ℕ → ℕ → ℕ → ℕ → Option Bytes
unfolding load_from
tbuf_load tbuf base tslots target hash rpos =
    if not (ltb target tslots) then none else load_from tslots tbuf base tslots target hash rpos

-- the loop of `list_reverse`
abbrev pub reverse_onto : Blocks → Blocks → Blocks
reverse_onto [] n = n
reverse_onto (k ∷ t) n = reverse_onto t (k ∷ n)

abbrev pub list_reverse : Blocks → Blocks
list_reverse list = reverse_onto list []

-- the slots and the offset of each subtable
unfoldable pub subtabs : List ℕ → ℕ → Option (List (ℕ × ℕ))
subtabs [] toff = some []
subtabs (count ∷ counts) toff =
    let tslots = u32 (count * 2) in
    elim (ufunc_u32add toff (u32 (tslots * 8))) [
      | none ↦ none
      | some toff' ↦ elim (subtabs counts toff') [
        | none ↦ none
        | some rest ↦ some ((tslots, toff) ∷ rest)
      ]
    ]

-- the slots of all subtables
abbrev pub sum_slots : List (ℕ × ℕ) → ℕ → ℕ
sum_slots [] sum = sum
sum_slots ((tslots, toff) ∷ tabs) sum = sum_slots tabs (u32 (sum + tslots))

-- and of the subtables of each list
abbrev pub list_slots : ℕ → List (ℕ × ℕ) → List ℕ → List ℕ
list_slots i [] sums = sums
list_slots i ((tslots, toff) ∷ tabs) sums =
    let nlist = cdbmk_nlist i in
    list_slots (i + 1) tabs (set sums nlist (u32 (get_or sums nlist 0 + tslots)))

-- the records of a block
unfoldable pub load_block : List (ℕ × ℕ) → ℕ → List (ℕ × ℕ) → Bytes → Option Bytes
unfolding tbuf_load
load_block tabs tbase_adj [] tbuf = some tbuf
load_block tabs tbase_adj ((hash, rpos) ∷ records) tbuf =
    let (tslots, toff) = get_or tabs (cdb_ntab hash) (0, 0) in
    let tbase = u32 (toff + u32_mod - tbase_adj) in
    elim (tbuf_load tbuf tbase tslots (cdb_slot hash tslots) hash rpos) [
      | none ↦ none
      | some tbuf' ↦ load_block tabs tbase_adj records tbuf'
    ]

unfoldable pub load_list : List (ℕ × ℕ) → ℕ → Blocks → Bytes → Option Bytes
unfolding load_block
load_list tabs tbase_adj [] tbuf = some tbuf
load_list tabs tbase_adj (block ∷ blocks) tbuf = elim (load_block tabs tbase_adj block tbuf) [
  | none ↦ none
  | some tbuf' ↦ load_list tabs tbase_adj blocks tbuf'
]

-- section H, with the sum of the slots of the lists before
unfoldable pub tables : List (ℕ × ℕ) → ℕ → List Blocks → List ℕ → Option Bytes
unfolding load_list
tables tabs sum [] sums = some []
tables tabs sum (list ∷ lists) [] = some []
tables tabs sum (list ∷ lists) (slots ∷ sums) =
    let tbuf = replicate (u32 (slots * 8)) 0 in
    elim (load_list tabs (u32 (sum * 8)) (list_reverse list) tbuf) [
      | none ↦ none
      | some loaded ↦ elim (tables tabs (u32 (sum + slots)) lists sums) [
        | none ↦ none
        | some rest ↦ some (loaded ++ rest)
      ]
    ]

-- section P
abbrev pub pointers : ℕ → List (ℕ × ℕ) → Bytes
pointers hbase [] = []
pointers hbase ((tslots, toff) ∷ tabs) =
    upak32_pack (u32 (hbase + toff)) ++ (upak32_pack tslots ++ pointers hbase tabs)

-- The file that is there in the end, where memory is allocated and the queue takes all; `none` where
-- it returns -1, or does not return.
unfoldable pub cdbmk_finish : Cdbmk → Option Bytes
unfolding subtabs tables
cdbmk_finish m = elim (subtabs m.subtab_count 0) [
  | none ↦ none
  | some tabs ↦ elim (ufunc_u32add m.fp (u32 (sum_slots tabs 0 * 8))) [
    | none ↦ none
    | some fp_eof ↦ elim (tables tabs 0 m.input_list (list_slots 0 tabs (replicate 4 0))) [
      | none ↦ none
      | some section_h ↦ some (pointers m.fp tabs ++ (m.output ++ section_h))
    ]
  ]
]
