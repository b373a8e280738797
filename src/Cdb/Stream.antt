-- ===== src/Cdb/Stream.antt =====
-- lasagna/cdb: the records of a database that was made are read back in order.
use mathlib.Core.Option.{some-injective}
use perp.Common.{
  ℕ, suc, ◌+◌, ◌*◌, ◌≡◌, ◌<◌, inl, inr, refl, sym, ◌∙◌, ap, Option, none, some, List, [], ◌∷◌, ◌++◌,
  Bytes, take, length, length-append, arith, Option-cases, All, replicate,
}
use perp.Upak.{u32_mod, upak32_pack, upak32_unpack, u32}
use perp.Cdb.Hits.{read_inside}
use perp.Cdb.{Cdb, cdb_read, cdb_init, zeroed}
use perp.Cdb.Seq.{cdb_seqinit, seq_at}
use perp.Cdb.Make.{Cdbmk, ufunc_u32add, cdbmk_init, cdbmk_add_all}
use perp.Cdb.Finish.{subtabs, sum_slots, list_slots, tables, pointers, cdbmk_finish}
use perp.Cdb.Added.{layout, IsShort, add_all_lem}
use perp.Cdb.Walk.{walk, walk_lem}

length-subtabs :
    (counts : List ℕ) (toff : ℕ) {tabs : List (ℕ × ℕ)}
    → subtabs counts toff ≡ some tabs
    → length tabs ≡ length counts
unfolding subtabs
length-subtabs [] toff done = sym (ap length (some-injective _ _ done))
length-subtabs (count ∷ counts) toff {tabs} done =
    go (ufunc_u32add toff (u32 (u32 (count * 2) * 8)))
      (λ toff' tabs' h. length-subtabs counts toff' h) done
  where
    go :
        (o : Option ℕ)
        → ((toff' : ℕ) (tabs' : List (ℕ × ℕ))
            → subtabs counts toff' ≡ some tabs'
            → length tabs' ≡ length counts)
        → elim o [
          | none ↦ none
          | some toff' ↦ elim (subtabs counts toff') [
            | none ↦ none
            | some rest ↦ some ((u32 (count * 2), toff) ∷ rest)
          ]
        ]
          ≡ some tabs
        → length tabs ≡ suc (length counts)
    go none ih h = cc
    go (some toff') ih h = elim (Option-cases (subtabs counts toff')) [
      | inl over ↦ ground (arith, rw over at h)
      | inr (rest, same) ↦
          sym (ap length (some-injective _ _ (rw same at h))) ∙ ap suc (ih toff' rest same)
    ]

length-pointers : (hbase : ℕ) (tabs : List (ℕ × ℕ)) → length (pointers hbase tabs) ≡ 8 * length tabs
unfolding upak32_pack
length-pointers hbase [] = refl
length-pointers hbase (t ∷ tabs) = omega (arith, length-pointers hbase tabs)

first_subtab :
    (counts : List ℕ) {tabs : List (ℕ × ℕ)}
    → 0 < length counts
    → subtabs counts 0 ≡ some tabs
    → (slots : ℕ) × (rest : List (ℕ × ℕ)) × (tabs ≡ (slots, 0) ∷ rest)
unfolding subtabs
first_subtab [] some_counts done = absurd (omega (arith, some_counts))
first_subtab (count ∷ counts) {tabs} some_counts done =
    let slots = u32 (count * 2) in
    elim (Option-cases (ufunc_u32add 0 (u32 (slots * 8)))) [
      | inl over ↦ let value : none ≡ some tabs = rw (over, subtabs) at done in cc
      | inr (toff, fits) ↦ elim (Option-cases (subtabs counts toff)) [
        | inl over ↦ let value : none ≡ some tabs = rw (fits, subtabs, over) at done in cc
        | inr (rest, same) ↦
            (slots, rest, sym (some-injective _ _ (rw (fits, subtabs, same) at done)))
      ]
    ]

-- section P starts with the offset of section H
first_pointer :
    (hbase slots : ℕ) (tabs : List (ℕ × ℕ)) (rest : Bytes)
    → hbase < u32_mod
    → upak32_unpack (take 4 (pointers hbase ((slots, 0) ∷ tabs) ++ rest)) ≡ hbase
unfolding upak32_pack upak32_unpack
first_pointer hbase slots tabs rest small = omega (arith, small)

-- the sections of a file
record HasSections (m : Cdbmk) (file : Bytes) : Type 0 where
  tabs : List (ℕ × ℕ)
  section_h : Bytes
  counted : subtabs m.subtab_count 0 ≡ some tabs
  sections : file ≡ pointers m.fp tabs ++ (m.output ++ section_h)

finish-HasSections : (m : Cdbmk) {file : Bytes} → cdbmk_finish m ≡ some file → HasSections m file
unfolding cdbmk_finish
finish-HasSections m {file} made = elim (Option-cases (subtabs m.subtab_count 0)) [
  | inl over ↦ let value : none ≡ some file = rw (over, cdbmk_finish) at made in cc
  | inr (tabs, counted) ↦ elim (Option-cases (ufunc_u32add m.fp (u32 (sum_slots tabs 0 * 8)))) [
    | inl over ↦ let value : none ≡ some file = rw (counted, cdbmk_finish, over) at made in cc
    | inr (fp_eof, fits) ↦
        elim (Option-cases (tables tabs 0 m.input_list (list_slots 0 tabs (replicate 4 0)))) [
          | inl stuck ↦
              let value : none ≡ some file = rw (counted, cdbmk_finish, fits, stuck) at made in cc
          | inr (section_h, loaded) ↦ record {
            tabs = tabs;
            section_h = section_h;
            counted = counted;
            sections = sym (some-injective _ _ (rw (counted, cdbmk_finish, fits, loaded) at made));
          }
        ]
  ]
]

init_lem :
    (file : Bytes) {c : Cdb}
    → cdb_init file ≡ some c
    → (c.map ≡ file) × (c.hbase ≡ upak32_unpack (take 4 file))
unfolding cdb_init
init_lem file {c} opened = elim (Option-cases (cdb_read (zeroed file) 4 0)) [
  | inl error ↦ let value : none ≡ some c = rw (error, cdb_init) at opened in cc
  | inr (buf, read) ↦
      let same : record (zeroed file) { hbase = upak32_unpack buf } ≡ c =
        some-injective _ _ (rw (read, cdb_init) at opened) in
      (
        sym (ap (λ c. c.map) same),
        sym (ap (λ c. c.hbase) same) ∙ ap upak32_unpack (read_inside (zeroed file) 4 0 read).0,
      )
]

-- A database that was made of some records is read back by `cdb_seqinit` and `cdb_seqnext`: the keys
-- and the data of the records, in the order in which they were added.
pub seq_reads_added :
    (records : List (Bytes × Bytes)) {m : Cdbmk} {file : Bytes} {c : Cdb}
    → All IsShort records
    → cdbmk_add_all cdbmk_init records ≡ some m
    → cdbmk_finish m ≡ some file
    → length file < u32_mod
    → 2048 + length m.output < length file
    → cdb_init file ≡ some c
    → walk (length records) (cdb_seqinit c) ≡ some records
unfolding cdb_seqinit
seq_reads_added records {m} {file} {c} short added made small longer opened =
    let all = add_all_lem records cdbmk_init (omega arith) short added in
    let f = finish-HasSections m made in
    let (mapped, first) = init_lem file opened in
    let out : m.output ≡ layout records = all.appended in
    let (slots, rest, tabs_are) =
      first_subtab m.subtab_count (omega (arith, all.as_many)) f.counted in
    let section_p = pointers m.fp f.tabs in
    let starts : length section_p ≡ 2048 = omega (
      arith,
      length-pointers m.fp f.tabs,
      length-subtabs m.subtab_count 0 f.counted,
      all.as_many,
    ) in
    let map_is : c.map ≡ section_p ++ (layout records ++ f.section_h) =
      mapped ∙ (f.sections ∙ ap (λ o. section_p ++ (o ++ f.section_h)) out) in
    let hbase_is : c.hbase ≡ m.fp =
      first
      ∙ (ap (λ b. upak32_unpack (take 4 b))
            (f.sections ∙ ap (λ ts. pointers m.fp ts ++ (m.output ++ f.section_h)) tabs_are)
          ∙ first_pointer m.fp slots rest (m.output ++ f.section_h) all.fits) in
    ap (λ n. walk (length records) (seq_at c n)) (sym starts)
    ∙ walk_lem records c section_p f.section_h map_is
        (omega (
          arith,
          longer,
          ap length f.sections,
          length-append section_p (m.output ++ f.section_h),
          length-append m.output f.section_h,
          starts,
        ))
        short (omega (arith, hbase_is, all.moved, starts)) (omega (arith, ap length mapped, small))
